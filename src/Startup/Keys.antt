-- ===== src/Startup/Keys.antt =====
-- The key set that a started server publishes, and the tokens that it signs.
use oauth_2_0_and_open_id_co.External.{External}
use oauth_2_0_and_open_id_co.Dict
