-- ===== src/Service/Errors.antt =====
-- The errors of the token service.
use oauth_2_0_and_open_id_co.Action.{err}
use oauth_2_0_and_open_id_co.Grant.Dispatch.{token_refused, grant_types}
use oauth_2_0_and_open_id_co.Base.{refl, false, ◌≡◌, Has}
use oauth_2_0_and_open_id_co.Server.{validate_client, World}
use oauth_2_0_and_open_id_co.Grant.{TokenRequest}
use oauth_2_0_and_open_id_co.External.{External}
use oauth_2_0_and_open_id_co.Service.{to_token_error, process_token}
use oauth_2_0_and_open_id_co.Errors.{as_oauth, token}

-- A client that is not registered, or a wrong secret, is answered with the status 401 and the code
-- invalid_client, for each of the four grant types, and nothing changes.
pub process_token_refused :
    (ext : External) (req : TokenRequest) (w : World)
    → Has req.grant_type grant_types
    → validate_client w.server req.client_id req.client_secret ≡ false
    → process_token ext req w ≡ (
      err (
          token (record {
            code = "invalid_client";
            description = "authentication failed";
            http_status = 401;
          })),
      w,
    )
unfolding process_token to_token_error as_oauth
process_token_refused ext req w known h = rw (token_refused ext req w known h) refl
