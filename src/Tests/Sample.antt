-- ===== src/Tests/Sample.antt =====
-- A small installation for the tests: one client, one user, a clock that ticks once a second, a
-- random source that numbers its draws, and a signer that writes one text.
use oauth_2_0_and_open_id_co.Errors.{plain}
use oauth_2_0_and_open_id_co.Action.{err, ok}
use oauth_2_0_and_open_id_co.Dict
use oauth_2_0_and_open_id_co.Time.{hour, second}
use oauth_2_0_and_open_id_co.Base.{some, none, ◌==◌, false, if◌then◌else◌, [], ◌∷◌, ◌*◌}
use oauth_2_0_and_open_id_co.Store
use oauth_2_0_and_open_id_co.Generator.{TokenGenerator}
use oauth_2_0_and_open_id_co.External.{failure, External, PrivateKey, value}
use oauth_2_0_and_open_id_co.Server.{Server, World}
use oauth_2_0_and_open_id_co.Authorize.{AuthorizeRequest}
use oauth_2_0_and_open_id_co.Grant.{TokenRequest}

abbrev pub ext : External
ext = record {
  now = λ n. n * second;
  rand_read = λ n k. value (n ∷ k ∷ 0 ∷ []);
  sum256 = λ b. b;
  quote = λ s. s;
  signed_string = λ t k. value "jwt";
  parse = λ t m k s. if s == "jwt" then value Dict.empty else failure "bad";
  compare_hash_and_password = λ h p. h == p;
}

abbrev pub key : PrivateKey
key = record { public_key = record { modulus = 33; exponent = 3 }; private_exponent = 7 }

abbrev pub generator : TokenGenerator
generator = record {
  issuer = "http://localhost:9096";
  private_key = key;
  key_id = "k1";
  signing_method = "RS256";
  access_expiry = 2 * hour;
  id_token_expiry = 1 * hour;
  refresh_expiry = 24 * hour;
}

abbrev pub client : Store.Client
client = record {
  id = "app";
  secret = "s3cret";
  redirect_uris = "https://app/cb" ∷ [];
  scopes = "openid" ∷ "email" ∷ "read" ∷ [];
  allowed_grant_types =
      "authorization_code" ∷ "refresh_token" ∷ "password" ∷ "client_credentials" ∷ [];
}

-- The code that the sample exchanges; its challenge is that of the verifier "v".
abbrev pub code : Store.AuthorizationCode
code = record {
  code = "c1";
  client_id = "app";
  user_id = "1";
  redirect_uri = "https://app/cb";
  scope = "openid read";
  nonce = "n";
  response_type = "code";
  code_challenge = "dg";
  code_challenge_method = "S256";
  auth_time = 0;
  expires_at = 60 * second;
}

abbrev pub access : Store.TokenInfo
access = record {
  access_token = "old";
  token_type = "Bearer";
  refresh_token = "";
  scope = "openid read";
  user_id = "1";
  client_id = "app";
  expires_at = 2 * hour;
}

abbrev pub refresh : Store.TokenInfo
refresh = record {
  access_token = "old";
  token_type = "Bearer";
  refresh_token = "r1";
  scope = "openid read";
  user_id = "1";
  client_id = "app";
  expires_at = 24 * hour;
}

-- A token of another client.
abbrev pub other : Store.TokenInfo
other = record access { access_token = "theirs"; client_id = "web" }

abbrev pub server : Server
server = record {
  clients = record { clients = record { entries = ("app", client) ∷ [] } };
  auth_codes = record { codes = record { entries = ("c1", code) ∷ [] }; stopped = false };
  tokens = record {
    access_tokens = record { entries = ("old", access) ∷ ("theirs", other) ∷ [] };
    refresh_tokens = record { entries = ("r1", refresh) ∷ [] };
    stopped = false;
  };
  generator = generator;
  user_store = none;
  password_auth_func =
      some (λ c u p. if p == "pw" then ok "1" else err (plain "invalid credentials"));
}

abbrev pub world : World
world = record { server = server; clock = 5; draws = 0 }

abbrev pub authorize_req : AuthorizeRequest
authorize_req = record {
  response_type = "code";
  client_id = "app";
  redirect_uri = "https://app/cb";
  scope = "openid read";
  state = "xyz";
  nonce = "n";
  code_challenge = "dg";
  code_challenge_method = "S256";
  user_id = "1";
  auth_time = 0;
}

abbrev pub token_req : TokenRequest
token_req = record {
  grant_type = "authorization_code";
  client_id = "app";
  client_secret = "s3cret";
  code = "c1";
  redirect_uri = "https://app/cb";
  scope = "";
  username = "admin";
  password = "pw";
  refresh_token = "r1";
  code_verifier = "v";
}
