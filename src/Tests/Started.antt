-- ===== src/Tests/Started.antt =====
-- The theorems on a started server, at one that answers an authorization request and a login.
use oauth_2_0_and_open_id_co.Service.Session.{get_login_redirect}
use oauth_2_0_and_open_id_co.Handler.Session.{
  logged_in, bind_login, login_user, login_bound, login_handler,
}
use oauth_2_0_and_open_id_co.Model
use oauth_2_0_and_open_id_co.Store
use oauth_2_0_and_open_id_co.Service.{
  process_token, check_password, authenticate, setup_password_auth,
}
use oauth_2_0_and_open_id_co.Pkce.{s256}
use oauth_2_0_and_open_id_co.Generator.{new_token_generator}
use oauth_2_0_and_open_id_co.Middleware.{cors, rate_limit}
use oauth_2_0_and_open_id_co.Oidc.{AppConfig, default_app_config, compute_key_id}
use oauth_2_0_and_open_id_co.System.Sessions.{serve_request-IsSameUser, IsSameUser}
use oauth_2_0_and_open_id_co.Handler.Authorize.Login.{user_of}
use oauth_2_0_and_open_id_co.Store.{TokenInfo, AuthorizationCode}
use oauth_2_0_and_open_id_co.Router.{limited, find_route, run_route, run_found, serve_request}
use oauth_2_0_and_open_id_co.Time.{minute}
use oauth_2_0_and_open_id_co.System.Started.{Reach-verified, Reach-IsSound, first}
use oauth_2_0_and_open_id_co.Server.{
  server_for, set_password_auth_handler, register_client, new_server, World,
}
use oauth_2_0_and_open_id_co.Base.{◌≢◌, some, refl, ◌≡◌, ◌*◌, [], none, ◌∷◌}
use oauth_2_0_and_open_id_co.External.{value, failure}
use oauth_2_0_and_open_id_co.Action.{ok, Result}
use oauth_2_0_and_open_id_co.Grant.{grant_authorization_code, TokenResponse, TokenRequest}
use oauth_2_0_and_open_id_co.System.Codes.{HasSoundCodes}
use oauth_2_0_and_open_id_co.System.Tokens.{Reach-HasSoundTokens}
use oauth_2_0_and_open_id_co.Handler.Token.{token_handler, run_token, token_request}
use oauth_2_0_and_open_id_co.Tokens.Sound.{HasSoundTokens}
use oauth_2_0_and_open_id_co.System.{Step, after_request, Reach}
use oauth_2_0_and_open_id_co.Limiter.{allow, allow_visitor, new_rate_limiter, RateLimiter}
use oauth_2_0_and_open_id_co.Dict.{Dict}
use oauth_2_0_and_open_id_co.Http.{
  text_body, json, bare, Visit, Method, str, SessionValue, HttpRequest,
}
use oauth_2_0_and_open_id_co.Startup.{
  started_on, configured, with_key, private_key, start_with, start, Started, Platform,
}
use oauth_2_0_and_open_id_co.Dict
use oauth_2_0_and_open_id_co.Tests.Sample.{ext, key}
use oauth_2_0_and_open_id_co.Tests.Handlers.{handling, authorize_get, printing}

abbrev platform : Platform
platform = record {
  getenv = λ name. "";
  read_file = λ path. failure "no file";
  pem_decode = λ b. none;
  parse_pkcs1 = λ b. failure "no key";
  parse_pkcs8 = λ b. failure "no key";
  generate_key = value key;
  thumbprint = λ jwk. value (1 ∷ 2 ∷ 3 ∷ []);
  hash = λ password. password;
  web = record {
    swagger = λ path. bare 200;
    static = λ dir path. bare 200;
    file = λ name. json 200 (text_body name);
    not_found = bare 404;
  };
}

abbrev config : AppConfig
config = with_key platform (configured platform) key

abbrev started : Started
started =
    started_on ext platform config
      (server_for config (some (Model.new_user_store platform.hash)) key)

start_run : start ext platform ≡ ok started
unfolding start private_key configured start_with new_server with_key
start_run = refl

-- The authorization request of a demonstration client.
abbrev demo_get : HttpRequest
demo_get = record authorize_get {
  query = record {
    entries =
        ("response_type", "code" ∷ [])
        ∷ ("client_id", "000000" ∷ [])
        ∷ ("redirect_uri", "http://localhost:9094" ∷ [])
        ∷ ("scope", "openid" ∷ [])
        ∷ ("code_challenge", "dg" ∷ [])
        ∷ ("code_challenge_method", "S256" ∷ [])
        ∷ [];
  };
}

abbrev logged_in_session : Dict SessionValue
logged_in_session = record { entries = ("LoggedInUserID", str "1") ∷ [] }

abbrev idle : RateLimiter
idle = new_rate_limiter 10 (1 * minute)

-- The server after the request.
abbrev authorized_world : World
authorized_world =
    after_request ext printing started.site demo_get logged_in_session idle (first started 0 0)

reached : Reach ext printing started.site (first started 0 0) authorized_world
reached = Reach.next Reach.here (Step.served demo_get logged_in_session idle refl)

Reach-IsSound_example : HasSoundCodes authorized_world.auth_codes authorized_world.clients
Reach-IsSound_example =
    Reach-IsSound ext platform printing started 0 0 authorized_world start_run reached

-- The token request for the code that was issued.
abbrev demo_post : HttpRequest
demo_post = record demo_get {
  method = Method.post;
  path = "/oauth/token";
  query = record { entries = [] };
  form = record {
    entries =
        ("grant_type", "authorization_code" ∷ [])
        ∷ ("client_id", "000000" ∷ [])
        ∷ ("client_secret", "999999" ∷ [])
        ∷ ("redirect_uri", "http://localhost:9094" ∷ [])
        ∷ ("code", "ABgA" ∷ [])
        ∷ ("code_verifier", "v" ∷ [])
        ∷ [];
  };
}

-- The server after that.
abbrev token_world : World
token_world =
    after_request ext printing started.site demo_post logged_in_session idle authorized_world

Reach-HasSoundTokens_example : HasSoundTokens token_world.tokens token_world.clients
Reach-HasSoundTokens_example =
    Reach-HasSoundTokens ext platform printing started 0 0 token_world start_run
      (Reach.next reached (Step.served demo_post logged_in_session idle refl))

abbrev demo_token : TokenRequest
demo_token = record {
  grant_type = "authorization_code";
  client_id = "000000";
  client_secret = "999999";
  code = "ABgA";
  redirect_uri = "http://localhost:9094";
  scope = "";
  username = "";
  password = "";
  refresh_token = "";
  code_verifier = "v";
}

abbrev exchanged : Result TokenResponse × World
exchanged = grant_authorization_code ext demo_token authorized_world

abbrev demo_answer : TokenResponse
demo_answer = record {
  access_token = "jwt";
  token_type = "Bearer";
  expires_in = 7200;
  refresh_token = "ASAA";
  scope = "openid";
  id_token = "jwt";
}

serving_all : Unit {0}
unfolding handling serve_request cors run_found run_route find_route start_with with_key configured
    new_server new_token_generator register_client setup_password_auth set_password_auth_handler
    compute_key_id default_app_config Store.new_auth_code_store Store.new_token_store
    Store.new_client_store Store.set Model.get_by_id Model.new_user_store Model.set new_rate_limiter
    login_handler login_bound login_user bind_login logged_in get_login_redirect authenticate
    check_password Model.get_by_username
serving_all = tt

-- It has issued a token.
token_is_issued : (info : TokenInfo) × (Dict.get token_world.tokens.access_tokens "jwt" ≡ some info)
unfolding serving_all limited rate_limit allow allow_visitor token_handler run_token process_token
    token_request
token_is_issued = (_, refl)

exchange_run : exchanged ≡ (ok demo_answer, exchanged.1)
unfolding serving_all
exchange_run = refl

Reach-verified_example :
    (code : AuthorizationCode) × (Dict.get authorized_world.auth_codes.codes "ABgA" ≡ some code)
    × (code.code_challenge ≢ "")
    × (s256 ext.sum256 "v" ≡ code.code_challenge)
Reach-verified_example =
    Reach-verified ext platform printing started 0 0 authorized_world exchanged.1 demo_token
      demo_answer start_run reached exchange_run

-- A login of the demonstration user.
abbrev login_post : HttpRequest
login_post = record authorize_get {
  method = Method.post;
  path = "/api/login";
  login_json = some (record { username = "admin"; password = "admin" });
}

abbrev fresh_visit : Visit
fresh_visit = record { world = first started 0 0; session = record { entries = [] } }

abbrev after_login : Visit
after_login = (serve_request ext printing started.site login_post (idle, fresh_visit)).1.1

login_run : user_of after_login ≡ "1"
unfolding serving_all
login_run = refl

serve_request-IsSameUser_example :
    IsSameUser ext printing started.site login_post fresh_visit after_login
serve_request-IsSameUser_example =
    serve_request-IsSameUser ext printing started.site login_post (idle, fresh_visit)
