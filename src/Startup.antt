-- ===== src/Startup.antt =====
-- cmd/server/main.go: the configuration, the key and the server that serves. The environment, files,
-- PEM, the x509 parsers and the generator of keys are parameters.
pub mod Keys
use oauth_2_0_and_open_id_co.Limiter.{new_rate_limiter, RateLimiter}
use oauth_2_0_and_open_id_co.Service.{setup_password_auth}
use oauth_2_0_and_open_id_co.Generator.{new_token_generator}
use oauth_2_0_and_open_id_co.Errors.{plain}
use oauth_2_0_and_open_id_co.Model.{new_user_store}
use oauth_2_0_and_open_id_co.Action.{ok, err, Result}
use oauth_2_0_and_open_id_co.Router.{WebFiles, default_config, Site}
use oauth_2_0_and_open_id_co.Server.{new_server, register_client, Server}
use oauth_2_0_and_open_id_co.Encoding.{bytes, Bytes}
use oauth_2_0_and_open_id_co.Oidc.{compute_key_id, Jwk, default_app_config, AppConfig}
use oauth_2_0_and_open_id_co.External.{failure, value, result_of, PrivateKey, External, Reply}
use oauth_2_0_and_open_id_co.Base.{
  none, concat, not, ◌||◌, [], if◌then◌else◌, Bool, some, ◌==◌, ◌∷◌, ℕ, List, Option, String,
}

-- What the start calls of other packages.
pub record Platform : Type 0 where
  -- os.Getenv
  pub getenv : String → String
  -- os.ReadFile
  pub read_file : String → Reply Bytes
  -- the bytes of the first block that pem.Decode finds
  pub pem_decode : Bytes → Option Bytes
  -- x509.ParsePKCS1PrivateKey
  pub parse_pkcs1 : Bytes → Reply PrivateKey
  -- x509.ParsePKCS8PrivateKey, none for a key that is not an RSA key
  pub parse_pkcs8 : Bytes → Reply (Option PrivateKey)
  -- rsa.GenerateKey(rand.Reader, 2048)
  pub generate_key : Reply PrivateKey
  -- jwk.Thumbprint(crypto.SHA256)
  pub thumbprint : Jwk → Reply Bytes
  -- bcrypt.GenerateFromPassword at the default cost
  pub hash : String → String
  -- the handlers of gin and of swagger
  pub web : WebFiles

unfoldable pub rsa_key_of : Reply (Option PrivateKey) → Result PrivateKey
rsa_key_of (value (some key)) = ok key
rsa_key_of (value none) = err (plain "PKCS8 key is not RSA")
rsa_key_of (failure e) =
    err (plain (concat ("failed to parse RSA key (tried PKCS1 and PKCS8): " ∷ e ∷ [])))

unfoldable pub parse_key : Reply PrivateKey → Reply (Option PrivateKey) → Result PrivateKey
parse_key (value key) second = ok key
parse_key (failure e) second = rsa_key_of second

module _ (p : Platform) where
  abbrev pub parse_block : Option Bytes → Result PrivateKey
  parse_block none = err (plain "failed to decode PEM block")
  parse_block (some block) = parse_key (p.parse_pkcs1 block) (p.parse_pkcs8 block)

  abbrev pub parse_file : Reply Bytes → Result PrivateKey
  parse_file (failure e) = err (plain e)
  parse_file (value data_of) = parse_block (p.pem_decode data_of)

  -- loadRSAKeyFromFile
  unfoldable pub load_rsa_key_from_file : String → Result PrivateKey
  load_rsa_key_from_file path = parse_file (p.read_file path)

  -- The configuration that the environment asks for, before the key is there.
  unfoldable pub configured : AppConfig
  configured =
      let secure = p.getenv "OAUTH_SECURE_COOKIE" in
      let key_path = p.getenv "OAUTH_RSA_KEY_PATH" in
      record default_app_config {
        secure_cookie = (secure == "true") || (secure == "1");
        rsa_key_path = key_path;
      }

  -- The key of the file, or a new one; the error that log.Fatalf reports before the program ends.
  unfoldable pub private_key : AppConfig → Result PrivateKey
  private_key config =
      if not (config.rsa_key_path == "")
      then load_rsa_key_from_file config.rsa_key_path
      else result_of p.generate_key

  unfoldable pub with_key : AppConfig → PrivateKey → AppConfig
  with_key config key =
      let keyed = record config {
        rsa_private_key = some key;
        rsa_public_key = some key.public_key;
      } in
      record keyed { key_id = compute_key_id p.thumbprint keyed.rsa_public_key }

-- http.SameSite
pub data SameSite : Type 0 where
  lax strict : SameSite

-- The options of session.InitManager.
pub record SessionOptions : Type 0 where
  pub sign : Bytes
  pub cookie_name : String
  pub cookie_life_time : ℕ
  pub secure : Bool
  pub same_site : SameSite

unfoldable pub session_options : Platform → AppConfig → SessionOptions
session_options p config =
    let secret = p.getenv "OAUTH_SESSION_SECRET" in
    record {
      sign = bytes (if secret == "" then "oauth2-session-secret" else secret);
      cookie_name = "oauth2_session";
      cookie_life_time = 3600;
      secure = config.secure_cookie;
      same_site = if config.secure_cookie then strict else lax;
    }

abbrev pub all_grants : List String
all_grants = "authorization_code" ∷ "password" ∷ "client_credentials" ∷ "refresh_token" ∷ []

abbrev pub register_demo : Server → String → String → Server
register_demo s id secret =
    register_client s id secret ("http://localhost:9094" ∷ []) ("openid" ∷ "profile" ∷ "email" ∷ [])
      all_grants

-- docs.SwaggerInfo, as main fills it in.
pub record SwaggerInfo : Type 0 where
  pub title : String
  pub description : String
  pub version : String
  pub host : String
  pub base_path : String
  pub schemes : List String

abbrev pub swagger_info : SwaggerInfo
swagger_info = record {
  title = "OAuth 2.0 + OpenID Connect Server";
  description =
      "Go implementation of OAuth 2.0 Authorization Server and OpenID Connect 1.0 Provider.\nSupports authorization code (with PKCE), password, client_credentials, and refresh_token grants per OAuth 2.1.\nImplicit and hybrid flows are removed per OAuth 2.1 security recommendations.\nIssues JWT access tokens and ID tokens signed with RS256. Provides JWKS and OIDC Discovery endpoints.";
  version = "1.0";
  host = "localhost:9096";
  base_path = "/";
  schemes = "http" ∷ [];
}

-- What serves: the documentation, the site of the handlers, the server behind them, the rate limiter of
-- the token route, and the session manager's options.
pub record Started : Type 0 where
  pub docs : SwaggerInfo
  pub site : Site
  pub server : Server
  pub limiter : RateLimiter
  pub options : SessionOptions

module _ (ext : External) (p : Platform) where
  -- The rest of main, with the server that NewServer made.
  abbrev pub started_on : AppConfig → Server → Started
  started_on config fresh =
      let users = new_user_store p.hash in
      let with_clients =
        register_demo (register_demo fresh "000000" "999999") "111111" "11111111" in
      record {
        docs = swagger_info;
        site = record {
          web = p.web;
          web_dist_dir = default_config.web_dist_dir;
          config = config;
          jwks_builder = record { public_key = config.rsa_public_key; key_id = config.key_id };
          users = users;
        };
        server = setup_password_auth ext users with_clients;
        limiter = new_rate_limiter default_config.token_rate_limit default_config.token_rate_window;
        options = session_options p config;
      }

  abbrev started_on_new : AppConfig → Option Server → Option Started
  started_on_new config none = none
  started_on_new config (some fresh) = some (started_on config fresh)

  -- None where NewServer gets no private key.
  unfoldable pub start_with : AppConfig → Option Started
  start_with config = started_on_new config (new_server config (some (new_user_store p.hash)))

  -- main has set the key, so that the first case does not occur.
  abbrev pub started_result : Option Started → Result Started
  started_result none =
      err (plain "runtime error: invalid memory address or nil pointer dereference")
  started_result (some st) = ok st

  abbrev pub start_keyed : AppConfig → Result PrivateKey → Result Started
  start_keyed config (err e) = err e
  start_keyed config (ok key) = started_result (start_with (with_key p config key))

  -- main, up to the call that serves
  unfoldable pub start : Result Started
  start = start_keyed (configured p) (private_key p (configured p))
