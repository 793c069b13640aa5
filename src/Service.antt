-- ===== src/Service.antt =====
-- internal/service: the token, user info and login services, and the password function that
-- `SetupPasswordAuth` of internal/handler/revoke.go installs.
use Prim.Native.Char.{code}
use mathlib.Core.Logic.{ite}
use native.Mathlib.Decide.{ℕ_discrete}
use text.Mathlib.Text.{starts_with}
use oauth_2_0_and_open_id_co.Action.{pure, or_fail, check, ◌>>=◌, ◌>>◌}
use oauth_2_0_and_open_id_co.Grant.{token as run_token}
use oauth_2_0_and_open_id_co.Bearer.{validate_bearer_token}
use oauth_2_0_and_open_id_co.Scope.{contains_scope}
use oauth_2_0_and_open_id_co.Server.{set_password_auth_handler, Server, World}
use oauth_2_0_and_open_id_co.Model
use oauth_2_0_and_open_id_co.Model.{UserStore, User}
use oauth_2_0_and_open_id_co.Grant.{TokenRequest, TokenResponse}
use oauth_2_0_and_open_id_co.External.{External}
use oauth_2_0_and_open_id_co.Store.{TokenInfo}
use oauth_2_0_and_open_id_co.Action.{err, Action, ok, Result}
use oauth_2_0_and_open_id_co.Errors.{
  token, as_oauth, error_text, plain, TokenError, OAuthError, Error,
}
use oauth_2_0_and_open_id_co.Base.{
  Char, ◌||◌, not, concat, none, some, false, [], ◌==◌, Option, ◌∷◌, Bool, if◌then◌else◌, List,
  String,
}
pub mod UserInfo
pub mod Login
pub mod Errors
pub mod Session

abbrev colon : Char
colon = ":"

-- strings.SplitN(s, ":", 2)[0]
before_colon : String → String
before_colon String.[] = String.[]
before_colon (String.◌∷◌ c s) =
    let rest = before_colon s in ite (ℕ_discrete (code c) (code colon)) "" (String.◌∷◌ c rest)

-- strings.Contains(s, part)
has_part : String → String → Bool
has_part String.[] part = part == ""
has_part (String.◌∷◌ c s) part = starts_with (String.◌∷◌ c s) part || has_part s part

first_part : String → List String → String
unfolding has_part
first_part text [] = "invalid_request"
first_part text (name ∷ names) = if has_part text name then name else first_part text names

-- The codes that ExtractOAuthError looks for, in its order.
abbrev known_codes : List String
known_codes =
    "invalid_client" ∷ "invalid_grant" ∷ "invalid_request" ∷ "invalid_scope"
    ∷ "unsupported_grant_type" ∷ "unsupported_response_type" ∷ "unauthorized_client" ∷ []

unfoldable pub extract_oauth_error : String → String
unfolding before_colon first_part
extract_oauth_error msg = first_part (before_colon msg) known_codes

-- The error that ProcessToken makes of an OAuth error, or of any other.
unfoldable pub to_token_error : Error → Option OAuthError → TokenError
to_token_error e (some oauth_error) = record {
  code = oauth_error.code;
  description = oauth_error.description;
  http_status = if oauth_error.code == "invalid_client" then 401 else 400;
}
to_token_error e none = record {
  code = extract_oauth_error (error_text e);
  description = error_text e;
  http_status = 400;
}

abbrev pub token_result : Result TokenResponse → Result TokenResponse
token_result (ok resp) = ok resp
token_result (err e) = err (token (to_token_error e (as_oauth e)))

abbrev pub bearer_result : Result TokenInfo → Result TokenInfo
bearer_result (ok info) = ok info
bearer_result (err e) = err (plain (concat ("invalid_token: " ∷ error_text e ∷ [])))

pub record UserInfoResponse : Type 0 where
  pub sub : String
  pub name : String
  pub email : String
  pub email_verified : Bool

-- The claims of a user for the scopes of a token.
unfoldable pub user_info : TokenInfo → User → UserInfoResponse
user_info info user =
    let base : UserInfoResponse = record {
      sub = info.user_id;
      name = "";
      email = "";
      email_verified = false;
    } in
    let named : UserInfoResponse =
      if contains_scope info.scope "profile" then record base { name = user.name } else base in
    if contains_scope info.scope "email"
    then record named { email = user.email; email_verified = not (user.email == "") }
    else named

module _ (ext : External) where
  -- TokenService.ProcessToken
  unfoldable pub process_token : TokenRequest → Action World TokenResponse
  process_token req w = (token_result (run_token ext req w).0, (run_token ext req w).1)

  -- TokenService.ValidateBearer
  unfoldable pub validate_bearer : String → Action World TokenInfo
  validate_bearer header w =
      (bearer_result (validate_bearer_token ext header w).0, (validate_bearer_token ext header w).1)

  -- UserInfoService.GetUserInfo
  unfoldable pub get_user_info : UserStore → String → Action World UserInfoResponse
  get_user_info users header = do
    info ← validate_bearer header
    check (contains_scope info.scope "openid") (
        plain
          "invalid_scope: openid scope is required for UserInfo endpoint per OIDC Core 1.0 §5.1")
    user ← or_fail (plain "user_not_found: user not found") (Model.get_by_id users info.user_id)
    pure (user_info info user)

  -- The user's id, if the hash of the stored password is that of the given one.
  unfoldable pub check_password : Option User → String → Option String
  check_password none password = none
  check_password (some user) password =
      if ext.compare_hash_and_password user.password password then some user.id else none

  -- AuthService.Authenticate
  unfoldable pub authenticate : UserStore → String → String → Option String
  authenticate users username password =
      check_password (Model.get_by_username users username) password

  abbrev pub credentials_result : Option String → Result String
  credentials_result none = err (plain "invalid credentials")
  credentials_result (some user_id) = ok user_id

  -- SetupPasswordAuth
  unfoldable pub setup_password_auth : UserStore → Server → Server
  setup_password_auth users s =
      set_password_auth_handler s
        (λ client_id username password. credentials_result (authenticate users username password))
