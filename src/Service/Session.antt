-- ===== src/Service/Session.antt =====
-- The decisions of internal/service/auth_service.go on a session. Parsing and printing a URI, with
-- net/url, is a parameter.
use oauth_2_0_and_open_id_co.Uri.{
  get_value-set_value, get_value-set_nonempty, get_value, set_nonempty, Parsed, set_value, ParseUri,
  Query,
}
use oauth_2_0_and_open_id_co.Errors.{plain}
use oauth_2_0_and_open_id_co.Action.{err, ok, Result}
use oauth_2_0_and_open_id_co.Base.{
  eq_iff, ◌≢◌, refl, arith, false, true, ◌≡◌, none, [], not, ◌==◌, some, ◌∷◌, if◌then◌else◌, ℕ,
  Option, List, Bool, String,
}

pub record SessionData : Type 0 where
  pub logged_in_user_id : String
  pub logged_in_username : String
  pub return_uri : String
  pub auth_time : ℕ

abbrev pub or_default : String → String → String
or_default uri default = if uri == "" then default else uri

-- AuthService.GetLoginStatus
unfoldable pub get_login_status : SessionData → Bool × String
get_login_status session =
    if not (session.logged_in_user_id == "")
    then (true, or_default session.return_uri "/auth")
    else (false, "")

-- AuthService.GetLoginRedirect
unfoldable pub get_login_redirect : SessionData → String
get_login_redirect session = if not (session.return_uri == "") then session.return_uri else "/auth"

-- AuthService.GetAuthorizeSessionCheck: the user, and whether a login is needed
unfoldable pub get_authorize_session_check : SessionData → String × Bool
get_authorize_session_check session =
    if session.logged_in_user_id == "" then ("", true) else (session.logged_in_user_id, false)

-- AuthService.ProcessLogout: the keys that are deleted from the session
abbrev pub process_logout : List String
process_logout = "LoggedInUserID" ∷ "LoggedInUsername" ∷ "ReturnURI" ∷ "Nonce" ∷ []

-- The query of a refused request.
unfoldable pub denied : Query → Query
denied q =
    set_value (set_value q "error" "access_denied") "error_description"
      "The resource owner denied the request"

-- if state := q.Get("state"); state != "" { q.Set("state", state) }
unfoldable pub with_state : Query → Query
with_state q = set_nonempty q "state" (get_value q "state")

abbrev pub or_login : (Query → Query) → Option Parsed → String
or_login change none = "/login"
or_login change (some uri) = uri.render (change uri.query)

-- AuthService.ProcessAuthDecision
unfoldable pub process_auth_decision : ParseUri → SessionData → Bool → Bool → Result String
process_auth_decision parse session authorized deny =
    if deny
    then ok (
        if session.return_uri == ""
        then "/login"
        else or_login (λ q. with_state (denied q)) (parse session.return_uri))
    else if authorized
    then ok (or_default session.return_uri "/auth")
    else err (plain "must specify authorize or deny")

-- BuildDenyRedirect
unfoldable pub build_deny_redirect : ParseUri → String → String
build_deny_redirect parse return_uri =
    if return_uri == "" then "/login" else or_login denied (parse return_uri)

-- A refused request keeps its parameters.
pub get_value-denied :
    (q : Query) (k : String)
    → k ≢ "error"
    → k ≢ "error_description"
    → get_value (with_state (denied q)) k ≡ get_value q k
unfolding with_state denied
get_value-denied q k n m =
    let first = set_value q "error" "access_denied" in
    let second = set_value first "error_description" "The resource owner denied the request" in
    ground (
      arith,
      n,
      m,
      get_value-set_nonempty second "state" k (get_value second "state"),
      get_value-set_value first "error_description" k "The resource owner denied the request",
      get_value-set_value q "error" k "access_denied",
      eq_iff "state" k,
      eq_iff "error_description" k,
      eq_iff "error" k,
    )

pub get_value-denied_error :
    (q : Query) → get_value (with_state (denied q)) "error" ≡ "access_denied"
unfolding with_state denied
get_value-denied_error q =
    let first = set_value q "error" "access_denied" in
    let second = set_value first "error_description" "The resource owner denied the request" in
    ground (
      arith,
      get_value-set_nonempty second "state" "error" (get_value second "state"),
      get_value-set_value first "error_description" "error" "The resource owner denied the request",
      get_value-set_value q "error" "error" "access_denied",
    )

-- A refusal does not depend on what else the form says, and, where the URI's query has no state, it
-- leads to the URI that BuildDenyRedirect builds.
pub process_auth_decision-deny :
    (parse : ParseUri) (session : SessionData) (uri : Parsed) (authorized : Bool)
    → parse session.return_uri ≡ some uri
    → get_value uri.query "state" ≡ ""
    → process_auth_decision parse session authorized true
      ≡ ok (build_deny_redirect parse session.return_uri)
unfolding process_auth_decision build_deny_redirect with_state set_nonempty denied
process_auth_decision-deny parse session uri authorized parsed stateless =
    let first = get_value-set_value uri.query "error" "state" "access_denied" in
    let second =
      get_value-set_value (set_value uri.query "error" "access_denied") "error_description" "state"
        "The resource owner denied the request" in
    rw parsed (rw (second, first, stateless) refl)

-- A session is logged in exactly when the authorization endpoint needs no login, and then the login
-- page leads on as after a login.
pub get_login_status_iff :
    (session : SessionData)
    → ((get_login_status session).0 ≡ not (get_authorize_session_check session).1)
      × ((get_login_status session).1
          ≡ (if (get_authorize_session_check session).1 then "" else get_login_redirect session))
unfolding get_login_status get_authorize_session_check get_login_redirect
get_login_status_iff session = ground arith
