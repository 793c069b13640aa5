-- ===== src/Handler/Session.antt =====
-- internal/handler/login.go and auth.go.
use oauth_2_0_and_open_id_co.Errors.{error_text}
use oauth_2_0_and_open_id_co.Handler.{read_session_data}
use oauth_2_0_and_open_id_co.Service.{authenticate}
use oauth_2_0_and_open_id_co.Time.{unix}
use oauth_2_0_and_open_id_co.Action.{err, ok, Result}
use oauth_2_0_and_open_id_co.Service.Session.{
  get_login_redirect, get_login_status, process_auth_decision, SessionData,
}
use oauth_2_0_and_open_id_co.Model.{UserStore}
use oauth_2_0_and_open_id_co.Uri.{get_value, ParseUri}
use oauth_2_0_and_open_id_co.External.{External}
use oauth_2_0_and_open_id_co.Dict.{Dict}
use oauth_2_0_and_open_id_co.Http.{
  AuthDecisionRequest, LoginRequest, Answer, str, auth_context_body, login_status_body,
  redirect_body, json, int64, Method, Visit, HttpRequest, SessionValue, error_json, Response,
}
use oauth_2_0_and_open_id_co.Base.{
  suc, not, false, ◌||◌, none, true, ◌==◌, ℕ, if◌then◌else◌, some, Option, Bool, String,
}
use oauth_2_0_and_open_id_co.Dict

-- c.ShouldBindJSON, where both fields are required
unfoldable pub bind_login : Option LoginRequest → Option LoginRequest
bind_login none = none
bind_login (some req) = if (req.username == "") || (req.password == "") then none else some req

abbrev pub session_error : Response
session_error = error_json 500 "server_error" "session error"

-- The session after a login.
unfoldable pub logged_in : Dict SessionValue → String → String → ℕ → Dict SessionValue
logged_in sess user_id username now =
    Dict.put
      (Dict.put (Dict.put sess "LoggedInUserID" (str user_id)) "LoggedInUsername" (str username))
      "AuthTime" (int64 now)

abbrev pub is_get : Method → Bool
is_get Method.get = true
is_get Method.post = false
is_get Method.options = false

module _ (ext : External) (users : UserStore) where
  unfoldable pub login_user : LoginRequest → Visit → Option String → Answer
  login_user req v none = (error_json 401 "invalid_credentials" "Invalid username or password", v)
  login_user req v (some user_id) =
      let sess = logged_in v.session user_id req.username (unix (ext.now v.world.clock)) in
      (
        json 200 (redirect_body (get_login_redirect (read_session_data sess))),
        record { world = record v.world { clock = suc v.world.clock }; session = sess },
      )

  unfoldable pub login_bound : Option LoginRequest → Visit → Answer
  login_bound none v = (error_json 400 "invalid_request" "username and password required", v)
  login_bound (some req) v = login_user req v (authenticate ext users req.username req.password)

  -- Handler.Login
  unfoldable pub login_handler : HttpRequest → Visit → Answer
  login_handler r v =
      let status = get_login_status (read_session_data v.session) in
      if not r.starts
      then (session_error, v)
      else if is_get r.method
      then (json 200 (login_status_body status.0 (if status.0 then status.1 else "")), v)
      else login_bound (bind_login r.login_json) v

module _ (parse : ParseUri) where
  unfoldable pub decision_response : Result String → Response
  decision_response (ok uri) = json 200 (redirect_body uri)
  decision_response (err e) = error_json 400 "invalid_request" (error_text e)

  unfoldable pub decide : SessionData → Option AuthDecisionRequest → Response
  decide session none = error_json 400 "invalid_request" "invalid request body"
  decide session (some req) =
      decision_response (process_auth_decision parse session req.authorize req.deny)

  -- Handler.Auth
  unfoldable pub auth_handler : HttpRequest → Visit → Answer
  auth_handler r v =
      let session = read_session_data v.session in
      if not r.starts
      then (session_error, v)
      else if session.logged_in_user_id == ""
      then (error_json 401 "unauthorized" "Not logged in", v)
      else if is_get r.method
      then (
        json 200 (
            auth_context_body session.logged_in_user_id (get_value r.query "client_id")
              (get_value r.query "scope")),
        v,
      )
      else (decide session r.decision_json, v)
