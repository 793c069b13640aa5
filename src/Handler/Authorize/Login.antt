-- ===== src/Handler/Authorize/Login.antt =====
-- The authorization handler and the session: the way to the login, and from a refusal of consent.
use oauth_2_0_and_open_id_co.Handler.Session.{is_get, decision_response, decide, auth_handler}
use oauth_2_0_and_open_id_co.Service.Session.{
  get_value-denied_error, process_auth_decision, get_value-denied, denied, SessionData, with_state,
  get_authorize_session_check,
}
use oauth_2_0_and_open_id_co.Dict
use oauth_2_0_and_open_id_co.Handler.Authorize.{
  authorize_user, authorize_request_of, authorize_handler,
}
use oauth_2_0_and_open_id_co.Handler.{read_session_data, as_string}
use oauth_2_0_and_open_id_co.Uri.{Parsed, get_value, ParseUri}
use oauth_2_0_and_open_id_co.Base.{
  ◌∙◌, some, Bool, ne-of-==, false, refl, ==-of-ne, ◌==◌, ◌≢◌, true, ◌≡◌, String,
}
use oauth_2_0_and_open_id_co.External.{External}
use oauth_2_0_and_open_id_co.Http.{redirect_body, json, str, redirect, HttpRequest, Visit}

-- The user of a session, or "".
abbrev pub user_of : Visit → String
user_of v = as_string (Dict.get v.session "LoggedInUserID")

-- The URI that a session kept for the time after a login and a decision, or "".
abbrev pub return_uri_of : Visit → String
return_uri_of v = as_string (Dict.get v.session "ReturnURI")

module _ (ext : External) (parse : ParseUri) where
  -- Without a login the handler redirects to the login page, remembers the request's URI in the
  -- session for the time after the login, and leaves the server as it is.
  pub authorize_handler_login :
      (r : HttpRequest) (v : Visit)
      → r.starts ≡ true
      → user_of v ≡ ""
      → authorize_handler ext parse r v ≡ (
        redirect "/login",
        record v { session = Dict.put v.session "ReturnURI" (str r.request_uri) },
      )
  unfolding authorize_handler get_authorize_session_check read_session_data
  authorize_handler_login r v starts out = rw (starts, out) refl

  -- What the handler reads of a query, but for the error that a refusal puts there.
  same_request :
      (r r' : HttpRequest) (data_of : SessionData)
      → ((k : String)
          → (k == "error") ≡ false
          → (k == "error_description") ≡ false
          → get_value r.query k ≡ get_value r'.query k)
      → authorize_request_of r data_of ≡ authorize_request_of r' data_of
  unfolding authorize_request_of
  same_request r r' data_of kept =
      rw
        (
          kept "response_type" refl refl,
          kept "client_id" refl refl,
          kept "redirect_uri" refl refl,
          kept "scope" refl refl,
          kept "state" refl refl,
          kept "nonce" refl refl,
          kept "code_challenge" refl refl,
          kept "code_challenge_method" refl refl,
        )
        refl

  logged_in_check :
      (v : Visit)
      → user_of v ≢ ""
      → (get_authorize_session_check (read_session_data v.session)).1 ≡ false
  unfolding get_authorize_session_check read_session_data
  logged_in_check v user = rw (==-of-ne (user_of v) "" user) refl

  answer_same :
      (r r' : HttpRequest) (v : Visit)
      → user_of v ≢ ""
      → r.starts ≡ r'.starts
      → ((k : String)
          → (k == "error") ≡ false
          → (k == "error_description") ≡ false
          → get_value r.query k ≡ get_value r'.query k)
      → authorize_handler ext parse r v ≡ authorize_handler ext parse r' v
  unfolding authorize_handler authorize_user
  answer_same r r' v user starts kept =
      let data_of = read_session_data v.session in
      let checked = get_authorize_session_check data_of in
      rw
        (
          same_request r r' (record data_of { logged_in_user_id = checked.0 }) kept,
          logged_in_check v user,
          starts,
        )
        refl

  -- The handler of the decision answers a refusal with the URI of the request, which the session kept,
  -- with an error in its query.
  auth_handler-denied :
      (decision : HttpRequest) (v : Visit) (uri : Parsed) (authorized : Bool)
      → decision.starts ≡ true
      → is_get decision.method ≡ false
      → decision.decision_json ≡ some (record { authorize = authorized; deny = true })
      → user_of v ≢ ""
      → return_uri_of v ≢ ""
      → parse (return_uri_of v) ≡ some uri
      → auth_handler parse decision v
        ≡ (json 200 (redirect_body (uri.render (with_state (denied uri.query)))), v)
  unfolding auth_handler decide decision_response process_auth_decision read_session_data
  auth_handler-denied decision v uri authorized starts post refuses user kept parsed =
      rw
        (
          starts,
          post,
          refuses,
          ==-of-ne (user_of v) "" user,
          ==-of-ne (return_uri_of v) "" kept,
          parsed,
        )
        refl

  -- A logged-in user who refuses, whatever else the decision says, is led by the handler of the decision
  -- to a URI at which the authorization handler answers as it answers the request that is refused: the
  -- request's own URI, which the session kept, with the error access_denied in its query. session.Start
  -- delivers the session for the decision, the URI that the session kept parses, and the one that is led
  -- to parses to the query of which it was made.
  pub authorize_handler-denied :
      (decision r : HttpRequest) (v : Visit) (uri followed : Parsed) (authorized : Bool)
      → decision.starts ≡ true
      → is_get decision.method ≡ false
      → decision.decision_json ≡ some (record { authorize = authorized; deny = true })
      → user_of v ≢ ""
      → return_uri_of v ≢ ""
      → parse (return_uri_of v) ≡ some uri
      → parse (uri.render (with_state (denied uri.query))) ≡ some followed
      → ((k : String) → get_value followed.query k ≡ get_value (with_state (denied uri.query)) k)
      → (there : String) × (auth_handler parse decision v ≡ (json 200 (redirect_body there), v))
        × (parse there ≡ some followed)
        × (get_value followed.query "error" ≡ "access_denied")
        × (authorize_handler ext parse (record r { query = followed.query; request_uri = there }) v
            ≡ authorize_handler ext parse
                (record r { query = uri.query; request_uri = return_uri_of v })
                v)
  authorize_handler-denied decision r v uri followed authorized starts post refuses user kept parsed
        reparsed same =
      let there = uri.render (with_state (denied uri.query)) in
      (
        there,
        auth_handler-denied decision v uri authorized starts post refuses user kept parsed,
        reparsed,
        same "error" ∙ get_value-denied_error uri.query,
        answer_same (record r { query = followed.query; request_uri = there })
            (record r { query = uri.query; request_uri = return_uri_of v }) v user refl
            (λ k n m.
              same k
              ∙ get_value-denied uri.query k (ne-of-== k "error" n)
                  (ne-of-== k "error_description" m)),
      )
