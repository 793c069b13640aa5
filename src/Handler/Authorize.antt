-- ===== src/Handler/Authorize.antt =====
-- internal/handler/authorize.go.
pub mod Safety
pub mod Login
use oauth_2_0_and_open_id_co.Handler.{read_session_data}
use oauth_2_0_and_open_id_co.Action.{err, ok, Result}
use oauth_2_0_and_open_id_co.Base.{◌==◌, none, not, if◌then◌else◌, some, Option}
use oauth_2_0_and_open_id_co.Service.Session.{get_authorize_session_check, SessionData}
use oauth_2_0_and_open_id_co.External.{result_of, External}
use oauth_2_0_and_open_id_co.Uri.{Parsed, set_value, get_value, set_nonempty, Query, ParseUri}
use oauth_2_0_and_open_id_co.Authorize.{authorize_request, AuthorizeRequest, AuthorizeResult}
use oauth_2_0_and_open_id_co.Errors.{as_authorize, AuthorizeError}
use oauth_2_0_and_open_id_co.Http.{
  str, Answer, redirect, bare, error_json, Visit, options, Response, HttpRequest,
}
use oauth_2_0_and_open_id_co.Dict

unfoldable pub authorize_request_of : HttpRequest → SessionData → AuthorizeRequest
authorize_request_of r data_of = record {
  response_type = get_value r.query "response_type";
  client_id = get_value r.query "client_id";
  redirect_uri = get_value r.query "redirect_uri";
  scope = get_value r.query "scope";
  state = get_value r.query "state";
  nonce = get_value r.query "nonce";
  code_challenge = get_value r.query "code_challenge";
  code_challenge_method = get_value r.query "code_challenge_method";
  user_id = data_of.logged_in_user_id;
  auth_time = data_of.auth_time;
}

unfoldable pub error_query : AuthorizeError → Query → Query
error_query e q =
    set_nonempty
      (set_value (set_value q "error" e.oauth_error.code) "error_description"
        e.oauth_error.description)
      "state" e.state

unfoldable pub code_query : AuthorizeResult → Query → Query
code_query res q = set_nonempty (set_value q "code" res.code) "state" res.state

abbrev pub shown_error : AuthorizeError → Response
shown_error e = error_json 400 e.oauth_error.code e.oauth_error.description

abbrev pub to_error_uri : AuthorizeError → Option Parsed → Response
to_error_uri e none = shown_error e
to_error_uri e (some uri) = redirect (uri.render (error_query e uri.query))

unfoldable pub authorize_error_response : ParseUri → Option AuthorizeError → Response
authorize_error_response parse none = bare 400
authorize_error_response parse (some e) =
    if not (e.redirect_uri == "") then to_error_uri e (parse e.redirect_uri) else shown_error e

abbrev pub to_code_uri : AuthorizeResult → Option Parsed → Response
to_code_uri res none = bare 400
to_code_uri res (some uri) = redirect (uri.render (code_query res uri.query))

unfoldable pub authorize_result_response : ParseUri → Result AuthorizeResult → Response
authorize_result_response parse (ok res) = to_code_uri res (parse res.redirect_uri)
authorize_result_response parse (err e) = authorize_error_response parse (as_authorize e)

module _ (ext : External) (parse : ParseUri) where
  -- The part of the handler for a user who is logged in.
  unfoldable pub authorize_user : HttpRequest → SessionData → Visit → Answer
  authorize_user r data_of v =
      let (result, w') = authorize_request ext (authorize_request_of r data_of) v.world in
      (authorize_result_response parse result, record v { world = w' })

  -- Handler.Authorize
  unfoldable pub authorize_handler : HttpRequest → Visit → Answer
  authorize_handler r v =
      let data_of = read_session_data v.session in
      if not r.starts
      then (bare 500, v)
      else if (get_authorize_session_check data_of).1
      then (
        redirect "/login",
        record v { session = Dict.put v.session "ReturnURI" (str r.request_uri) },
      )
      else authorize_user r
          (record data_of { logged_in_user_id = (get_authorize_session_check data_of).0 }) v
