-- ===== src/Handler.antt =====
-- internal/handler: what the handlers read from a request, and the answers that they share.
pub mod Token
pub mod Authorize
pub mod Session
pub mod Bearer
pub mod Logout
use oauth_2_0_and_open_id_co.Uri.{get_value}
use oauth_2_0_and_open_id_co.Service.Session.{SessionData}
use oauth_2_0_and_open_id_co.BasicAuth.{parse_basic_auth}
use oauth_2_0_and_open_id_co.Http.{
  str, float64, int64, error_json, SessionValue, Response, HttpRequest,
}
use oauth_2_0_and_open_id_co.Dict.{Dict}
use oauth_2_0_and_open_id_co.Base.{none, ◌&&◌, ◌==◌, not, ℕ, some, if◌then◌else◌, String, Option}
use oauth_2_0_and_open_id_co.Dict

-- val.(string), or "" for another type or a missing key
abbrev pub as_string : Option SessionValue → String
as_string none = ""
as_string (some (str s)) = s
as_string (some (int64 n)) = ""
as_string (some (float64 n)) = ""

abbrev pub as_time : Option SessionValue → ℕ
as_time none = 0
as_time (some (str s)) = 0
as_time (some (int64 n)) = n
as_time (some (float64 n)) = n

-- Handler.readSessionData
unfoldable pub read_session_data : Dict SessionValue → SessionData
read_session_data sess = record {
  logged_in_user_id = as_string (Dict.get sess "LoggedInUserID");
  logged_in_username = "";
  return_uri = as_string (Dict.get sess "ReturnURI");
  auth_time = as_time (Dict.get sess "AuthTime");
}

-- The client id and secret of a request: those of the header, if it has an id. None where the body
-- names another client.
unfoldable pub choose_client : String × String → String → String → Option (String × String)
choose_client (header_id, header_secret) body_id body_secret =
    if not (header_id == "")
    then (if not (body_id == "") && not (body_id == header_id)
        then none
        else some (header_id, header_secret))
    else some (body_id, body_secret)

unfoldable pub request_client : HttpRequest → Option (String × String)
unfolding choose_client
request_client r =
    choose_client (parse_basic_auth r.authorization) (get_value r.form "client_id")
      (get_value r.form "client_secret")

abbrev pub conflict : Response
conflict =
    error_json 401 "invalid_client" "conflicting client_id in Authorization header and request body"
