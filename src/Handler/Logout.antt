-- ===== src/Handler/Logout.antt =====
-- Logout of internal/handler/revoke.go.
use oauth_2_0_and_open_id_co.Redirect.{is_redirect_uri_registered}
use oauth_2_0_and_open_id_co.Uri.{get_value}
use oauth_2_0_and_open_id_co.Service.Session.{process_logout}
use oauth_2_0_and_open_id_co.Http.{Answer, redirect, Visit, SessionValue, HttpRequest}
use oauth_2_0_and_open_id_co.Base.{◌==◌, [], ◌∷◌, String, if◌then◌else◌, List, Bool}
use oauth_2_0_and_open_id_co.Dict.{Dict}
use oauth_2_0_and_open_id_co.Dict

unfoldable pub delete_keys : Dict SessionValue → List String → Dict SessionValue
delete_keys sess [] = sess
delete_keys sess (key ∷ keys) = delete_keys (Dict.delete sess key) keys

unfoldable pub logout_session : Bool → Dict SessionValue → Dict SessionValue
unfolding delete_keys
logout_session starts sess = if starts then delete_keys sess process_logout else sess

-- Handler.Logout
unfoldable pub logout_handler : HttpRequest → Visit → Answer
logout_handler r v =
    let uri = get_value r.query "post_logout_redirect_uri" in
    let known = is_redirect_uri_registered v.world.server (get_value r.query "client_id") uri in
    (
      (if uri == "" then redirect "/login" else if known then redirect uri else redirect "/login"),
      record v { session = logout_session r.starts v.session },
    )
