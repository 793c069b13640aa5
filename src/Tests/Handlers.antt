-- ===== src/Tests/Handlers.antt =====
-- The theorems on the handlers, at requests to the small installation of Tests/Sample.

use oauth_2_0_and_open_id_co.Oidc.Claims.{id_claims-announced}
use oauth_2_0_and_open_id_co.Encoding.Url.{random_string-all_unreserved, all_unreserved, length}
use oauth_2_0_and_open_id_co.Action.{ok}
use oauth_2_0_and_open_id_co.Oidc.{default_app_config, build_discovery}
use oauth_2_0_and_open_id_co.External.{text, value}
use oauth_2_0_and_open_id_co.System.Sessions.{logout_handler-login}
use oauth_2_0_and_open_id_co.Generator.{user_claims, id_claims, random_string}
use oauth_2_0_and_open_id_co.Handler.Logout.{logout_handler}
use oauth_2_0_and_open_id_co.Encoding.Utf8.{char_of, text_of}
use oauth_2_0_and_open_id_co.Handler.Token.Credentials.{handlers-in_body, in_body}
use oauth_2_0_and_open_id_co.Encoding.{raw_url_encode, Bytes, bytes}
use oauth_2_0_and_open_id_co.Service.Session.{get_authorize_session_check}
use oauth_2_0_and_open_id_co.Server.{validate_client}
use oauth_2_0_and_open_id_co.BasicAuth.RoundTrip.{parse_basic_auth-basic_header, basic_header}
use oauth_2_0_and_open_id_co.Handler.Authorize.Safety.{
  authorize_handler-IsOwnLocation, IsOwnLocation,
}
use oauth_2_0_and_open_id_co.Encoding.Decode.{
  last_group, digit, decode_groups, unbroken, std_encoding, decode_string,
}
use oauth_2_0_and_open_id_co.Handler.Token.{revoke_handler, token_handler}
use oauth_2_0_and_open_id_co.Handler.Token.Refused.{handlers_refused, IsChallenged}
use oauth_2_0_and_open_id_co.Handler.{choose_client, read_session_data, request_client}
use oauth_2_0_and_open_id_co.BasicAuth.{
  trim_padding, decode_payload, equal_fold, cut, parse_basic_auth,
}
use oauth_2_0_and_open_id_co.Handler.Authorize.Login.{user_of}
use oauth_2_0_and_open_id_co.Handler.Authorize.{
  code_query, authorize_result_response, authorize_request_of, authorize_user, authorize_handler,
}
use oauth_2_0_and_open_id_co.Tests.Runs.{running}
use oauth_2_0_and_open_id_co.Base.{
  ◌/◌, ◌+◌, ◌*◌, Has, ne-of-==, inl, true, refl, false, none, [], concat, ◌≡◌, ◌∷◌, some, String,
}
use oauth_2_0_and_open_id_co.Http.{with_header, redirect, str, Method, Visit, HttpRequest}
use oauth_2_0_and_open_id_co.Uri.{set_nonempty, set_value, get_value, Query, ParseUri}
use oauth_2_0_and_open_id_co.Dict
use Prim.Native.String as Str
use oauth_2_0_and_open_id_co.Tests.Sample.{world, ext, generator}

abbrev pub printing : ParseUri
printing s =
    some
      (record { query = Dict.empty; render = λ q. concat (s ∷ "?code=" ∷ get_value q "code" ∷ []) })

abbrev pub authorize_query : Query
authorize_query = record {
  entries =
      ("response_type", "code" ∷ [])
      ∷ ("client_id", "app" ∷ [])
      ∷ ("redirect_uri", "https://app/cb" ∷ [])
      ∷ ("scope", "openid read" ∷ [])
      ∷ ("state", "xyz" ∷ [])
      ∷ ("code_challenge", "dg" ∷ [])
      ∷ ("code_challenge_method", "S256" ∷ [])
      ∷ [];
}

abbrev pub authorize_get : HttpRequest
authorize_get = record {
  method = Method.get;
  path = "/oauth/authorize";
  request_uri = "/oauth/authorize?client_id=app";
  authorization = "";
  origin = "";
  query = authorize_query;
  form = Dict.empty;
  login_json = none;
  decision_json = none;
  client_ip = "10.0.0.1";
  starts = true;
}

-- The request for a token, with the client's credentials in the header: "app:s3cret", or another secret.
abbrev token_post : String → HttpRequest
token_post payload = record authorize_get {
  method = Method.post;
  path = "/oauth/token";
  authorization = basic_header payload;
  query = Dict.empty;
  form = record {
    entries =
        ("grant_type", "authorization_code" ∷ [])
        ∷ ("code", "c1" ∷ [])
        ∷ ("redirect_uri", "https://app/cb" ∷ [])
        ∷ ("code_verifier", "v" ∷ [])
        ∷ [];
  };
}

abbrev visit : Visit
visit = record { world = world; session = record { entries = ("LoggedInUserID", str "1") ∷ [] } }

unfoldable pub handling : Unit {0}
unfolding running authorize_handler authorize_user authorize_request_of read_session_data
    get_authorize_session_check authorize_result_response code_query set_value set_nonempty
    get_value redirect with_header Dict.empty parse_basic_auth cut equal_fold decode_payload
    decode_string unbroken decode_groups digit last_group text_of char_of request_client
    choose_client trim_padding
handling = tt

location_run :
    Dict.get (authorize_handler ext printing authorize_get visit).0.headers "Location"
    ≡ some "https://app/cb?code=ABgA"
unfolding handling
location_run = refl

authorize_handler-IsOwnLocation_example :
    IsOwnLocation ext printing "app" "https://app/cb" world "https://app/cb?code=ABgA"
unfolding get_value Dict.get
authorize_handler-IsOwnLocation_example =
    authorize_handler-IsOwnLocation ext printing authorize_get visit "https://app/cb?code=ABgA"
      location_run

user_run : user_of visit ≡ "1"
unfolding Dict.get
user_run = refl

header_run : parse_basic_auth (basic_header "YXBwOnMzY3JldA==") ≡ ("app", "s3cret")
unfolding handling
header_run = refl

wrong_run : request_client (token_post "YXBwOm5v") ≡ some ("app", "no")
unfolding handling
wrong_run = refl

wrong_secret : validate_client world.server "app" "no" ≡ false
unfolding running
wrong_secret = refl

handlers_refused_example :
    (IsChallenged (token_handler ext (token_post "YXBwOm5v") world).0
      × ((token_handler ext (token_post "YXBwOm5v") world).1 ≡ world))
    × (IsChallenged (revoke_handler ext (token_post "YXBwOm5v") world).0
        × ((revoke_handler ext (token_post "YXBwOm5v") world).1 ≡ world))
handlers_refused_example =
    handlers_refused ext (token_post "YXBwOm5v") world "app" "no"
      (unfold get_value Dict.get in inl refl) wrong_run wrong_secret

handlers-in_body_example :
    (token_handler ext (token_post "YXBwOnMzY3JldA==") world
      ≡ token_handler ext (in_body (token_post "YXBwOnMzY3JldA==") "app" "s3cret") world)
    × (revoke_handler ext (token_post "YXBwOnMzY3JldA==") world
        ≡ revoke_handler ext (in_body (token_post "YXBwOnMzY3JldA==") "app" "s3cret") world)
handlers-in_body_example =
    handlers-in_body ext (token_post "YXBwOnMzY3JldA==") world "app" "s3cret" header_run
      (ne-of-== "app" "" refl) (unfold get_value Dict.get in refl)

plain_run : cut b':' "app" ≡ none
unfolding cut
plain_run = refl

payload_run :
    decode_string std_encoding "YXBwOnMzY3JldA=="
    ≡ some (bytes (Str.◌++◌ "app" (Str.◌∷◌ ":" "s3cret")))
unfolding handling
payload_run = refl

parse_basic_auth-basic_header_example :
    parse_basic_auth (basic_header "YXBwOnMzY3JldA==") ≡ ("app", "s3cret")
parse_basic_auth-basic_header_example =
    parse_basic_auth-basic_header "YXBwOnMzY3JldA==" "app" "s3cret" plain_run payload_run

logout_handler-login_example :
    ((authorize_handler ext printing authorize_get (logout_handler authorize_get visit).1).0
      ≡ redirect "/login")
    × ((authorize_handler ext printing authorize_get (logout_handler authorize_get visit).1).1.world
        ≡ world)
logout_handler-login_example =
    logout_handler-login ext printing authorize_get authorize_get visit refl refl

random_run : random_string (value (1 ∷ 2 ∷ 255 ∷ 250 ∷ [])) ≡ ok "AQL_-g"
unfolding random_string raw_url_encode
random_run = refl

random_string-all_unreserved_example :
    (b : Bytes) × (value (1 ∷ 2 ∷ 255 ∷ 250 ∷ []) ≡ value b)
    × (Str.count "AQL_-g" ≡ (length b * 4 + 2) / 3)
    × (all_unreserved "AQL_-g" ≡ true)
random_string-all_unreserved_example =
    random_string-all_unreserved (value (1 ∷ 2 ∷ 255 ∷ 250 ∷ [])) "AQL_-g" random_run

claim_run :
    Dict.get (id_claims ext generator 0 "app" "1" "n" 0 none "openid") "nonce" ≡ some (text "n")
unfolding id_claims user_claims Dict.get Dict.put Dict.empty
claim_run = refl

id_claims-announced_example : Has "nonce" (build_discovery default_app_config).claims_supported
id_claims-announced_example =
    id_claims-announced ext generator default_app_config 0 "app" "1" "n" 0 none "openid" "nonce"
      (text "n") claim_run
