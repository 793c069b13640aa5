-- ===== src/Tests/Logs.antt =====
-- The theorems on the request log, for two logins that differ in the password.
use Prim.Native.String as Str
use oauth_2_0_and_open_id_co.Dict
use oauth_2_0_and_open_id_co.Encoding.Url.{length, all_unreserved}
use oauth_2_0_and_open_id_co.Base.{
  ◌≡◌, refl, String, Option, none, some, List, [], ◌∷◌, ◌==◌, if◌then◌else◌, true,
}
use oauth_2_0_and_open_id_co.External.{External, value}
use oauth_2_0_and_open_id_co.Http.{Response, bare}
use oauth_2_0_and_open_id_co.Redact.{Json}
use oauth_2_0_and_open_id_co.Encoding.{Bytes, raw_url_encode}
use oauth_2_0_and_open_id_co.Server.{World}
use oauth_2_0_and_open_id_co.Logger.{LoggedRequest, Outcome, LogEntry, request_logger}
use oauth_2_0_and_open_id_co.Logger.Blind.{request_logger-Alike, json_bodies, AlikeBodies}
use oauth_2_0_and_open_id_co.Logger.RequestId.{request_logger-new_id}
use oauth_2_0_and_open_id_co.Tests.Redaction.{login_body, bodies-Alike}
use oauth_2_0_and_open_id_co.Tests.Sample.{ext, world}

abbrev login_with : String → LoggedRequest
login_with body = record {
  request_id = "";
  content_type = "application/json";
  body = value body;
  form = none;
  method = "POST";
  path = "/api/login";
  raw_query = "";
  proto = "HTTP/1.1";
  client_ip = "127.0.0.1";
  user_agent = "test";
  referer = "";
  content_length = some 3;
}

abbrev answer : Unit {0} × World → Outcome × (Unit {0} × World)
answer s = (record { response = bare 200; size = some 0; errors = [] }, s)

-- Two texts stand for the bodies of two logins.
abbrev decode : String → Option Json
decode text = if text == "one" then some (login_body "one") else some (login_body "two")

abbrev join_errors : List String → String
join_errors errors = "errors"

bodies_differ : AlikeBodies decode (login_with "one") (login_with "two")
bodies_differ =
    json_bodies "one" "two" (login_body "one") (login_body "two") refl refl refl refl refl refl refl
      bodies-Alike

request_logger-Alike_example :
    request_logger ext decode join_errors [] (login_with "one") answer (tt, world)
    ≡ request_logger ext decode join_errors [] (login_with "two") answer (tt, world)
request_logger-Alike_example =
    request_logger-Alike ext decode join_errors [] (login_with "one") (login_with "two") answer
      (tt, world) refl bodies_differ

abbrev sixteen : Bytes
sixteen = 1 ∷ 2 ∷ 3 ∷ 4 ∷ 5 ∷ 6 ∷ 7 ∷ 8 ∷ 9 ∷ 10 ∷ 11 ∷ 12 ∷ 13 ∷ 14 ∷ 15 ∷ 16 ∷ []

abbrev source : External
source = record ext { rand_read = λ n k. value sixteen }

abbrev line : LogEntry × Response × (Unit {0} × World)
line = request_logger source decode join_errors [] (login_with "one") answer (tt, world)

request_logger-new_id_example :
    (line.0.request_id ≡ raw_url_encode sixteen)
    × (Dict.get line.1.headers "X-Request-ID" ≡ some line.0.request_id)
    × (Str.count line.0.request_id ≡ 22)
    × (all_unreserved line.0.request_id ≡ true)
unfolding length
request_logger-new_id_example =
    request_logger-new_id source decode join_errors [] (login_with "one") answer tt world sixteen
      refl refl refl
