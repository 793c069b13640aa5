-- ===== src/Logger.antt =====
-- RequestLogger of internal/middleware/middleware.go. What the request and gin's writer hand it are
-- fields of `LoggedRequest` and `Outcome`, and a header or a text that is not there is "". The entry
-- is the value that the handler encodes and prints; its time stays a `Time` and its latency a
-- `Duration`, of which the code prints milliseconds and nanoseconds.
pub mod Blind
pub mod RequestId
use text.Mathlib.Text.{starts_with}
use oauth_2_0_and_open_id_co.Base.{
  ℕ, suc, ◌-◌, String, Bool, true, false, Option, none, some, List, [], ◌∷◌, ◌==◌, if◌then◌else◌,
}
use oauth_2_0_and_open_id_co.Encoding.{Bytes, raw_url_encode}
use oauth_2_0_and_open_id_co.External.{External, Reply, value, failure}
use oauth_2_0_and_open_id_co.Http.{Response, with_header}
use oauth_2_0_and_open_id_co.Redact.{Json, null, redact_json, redact_form}
use oauth_2_0_and_open_id_co.Server.{World}
use oauth_2_0_and_open_id_co.Time.{Time, Duration}

-- url.Values
abbrev pub Form : Type 0
Form = List (String × List String)

pub record LoggedRequest : Type 0 where
  pub request_id : String  -- the header X-Request-ID
  pub content_type : String
  pub body : Reply String  -- io.ReadAll
  pub form : Option Form  -- c.Request.Form, if ParseForm returns no error
  pub method : String
  pub path : String
  pub raw_query : String
  pub proto : String
  pub client_ip : String
  pub user_agent : String
  pub referer : String
  pub content_length : Option ℕ  -- none is -1

-- What the next handlers have left in gin's context.
pub record Outcome : Type 0 where
  pub response : Response
  pub size : Option ℕ  -- none is -1
  pub errors : List String

-- requestBody
pub data LoggedBody : Type 0 where
  parsed : Json → LoggedBody
  unparsed : String → LoggedBody

pub record LogEntry : Type 0 where
  pub timestamp : Time
  pub request_id : String
  pub method : String
  pub path : String
  pub query : String
  pub protocol : String
  pub status : ℕ
  pub latency : Duration
  pub client_ip : String
  pub user_agent : String
  pub referer : String
  pub content_type : String
  pub content_length : Option ℕ
  pub response_size : Option ℕ
  pub request_body : Option LoggedBody
  pub form_data : Option Form
  pub gin_errors : Option String

-- The bytes of a new request id.
abbrev pub request_id_bytes : ℕ
request_id_bytes = 16

-- The error of rand.Read is dropped; `left_over` is what a failed call leaves in the buffer.
abbrev pub request_id_of : Bytes → Reply Bytes → String
request_id_of left_over (value b) = raw_url_encode b
request_id_of left_over (failure e) = raw_url_encode left_over

-- if requestBody != nil: the JSON null is the nil of an interface, and is not logged.
abbrev pub logged_value : Json → Option LoggedBody
logged_value null = none
logged_value v = some (parsed v)

abbrev pub logged_text : String → Option Json → Option LoggedBody
logged_text text (some v) = logged_value (redact_json v)
logged_text text none = some (unparsed text)

abbrev pub logged_json : (String → Option Json) → Reply String → Option LoggedBody
logged_json unmarshal (value text) = if text == "" then none else logged_text text (unmarshal text)
logged_json unmarshal (failure e) = none

abbrev pub logged_form : Option Form → Option Form
logged_form (some form) = some (redact_form form)
logged_form none = none

-- The switch on the content type.
unfoldable pub logged_bodies :
    (String → Option Json) → LoggedRequest → Option LoggedBody × Option Form
logged_bodies unmarshal r =
    if starts_with r.content_type "application/json"
    then (logged_json unmarshal r.body, none)
    else if starts_with r.content_type "application/x-www-form-urlencoded"
    then (none, logged_form r.form)
    else (none, none)

-- `unmarshal` is json.Unmarshal, and `errors_text` is c.Errors.String().
module _ (ext : External) (unmarshal : String → Option Json) (errors_text : List String → String)
    (left_over : Bytes) where
  -- generateRequestID()
  unfoldable pub generate_request_id : World → String × World
  generate_request_id w = (
    request_id_of left_over (ext.rand_read w.draws request_id_bytes),
    record w { draws = suc w.draws },
  )

  unfoldable pub choose_request_id : String → World → String × World
  choose_request_id header w = if header == "" then generate_request_id w else (header, w)

  abbrev pub gin_errors : List String → Option String
  gin_errors [] = none
  gin_errors (e ∷ errors) = some (errors_text (e ∷ errors))

  unfoldable pub log_entry :
      LoggedRequest
      → Time
      → Duration
      → String
      → Option LoggedBody × Option Form
      → Outcome
      → LogEntry
  log_entry r start latency request_id bodies outcome = record {
    timestamp = start;
    request_id = request_id;
    method = r.method;
    path = r.path;
    query = r.raw_query;
    protocol = r.proto;
    status = outcome.response.status;
    latency = latency;
    client_ip = r.client_ip;
    user_agent = r.user_agent;
    referer = r.referer;
    content_type = r.content_type;
    content_length = r.content_length;
    response_size = outcome.size;
    request_body = bodies.0;
    form_data = bodies.1;
    gin_errors = gin_errors outcome.errors;
  }

  -- RequestLogger() around the next handlers: the line that is logged, the response, and the state, which
  -- is the world with what else the handlers change.
  unfoldable pub request_logger :
      {T : Type 0}
      → LoggedRequest
      → (T × World → Outcome × (T × World))
      → T × World
      → LogEntry × Response × (T × World)
  request_logger r next (t, w) =
      let start = ext.now w.clock in
      let (request_id, w1) = choose_request_id r.request_id (record w { clock = suc w.clock }) in
      let bodies = logged_bodies unmarshal r in
      let (outcome, s) = next (t, w1) in
      let latency = ext.now s.1.clock - start in
      (
        log_entry r start latency request_id bodies outcome,
        with_header "X-Request-ID" request_id outcome.response,
        (s.0, record s.1 { clock = suc s.1.clock }),
      )
