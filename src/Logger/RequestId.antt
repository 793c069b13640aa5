-- ===== src/Logger/RequestId.antt =====
-- The request id: the one that the client sent, or a new one.
use oauth_2_0_and_open_id_co.Dict.{get-put}
use Prim.Native.String as Str
use oauth_2_0_and_open_id_co.Base.{
  false, ◌==◌, ◌≡◌, String, Option, some, List, true, refl, ap, ◌∙◌,
}
use oauth_2_0_and_open_id_co.Dict
use oauth_2_0_and_open_id_co.Encoding.{Bytes, raw_url_encode}
use oauth_2_0_and_open_id_co.Encoding.Url.{
  length, all_unreserved, raw_url_encode-all_unreserved, raw_url_encode-count,
}
use oauth_2_0_and_open_id_co.External.{External, value}
use oauth_2_0_and_open_id_co.Redact.{Json}
use oauth_2_0_and_open_id_co.Server.{World}
use oauth_2_0_and_open_id_co.Logger.{
  LoggedRequest, LogEntry, Outcome, request_logger, request_id_bytes, log_entry, choose_request_id,
  generate_request_id,
}
use oauth_2_0_and_open_id_co.Http.{Response, with_header}

module _ (ext : External) (unmarshal : String → Option Json) (errors_text : List String → String)
    (left_over : Bytes) {T : Type 0} (r : LoggedRequest) (next : T × World → Outcome × (T × World))
    (t : T) (w : World) where
  abbrev line : LogEntry × Response × (T × World)
  line = request_logger ext unmarshal errors_text left_over r next (t, w)

  -- The log line and the response carry the same request id.
  request_logger_id : Dict.get line.1.headers "X-Request-ID" ≡ some line.0.request_id
  unfolding request_logger log_entry with_header
  request_logger_id = get-put _ "X-Request-ID" _ "X-Request-ID"

  -- An id that the client sent is kept.
  pub request_logger-kept_id :
      (r.request_id == "") ≡ false
      → (line.0.request_id ≡ r.request_id)
        × (Dict.get line.1.headers "X-Request-ID" ≡ some r.request_id)
  unfolding request_logger log_entry choose_request_id
  request_logger-kept_id sent =
      let kept : line.0.request_id ≡ r.request_id = rw sent refl in
      (kept, request_logger_id ∙ ap some kept)

  -- Without one, the log line and the response carry the same new id, of 22 characters that a URL holds
  -- unescaped, if the random source delivers the 16 bytes.
  pub request_logger-new_id :
      (b : Bytes)
      → r.request_id ≡ ""
      → ext.rand_read w.draws request_id_bytes ≡ value b
      → length b ≡ request_id_bytes
      → (line.0.request_id ≡ raw_url_encode b)
        × (Dict.get line.1.headers "X-Request-ID" ≡ some line.0.request_id)
        × (Str.count line.0.request_id ≡ 22)
        × (all_unreserved line.0.request_id ≡ true)
  unfolding request_logger log_entry choose_request_id generate_request_id
  request_logger-new_id b missing drawn size =
      let new : line.0.request_id ≡ raw_url_encode b = rw (missing, drawn) refl in
      (
        new,
        request_logger_id,
        rw new (raw_url_encode-count b ∙ rw size refl),
        rw new (raw_url_encode-all_unreserved b),
      )
