-- ===== src/Router/Setup.antt =====
-- The middlewares that `Setup` of internal/router/router.go installs, in their order: RequestLogger,
-- CORS, Session. A session that session.Start creates or finds stands in the visit from the start, and
-- whether it could is a field of the request, so the call itself changes nothing here.
use oauth_2_0_and_open_id_co.Base.{String, Option, List, ℕ}
use oauth_2_0_and_open_id_co.Dict.{Dict}
use oauth_2_0_and_open_id_co.Encoding.{Bytes}
use oauth_2_0_and_open_id_co.External.{External}
use oauth_2_0_and_open_id_co.Http.{HttpRequest, Response, SessionValue, Visit}
use oauth_2_0_and_open_id_co.Limiter.{RateLimiter}
use oauth_2_0_and_open_id_co.Logger.{LoggedRequest, Outcome, LogEntry, request_logger}
use oauth_2_0_and_open_id_co.Middleware.{cors, with_session}
use oauth_2_0_and_open_id_co.Redact.{Json}
use oauth_2_0_and_open_id_co.Router.{Site, find_route, run_found}
use oauth_2_0_and_open_id_co.Server.{World}
use oauth_2_0_and_open_id_co.Uri.{ParseUri}

-- What the log needs of gin and of encoding/json: json.Unmarshal, c.Errors.String(), what a failed
-- rand.Read leaves in the buffer, and the size and the errors that gin has recorded with a response.
pub record Recorder : Type 0 where
  pub unmarshal : String → Option Json
  pub errors_text : List String → String
  pub left_over : Bytes
  pub size : Response → Option ℕ
  pub errors : Response → List String

-- The limiter and the session of a visit, beside its world.
abbrev pub Beside : Type 0
Beside = RateLimiter × Dict SessionValue

abbrev pub observed : Recorder → Response × (RateLimiter × Visit) → Outcome × (Beside × World)
observed recorder (response, (rl, v)) = (
  record { response = response; size = recorder.size response; errors = recorder.errors response },
  ((rl, v.session), v.world),
)

module _ (ext : External) (parse : ParseUri) (site : Site) (recorder : Recorder) where
  -- What follows the log.
  unfoldable pub after_log : HttpRequest → Beside × World → Outcome × (Beside × World)
  after_log r ((rl, session), w) = observed recorder (
      cors r (with_session (λ s. s) (run_found ext parse site (find_route r.method r.path) r))
        (rl, record { world = w; session = session }))

  -- A request as the engine serves it; `logged` is what the log reads of it.
  unfoldable pub serve_logged :
      LoggedRequest → HttpRequest → Beside × World → LogEntry × Response × (Beside × World)
  serve_logged logged r s =
      request_logger ext recorder.unmarshal recorder.errors_text recorder.left_over logged
        (after_log r) s
