-- ===== src/System/Logged.antt =====
-- A request with its log line is a request between two readings of the clock.
use oauth_2_0_and_open_id_co.Base.{arith, ◌≡◌, String, suc, refl}
use oauth_2_0_and_open_id_co.External.{External}
use oauth_2_0_and_open_id_co.Http.{HttpRequest}
use oauth_2_0_and_open_id_co.Logger.{
  LoggedRequest, request_logger, choose_request_id, generate_request_id,
}
use oauth_2_0_and_open_id_co.Middleware.{with_session}
use oauth_2_0_and_open_id_co.Router.{Site, serve_request}
use oauth_2_0_and_open_id_co.Router.Setup.{Recorder, Beside, serve_logged, after_log}
use oauth_2_0_and_open_id_co.Server.{World}
use oauth_2_0_and_open_id_co.System.{after_request, Step, Reach, readings, served}
use oauth_2_0_and_open_id_co.Uri.{ParseUri}

module _ (ext : External) (parse : ParseUri) (site : Site) (recorder : Recorder) where
  abbrev chosen : String → World → World
  chosen header w =
      (choose_request_id ext recorder.unmarshal recorder.errors_text recorder.left_over header w).1

  chosen-same :
      (header : String) (w : World) → chosen header w ≡ record w { draws = (chosen header w).draws }
  unfolding choose_request_id generate_request_id
  chosen-same header w = ground arith

  -- What a logged request leaves is reached: what holds in every reachable world holds after it.
  pub serve_logged-Reach :
      (logged : LoggedRequest) (r : HttpRequest) (beside : Beside) (start w : World)
      → Reach ext parse site start w
      → Reach ext parse site start (serve_logged ext parse site recorder logged r (beside, w)).2.1
  unfolding serve_logged request_logger after_log with_session serve_request
  serve_logged-Reach logged r (rl, session) start w before =
      let w1 = chosen logged.request_id (record w { clock = suc w.clock }) in
      let w2 = after_request ext parse site r session rl w1 in
      let first : Step ext parse site w w1 =
        readings (suc w.clock) w1.draws
          (chosen-same logged.request_id (record w { clock = suc w.clock })) in
      let second : Step ext parse site w1 w2 = served r session rl refl in
      Reach.next (Reach.next (Reach.next before first) second)
        (readings (suc w2.clock) w2.draws refl)
