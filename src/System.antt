-- ===== src/System.antt =====
-- The running server: the requests that internal/router/router.go serves, in any order and from any
-- browser, and the rounds of the clean-up goroutines of internal/server/store.go between them.
use oauth_2_0_and_open_id_co.Store
use oauth_2_0_and_open_id_co.Time.{Time}
use oauth_2_0_and_open_id_co.Base.{ℕ, ◌≡◌}
use oauth_2_0_and_open_id_co.Limiter.{RateLimiter}
use oauth_2_0_and_open_id_co.Dict.{Dict}
use oauth_2_0_and_open_id_co.Server.{set_tokens, set_codes, World}
use oauth_2_0_and_open_id_co.Http.{SessionValue, HttpRequest}
use oauth_2_0_and_open_id_co.Router.{serve_request, Site}
use oauth_2_0_and_open_id_co.Uri.{ParseUri}
use oauth_2_0_and_open_id_co.External.{External}
pub mod Kept
pub mod Codes
pub mod Started
pub mod Sessions
pub mod Flow
pub mod Logged
pub mod Tokens

module _ (ext : External) (parse : ParseUri) (site : Site) where
  -- What a request leaves, from a browser with this session; the visits so far are those of `rl`.
  abbrev pub after_request : HttpRequest → Dict SessionValue → RateLimiter → World → World
  after_request r session rl w =
      (serve_request ext parse site r (rl, record { world = w; session = session })).1.1.world

  pub data Step (w w' : World) : Type 0 where
    served :
        (r : HttpRequest) (session : Dict SessionValue) (rl : RateLimiter)
        → w' ≡ after_request r session rl w
        → Step w w'
    codes_cleaned :
        (now : Time) → w' ≡ set_codes w (Store.cleanup_codes w.auth_codes now) → Step w w'
    -- the request log and the limiter's clean-up read the clock, and the log the random source
    readings : (clock draws : ℕ) → w' ≡ record w { clock = clock; draws = draws } → Step w w'
    tokens_cleaned :
        (now : Time) → w' ≡ set_tokens w (Store.cleanup_tokens w.tokens now) → Step w w'

  pub data Reach (first : World) : World → Type 0 where
    here : Reach first first
    next : {w w' : World} → Reach first w → Step w w' → Reach first w'
