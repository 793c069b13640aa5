-- ===== src/Limiter.antt =====
-- The rate limiter of internal/middleware/middleware.go. Its lock makes each call one step; the
-- limit is a number and not a signed integer.
use oauth_2_0_and_open_id_co.Expiry.{sweep}
use oauth_2_0_and_open_id_co.Time.{add, after, Duration, Time}
use oauth_2_0_and_open_id_co.Dict
use oauth_2_0_and_open_id_co.Dict.{Dict}
use oauth_2_0_and_open_id_co.Base.{
  [], ◌∷◌, List, none, some, true, suc, leb, Option, Bool, if◌then◌else◌, String, ℕ,
}
pub mod Window
pub mod Cleanup

pub record VisitorInfo : Type 0 where
  pub count : ℕ
  pub reset_at : Time

pub record RateLimiter : Type 0 where
  pub visitors : Dict VisitorInfo
  pub limit : ℕ
  pub window : Duration
  pub max_visitors : ℕ

-- The limiter that RateLimit makes.
unfoldable pub new_rate_limiter : ℕ → Duration → RateLimiter
new_rate_limiter limit window = record {
  visitors = Dict.empty;
  limit = limit;
  window = window;
  max_visitors = 10000;
}

abbrev pub visitor_expiry : VisitorInfo → Time
visitor_expiry v = v.reset_at

unfoldable pub cleanup_locked : RateLimiter → Time → RateLimiter
cleanup_locked rl now = record rl { visitors = sweep visitor_expiry now rl.visitors }

-- The branch of `allow` for a visitor that is new or whose window is over.
unfoldable pub admit : RateLimiter → Time → String → RateLimiter
admit rl now key =
    let cleaned =
      if leb rl.max_visitors (Dict.size rl.visitors) then cleanup_locked rl now else rl in
    record cleaned {
      visitors = Dict.put cleaned.visitors key (record { count = 1; reset_at = add now rl.window });
    }

-- The branch of `allow` for a visitor within its window.
unfoldable pub count_visit : RateLimiter → String → VisitorInfo → Bool × RateLimiter
count_visit rl key v =
    let counted : VisitorInfo = record v { count = suc v.count } in
    (leb counted.count rl.limit, record rl { visitors = Dict.put rl.visitors key counted })

unfoldable pub allow_visitor : RateLimiter → Time → String → Option VisitorInfo → Bool × RateLimiter
allow_visitor rl now key none = (true, admit rl now key)
allow_visitor rl now key (some v) =
    if after now v.reset_at then (true, admit rl now key) else count_visit rl key v

unfoldable pub allow : RateLimiter → Time → String → Bool × RateLimiter
allow rl now key = allow_visitor rl now key (Dict.get rl.visitors key)

-- The goroutine of RateLimit, which never ends: what it has done after it woke at these times.
unfoldable pub cleanup : List Time → RateLimiter → RateLimiter
cleanup [] rl = rl
cleanup (now ∷ wakes) rl = cleanup wakes (cleanup_locked rl now)
