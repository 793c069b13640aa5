-- ===== src/Limiter/Cleanup.antt =====
-- The clean-up goroutine of the rate limiter changes no decision.
use oauth_2_0_and_open_id_co.Base.{
  sym, ℕ, suc, leb, Bool, true, ◌≡◌, ◌≤◌, refl, ◌∙◌, Option, none, some, List, [], ◌∷◌, All, String,
  arith,
}
use oauth_2_0_and_open_id_co.Expiry.Laws.{view, view-sweep}
use oauth_2_0_and_open_id_co.Limiter.{
  RateLimiter, VisitorInfo, visitor_expiry, allow, allow_visitor, count_visit, cleanup,
  cleanup_locked,
}
use oauth_2_0_and_open_id_co.Time.{Time}

-- The decision on a visitor whose window is open, if there is one.
abbrev decided : ℕ → Option VisitorInfo → Bool
decided limit none = true
decided limit (some v) = leb (suc v.count) limit

allow-decided :
    (rl : RateLimiter) (now : Time) (key : String)
    → (allow rl now key).0 ≡ decided rl.limit (view visitor_expiry now rl.visitors key)
unfolding allow allow_visitor count_visit
allow-decided rl now key = ground arith

view-cleanup :
    (wakes : List Time) (rl : RateLimiter) (now : Time) (key : String)
    → All (λ t. t ≤ now) wakes
    → ((cleanup wakes rl).limit ≡ rl.limit)
      × (view visitor_expiry now (cleanup wakes rl).visitors key
          ≡ view visitor_expiry now rl.visitors key)
unfolding cleanup cleanup_locked
view-cleanup [] rl now key before = (refl, refl)
view-cleanup (t ∷ wakes) rl now key before =
    let (limit, rest) = view-cleanup wakes (cleanup_locked rl t) now key before.1 in
    (limit, rest ∙ view-sweep visitor_expiry t now rl.visitors key before.0)

-- Whether a request passes does not depend on when and how often the goroutine has cleaned up before.
pub allow-cleanup :
    (wakes : List Time) (rl : RateLimiter) (now : Time) (key : String)
    → All (λ t. t ≤ now) wakes
    → (allow (cleanup wakes rl) now key).0 ≡ (allow rl now key).0
allow-cleanup wakes rl now key before =
    let (limit, same) = view-cleanup wakes rl now key before in
    allow-decided (cleanup wakes rl) now key ∙ rw (limit, same) (sym (allow-decided rl now key))
