-- ===== src/Limiter/Window.antt =====
-- How many requests of a visitor pass in one window.
use oauth_2_0_and_open_id_co.Expiry.Laws.{view}
use oauth_2_0_and_open_id_co.Base.{
  none, ne-of-==, ap, true, eq-of-==, eq_refl, ◌∙◌, false, inr, not, Bool-cases, inl, ==-of-ne, ◌-◌,
  Option-cases, arith, suc, ◌&&◌, some, ◌==◌, [], ◌∷◌,
}
use oauth_2_0_and_open_id_co.Dict
use oauth_2_0_and_open_id_co.Dict.{get-put, get-retain, Dict}
use oauth_2_0_and_open_id_co.Expiry.{sweep}
use oauth_2_0_and_open_id_co.Limiter.{
  visitor_expiry, count_visit, VisitorInfo, allow_visitor, RateLimiter, allow, admit,
  cleanup_locked,
}
use oauth_2_0_and_open_id_co.Time.{after, add, Time}
use oauth_2_0_and_open_id_co.Base.{◌≢◌, refl, ◌≤◌, ◌≡◌, leb, if◌then◌else◌, List, ℕ, String}

pub data Event : Type 0 where
  requests : String → Event
  cleans_up : Event

-- The requests of a visitor that pass in a history of events, each with its time.
pub passed : String → RateLimiter → List (Time × Event) → ℕ
passed key rl [] = 0
passed key rl ((now, requests other) ∷ events) =
    let rest = passed key (allow rl now other).1 events in
    if (other == key) && (allow rl now other).0 then suc rest else rest
passed key rl ((now, cleans_up) ∷ events) = passed key (cleanup_locked rl now) events

-- The requests of a visitor in a history.
pub asked : String → List (Time × Event) → ℕ
asked key [] = 0
asked key ((now, requests other) ∷ events) =
    let rest = asked key events in if other == key then suc rest else rest
asked key ((now, cleans_up) ∷ events) = asked key events

-- No event comes after a moment.
abbrev pub IsUntil : Time → List (Time × Event) → Type 0
IsUntil t [] = Unit
IsUntil t ((now, e) ∷ events) = (now ≤ t) × IsUntil t events

abbrev pub at_most : ℕ → ℕ → ℕ
at_most n m = if leb n m then n else m

cleanup_locked-get :
    (rl : RateLimiter) (now : Time) (key : String) (v : VisitorInfo)
    → now ≤ v.reset_at
    → Dict.get rl.visitors key ≡ some v
    → Dict.get (cleanup_locked rl now).visitors key ≡ some v
unfolding cleanup_locked sweep
cleanup_locked-get rl now key v h there =
    ground (arith, get-retain (λ (u : VisitorInfo). not (after now u.reset_at)) rl.visitors key)

cleanup_locked-limit : (rl : RateLimiter) (now : Time) → (cleanup_locked rl now).limit ≡ rl.limit
unfolding cleanup_locked
cleanup_locked-limit rl now = refl

admit-get :
    (rl : RateLimiter) (now : Time) (other key : String) (v : VisitorInfo)
    → now ≤ v.reset_at
    → other ≢ key
    → Dict.get rl.visitors key ≡ some v
    → (Dict.get (admit rl now other).visitors key ≡ some v)
      × ((admit rl now other).limit ≡ rl.limit)
unfolding admit
admit-get rl now other key v h n there =
    let first : VisitorInfo = record { count = 1; reset_at = add now rl.window } in
    let apart = ==-of-ne other key n in
    elim (Bool-cases (leb rl.max_visitors (Dict.size rl.visitors))) [
      | inl e ↦ rw e (
        get-put (cleanup_locked rl now).visitors other first key
            ∙ rw apart (cleanup_locked-get rl now key v h there),
        cleanup_locked-limit rl now,
      )
      | inr e ↦ rw e (get-put rl.visitors other first key ∙ rw apart there, refl)
    ]

-- Another visitor's request leaves the entry.
allow-get_other :
    (rl : RateLimiter) (now : Time) (other key : String) (v : VisitorInfo)
    → now ≤ v.reset_at
    → other ≢ key
    → Dict.get rl.visitors key ≡ some v
    → (Dict.get (allow rl now other).1.visitors key ≡ some v)
      × ((allow rl now other).1.limit ≡ rl.limit)
unfolding allow allow_visitor count_visit
allow-get_other rl now other key v h n there = elim (Option-cases (Dict.get rl.visitors other)) [
  | inl new ↦ rw new (admit-get rl now other key v h n there)
  | inr (u, found) ↦ rw found (elim (Bool-cases (after now u.reset_at)) [
    | inl late ↦ rw late (admit-get rl now other key v h n there)
    | inr early ↦ rw early (
      get-put rl.visitors other (record u { count = suc u.count }) key
          ∙ rw (==-of-ne other key n) there,
      refl,
    )
  ])
]

-- A visitor's request in its window counts.
allow-get_own :
    (rl : RateLimiter) (now : Time) (key : String) (v : VisitorInfo)
    → now ≤ v.reset_at
    → Dict.get rl.visitors key ≡ some v
    → ((allow rl now key).0 ≡ leb (suc v.count) rl.limit)
      × (Dict.get (allow rl now key).1.visitors key ≡ some (record v { count = suc v.count }))
      × ((allow rl now key).1.limit ≡ rl.limit)
unfolding allow allow_visitor count_visit
allow-get_own rl now key v h there =
    let early : after now v.reset_at ≡ false = ground (arith, h) in
    rw (there, early)
      (
        refl,
        get-put rl.visitors key (record v { count = suc v.count }) key ∙ rw (eq_refl key),
        refl,
      )

-- One step of the count.
one_more :
    (n count limit : ℕ)
    → (if leb (suc count) limit
        then suc (at_most n (limit - suc count))
        else at_most n (limit - suc count))
      ≡ at_most (suc n) (limit - count)
one_more n count limit = ground arith

passed-eq_of :
    (events : List (Time × Event)) (rl : RateLimiter) (key : String) (v : VisitorInfo) (limit : ℕ)
    → rl.limit ≡ limit
    → Dict.get rl.visitors key ≡ some v
    → IsUntil v.reset_at events
    → passed key rl events ≡ at_most (asked key events) (limit - v.count)
unfolding passed asked
passed-eq_of [] rl key v limit same there until = ground arith
passed-eq_of ((now, cleans_up) ∷ events) rl key v limit same there (early, until) =
    passed-eq_of events (cleanup_locked rl now) key v limit (cleanup_locked-limit rl now ∙ same)
      (cleanup_locked-get rl now key v early there) until
passed-eq_of ((now, requests other) ∷ events) rl key v limit same there (early, until) =
    elim (Bool-cases (other == key)) [
      | inl own ↦
          let e : other ≡ key = eq-of-== other key own in
          let (answer, counted, kept) = allow-get_own rl now key v early there in
          let rest =
            passed-eq_of events (allow rl now key).1 key (record v { count = suc v.count }) limit
              (kept ∙ same) counted until in
          rw (e, eq_refl key, answer, rest, same) (one_more (asked key events) v.count limit)
      | inr apart ↦
          let (stays, kept) =
            allow-get_other rl now other key v early (ne-of-== other key apart) there in
          rw apart
            (passed-eq_of events (allow rl now other).1 key v limit (kept ∙ same) stays until)
    ]

admitted :
    (rl : RateLimiter) (now : Time) (key : String)
    → (Dict.get (admit rl now key).visitors key
        ≡ some (record { count = 1; reset_at = add now rl.window }))
      × ((admit rl now key).limit ≡ rl.limit)
unfolding admit
admitted rl now key =
    let first : VisitorInfo = record { count = 1; reset_at = add now rl.window } in
    elim (Bool-cases (leb rl.max_visitors (Dict.size rl.visitors))) [
      | inl e ↦ rw e (
        get-put (cleanup_locked rl now).visitors key first key ∙ rw (eq_refl key),
        cleanup_locked-limit rl now,
      )
      | inr e ↦ rw e (get-put rl.visitors key first key ∙ rw (eq_refl key), refl)
    ]

-- The visitor has no window that is open at a moment.
abbrev pub IsNew : RateLimiter → Time → String → Type 0
IsNew rl now key = view visitor_expiry now rl.visitors key ≡ none

allow-get_new :
    (rl : RateLimiter) (now : Time) (key : String)
    → IsNew rl now key
    → allow rl now key ≡ (true, admit rl now key)
unfolding allow allow_visitor
allow-get_new rl now key new = elim (Option-cases (Dict.get rl.visitors key)) [
  | inl missing ↦ rw missing refl
  | inr (v, there) ↦
      let late : after now v.reset_at ≡ true = ground (arith, new, there) in rw (there, late) refl
]

-- In a window that a visitor opens, with any requests of others and any clean-up rounds in between,
-- as many of its requests pass as it makes, up to the limit; one passes also where the limit is 0.
pub passed-eq :
    (rl : RateLimiter) (now : Time) (key : String) (events : List (Time × Event))
    → IsNew rl now key
    → IsUntil (add now rl.window) events
    → passed key rl ((now, requests key) ∷ events) ≡ suc (at_most (asked key events) (rl.limit - 1))
unfolding passed
passed-eq rl now key events new until =
    let (stored, kept) = admitted rl now key in
    rw (allow-get_new rl now key new, eq_refl key)
      (ap (λ n. suc n)
        (passed-eq_of events (admit rl now key) key
          (record { count = 1; reset_at = add now rl.window }) rl.limit kept stored until))
