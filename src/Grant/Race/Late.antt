-- ===== src/Grant/Race/Late.antt =====
-- A call that comes to the code store after the code was deleted fails, however the calls take turns.
use oauth_2_0_and_open_id_co.Expiry.Laws.{get-fetch, fresh}
use oauth_2_0_and_open_id_co.Base.{
  eq_iff, ◌≢◌, ℕ, String, ◌≡◌, refl, ap, List, Option, none, some, arith,
}
use oauth_2_0_and_open_id_co.Action.{proceed, Result, ok, err}
use oauth_2_0_and_open_id_co.External.{External}
use oauth_2_0_and_open_id_co.Dict.{get-delete}
use oauth_2_0_and_open_id_co.Store
use oauth_2_0_and_open_id_co.Store.{code_expiry, Client, AuthorizationCode, AuthCodeStore}
use oauth_2_0_and_open_id_co.Server.{World, load_code}
use oauth_2_0_and_open_id_co.Grant.{TokenRequest, TokenResponse, validate_and_authenticate}
use oauth_2_0_and_open_id_co.Grant.SingleUse.{loaded, IsSpent}
use oauth_2_0_and_open_id_co.Grant.Frame.{Keeps-redeem_code}
use oauth_2_0_and_open_id_co.Turns.{Race, run, run_keeps}
use oauth_2_0_and_open_id_co.Grant.Race.{
  Exchange, ready, admitted, holding, taken, finished, after_validation, after_get, step,
}

-- A call for the code that has not got it from the store, or has failed.
abbrev pub IsLate : String → Exchange → Type 0
IsLate code (ready req) = req.code ≡ code
IsLate code (admitted req client) = req.code ≡ code
IsLate code (holding req client auth_code) = ⊥
IsLate code (taken req client auth_code) = ⊥
IsLate code (finished (ok resp)) = ⊥
IsLate code (finished (err e)) = Unit

validate_and_authenticate-world :
    (client_id client_secret grant_type : String) (w : World)
    → (validate_and_authenticate client_id client_secret grant_type w).1 ≡ w
unfolding validate_and_authenticate proceed
validate_and_authenticate-world client_id client_secret grant_type w = ground arith

after_validation-world :
    (req : TokenRequest) (p : Result Client × World) → (after_validation req p).1 ≡ p.1
after_validation-world req (ok client, w) = refl
after_validation-world req (err e, w) = refl

after_get-world :
    (req : TokenRequest) (client : Client) (p : Result (Option AuthorizationCode) × World)
    → (after_get req client p).1 ≡ p.1
after_get-world req client (ok (some auth_code), w) = refl
after_get-world req client (ok none, w) = refl
after_get-world req client (err e, w) = refl

after_validation-IsLate :
    (code : String) (req : TokenRequest) (p : Result Client × World)
    → req.code ≡ code
    → IsLate code (after_validation req p).0
after_validation-IsLate code req (ok client, w) late = late
after_validation-IsLate code req (err e, w) late = tt

module _ (ext : External) (code : String) where
  load_code-IsSpent :
      (key : String) (w : World)
      → IsSpent code w.auth_codes
      → IsSpent code (load_code ext key w).1.auth_codes
  unfolding load_code Store.get_code
  load_code-IsSpent key w spent =
      rw (get-fetch code_expiry (ext.now w.clock) w.auth_codes.codes key code)
        (ground (arith, eq_iff key code))

  -- Where the code is spent, no step stores it again.
  step-IsSpent :
      (call : Exchange) (w : World)
      → IsSpent code w.auth_codes
      → IsSpent code (step ext call w).1.auth_codes
  unfolding step Store.delete_code
  step-IsSpent (ready req) w spent =
      rw
        (
          after_validation-world req
              (validate_and_authenticate req.client_id req.client_secret "authorization_code" w),
          validate_and_authenticate-world req.client_id req.client_secret "authorization_code" w,
        )
        spent
  step-IsSpent (admitted req client) w spent =
      rw (after_get-world req client (load_code ext req.code w))
        (load_code-IsSpent req.code w spent)
  step-IsSpent (holding req client auth_code) w spent =
      rw (get-delete w.auth_codes.codes req.code code) (ground arith)
  step-IsSpent (taken req client auth_code) w spent =
      (Keeps-redeem_code (λ s c. IsSpent code s) ext req client auth_code).at w spent
  step-IsSpent (finished result) w spent = spent

  step-IsLate :
      (call : Exchange) (w : World)
      → IsSpent code w.auth_codes
      → IsLate code call
      → IsLate code (step ext call w).0
  unfolding step
  step-IsLate (ready req) w spent late =
      after_validation-IsLate code req
        (validate_and_authenticate req.client_id req.client_secret "authorization_code" w) late
  step-IsLate (admitted req client) w spent late =
      rw (loaded ext req w none (rw late (ap (fresh code_expiry (ext.now w.clock)) spent))) tt
  step-IsLate (finished (err e)) w spent late = tt
  step-IsLate (finished (ok resp)) w spent late = absurd late
  step-IsLate (holding req client auth_code) w spent late = absurd late
  step-IsLate (taken req client auth_code) w spent late = absurd late

  run-IsLate :
      (order : List ℕ) (r : Race Exchange) (i : ℕ)
      → IsSpent code r.world.auth_codes
      → IsLate code (r.calls i)
      → IsLate code ((run (step ext) order r).calls i)
  run-IsLate =
      run_keeps (step ext) (λ w. IsSpent code w.auth_codes) (IsLate code) step-IsSpent step-IsLate

  -- Once a code was deleted, a call for it that had not got it from the store by then does not succeed,
  -- however many calls are served at once and in whatever order they take turns.
  pub run_late :
      (order : List ℕ) (r : Race Exchange) (i : ℕ) (resp : TokenResponse)
      → IsSpent code r.world.auth_codes
      → IsLate code (r.calls i)
      → (run (step ext) order r).calls i ≢ finished (ok resp)
  run_late order r i resp spent late ended =
      let failed = run-IsLate order r i spent late in (rw ended at failed)
