-- ===== src/Tests/Races.antt =====
-- The theorems on calls that take turns, for two calls with the request of Tests/Sample.

use oauth_2_0_and_open_id_co.Grant.Renewal.Twice.{IsRenewable, renewal_twice}
use oauth_2_0_and_open_id_co.Grant.Renewal.{renewal_step, Renewal}
use native.Mathlib.Decide.{ℕ_discrete}
use oauth_2_0_and_open_id_co.Tests.Requests.{sample-Grants}
use oauth_2_0_and_open_id_co.Base.{◌++◌, inl, ℕ, ◌≡◌, ◌≢◌, refl, List, [], ◌∷◌, none, arith}
use oauth_2_0_and_open_id_co.Action.{ok}
use oauth_2_0_and_open_id_co.Dict
use oauth_2_0_and_open_id_co.Grant.{TokenResponse}
use oauth_2_0_and_open_id_co.Turns.{turn, Race, run}
use oauth_2_0_and_open_id_co.Grant.Race.{Exchange, step, ready, finished}
use oauth_2_0_and_open_id_co.Grant.Race.Late.{IsLate, run_late}
use oauth_2_0_and_open_id_co.Grant.Race.Twice.{IsRedeemable, run_twice}
use oauth_2_0_and_open_id_co.Tests.Sample.{refresh, ext, world, token_req, client, code}
use oauth_2_0_and_open_id_co.Tests.Runs.{running, answered}

-- Every call is at its start, with the same request.
abbrev race : Race Exchange
race = record { calls = λ i. ready token_req; world = world }

abbrev fair : List ℕ
fair = 0 ∷ 0 ∷ 1 ∷ 1 ∷ 0 ∷ 1 ∷ 1 ∷ 0 ∷ []

-- The first call has deleted the code.
abbrev after_delete : Race Exchange
after_delete = run (step ext) (0 ∷ 0 ∷ 0 ∷ []) race

deleted_is_gone : Dict.get after_delete.world.auth_codes.codes "c1" ≡ none
unfolding running run turn step
deleted_is_gone = refl

second_waits : IsLate "c1" (after_delete.calls 1)
unfolding running run turn step
second_waits = refl

run_late_example :
    (run (step ext) (1 ∷ 0 ∷ 1 ∷ []) after_delete).calls 1
    ≢ finished (ok (answered "ACAA" "openid read"))
run_late_example =
    run_late ext "c1" (1 ∷ 0 ∷ 1 ∷ []) after_delete 1 (answered "ACAA" "openid read")
      deleted_is_gone second_waits

-- Both calls, and a third, get the code; then the third deletes it.
abbrev gets : List ℕ
gets = 0 ∷ 1 ∷ 2 ∷ 0 ∷ 2 ∷ 1 ∷ []

abbrev rest : List ℕ
rest = 2 ∷ 1 ∷ 0 ∷ 1 ∷ 0 ∷ []

first_holds : (run (step ext) gets race).calls 0 ≡ Exchange.holding token_req client code
unfolding running run turn step ℕ_discrete
first_holds = refl

second_holds : (run (step ext) gets race).calls 1 ≡ Exchange.holding token_req client code
unfolding running run turn step ℕ_discrete
second_holds = refl

code-IsRedeemable : IsRedeemable ext token_req client code
unfolding running
code-IsRedeemable = record {
  owner = refl;
  redirect = refl;
  verified = refl;
  scope = "openid read";
  permitted = sample-Grants;
}

run_twice_example :
    let both = run (step ext) (gets ++ rest) race in
    ((resp : TokenResponse) × (both.calls 0 ≡ finished (ok resp)))
    × ((resp : TokenResponse) × (both.calls 1 ≡ finished (ok resp)))
unfolding ℕ_discrete
run_twice_example =
    run_twice ext (λ t k. ("jwt", refl)) (λ n k. (_, refl)) race gets rest 0 1 token_req token_req
      client client code first_holds second_holds code-IsRedeemable code-IsRedeemable (omega arith)
      (omega arith)

-- The same for refreshes.
abbrev renewals : Race Renewal
renewals = record { calls = λ i. Renewal.ready token_req; world = world }

first_renews :
    (run (renewal_step ext) gets renewals).calls 0 ≡ Renewal.holding token_req client refresh
unfolding running run turn renewal_step ℕ_discrete
first_renews = refl

second_renews :
    (run (renewal_step ext) gets renewals).calls 1 ≡ Renewal.holding token_req client refresh
unfolding running run turn renewal_step ℕ_discrete
second_renews = refl

refresh-IsRenewable : IsRenewable token_req client refresh
unfolding running
refresh-IsRenewable = record {
  owner = refl;
  scope = "openid read";
  granted = sample-Grants;
  narrowed = inl refl;
}

renewal_twice_example :
    let both = run (renewal_step ext) (gets ++ rest) renewals in
    ((resp : TokenResponse) × (both.calls 0 ≡ Renewal.finished (ok resp)))
    × ((resp : TokenResponse) × (both.calls 1 ≡ Renewal.finished (ok resp)))
unfolding ℕ_discrete
renewal_twice_example =
    renewal_twice ext (λ t k. ("jwt", refl)) (λ n k. (_, refl)) renewals gets rest 0 1 token_req
      token_req client client refresh first_renews second_renews refresh-IsRenewable
      refresh-IsRenewable (omega arith) (omega arith)
