-- ===== src/Grant/Renewal/Held.antt =====
-- A refresh that got a refresh token that it may renew is not held up by the others.
use oauth_2_0_and_open_id_co.Turns.{run_lowers, run_keeps, run, times, Race}
use oauth_2_0_and_open_id_co.Base.{List, ℕ, ◌≤◌, ◌-◌, String, ◌≡◌, refl, Option, none, some, arith}
use oauth_2_0_and_open_id_co.Action.{Result, ok, err, proceed}
use oauth_2_0_and_open_id_co.External.{External, PrivateKey, JwtToken, value}
use oauth_2_0_and_open_id_co.Encoding.{Bytes}
use oauth_2_0_and_open_id_co.Store
use oauth_2_0_and_open_id_co.Store.{Client, TokenInfo, token_expiry}
use oauth_2_0_and_open_id_co.Server.{World, set_tokens}
use oauth_2_0_and_open_id_co.Generator.{refresh_token_bytes}
use oauth_2_0_and_open_id_co.Grant.{TokenRequest, TokenResponse, check_refresh}
use oauth_2_0_and_open_id_co.Grant.Complete.Refresh.{renew_tokens_of}
use oauth_2_0_and_open_id_co.Grant.Race.Held.{sign_access_token_delivers, random_string_delivers}
use oauth_2_0_and_open_id_co.Grant.Renewal.{
  Renewal, ready, admitted, holding, retired, finished, renewal_validated, renewal_loaded,
  renewal_checked, renew_retired, renewal_step,
}

-- The turns that a refresh that got its token may still need.
abbrev left : Renewal → ℕ
left (ready req) = 4
left (admitted req client) = 3
left (holding req client old_info) = 2
left (retired old_info scope) = 1
left (finished result) = 0

module _ (ext : External)
    (signs : (token : JwtToken) (key : PrivateKey)
      → (jwt : String) × (ext.signed_string token key ≡ value jwt))
    (draws : (n count : ℕ) → (b : Bytes) × (ext.rand_read n count ≡ value b)) where
  renew_retired_delivers :
      (old : TokenInfo) (scope : String) (w : World)
      → (resp : TokenResponse) × (w' : World) × (renew_retired ext old scope w ≡ (ok resp, w'))
  unfolding proceed
  renew_retired_delivers old scope w =
      let (access, signed) =
        sign_access_token_delivers ext signs draws w.generator (ext.now w.clock) old.client_id
          old.user_id scope in
      let (refresh, drawn) = random_string_delivers ext signs draws w.draws refresh_token_bytes in
      let after = set_tokens w (Store.delete_access_token w.tokens old.access_token) in
      let (resp, w', done, tokens) =
        renew_tokens_of ext old scope access refresh after signed drawn in
      (resp, w', done)

  -- A refresh that got a token that it may renew.
  abbrev WillRenew : Renewal → Type 0
  WillRenew (ready req) = ⊥
  WillRenew (admitted req client) = ⊥
  WillRenew (holding req client old) =
      (scope : String) × ((w : World) → check_refresh ext req client old w ≡ (ok scope, w))
  WillRenew (retired old scope) = Unit
  WillRenew (finished (ok resp)) = Unit
  WillRenew (finished (err e)) = ⊥

  step-WillRenew :
      (call : Renewal) (w : World) → WillRenew call → WillRenew (renewal_step ext call w).0
  unfolding renewal_step
  step-WillRenew (holding req client old) w good = rw (good.1 w) tt
  step-WillRenew (retired old scope) w good =
      let (resp, w', done) = renew_retired_delivers old scope w in rw done tt
  step-WillRenew (finished (ok resp)) w good = tt
  step-WillRenew (finished (err e)) w good = absurd good
  step-WillRenew (ready req) w good = absurd good
  step-WillRenew (admitted req client) w good = absurd good

  finished-WillRenew :
      (call : Renewal)
      → WillRenew call
      → left call ≤ 0
      → (resp : TokenResponse) × (call ≡ finished (ok resp))
  finished-WillRenew (finished (ok resp)) good done = (resp, refl)
  finished-WillRenew (finished (err e)) good done = absurd good
  finished-WillRenew (ready req) good done = absurd good
  finished-WillRenew (admitted req client) good done = absurd good
  finished-WillRenew (holding req client old) good done = absurd (omega (arith, done))
  finished-WillRenew (retired old scope) good done = absurd (omega (arith, done))

left-renewal_checked :
    (req : TokenRequest) (old : TokenInfo) (p : Result String × World)
    → left (renewal_checked req old p).0 ≤ 1
left-renewal_checked req old (ok scope, w) = omega arith
left-renewal_checked req old (err e, w) = omega arith

left-renewal_loaded :
    (req : TokenRequest) (client : Client) (p : Result (Option TokenInfo) × World)
    → left (renewal_loaded req client p).0 ≤ 2
left-renewal_loaded req client (ok (some old), w) = omega arith
left-renewal_loaded req client (ok none, w) = omega arith
left-renewal_loaded req client (err e, w) = omega arith

left-renewal_validated :
    (req : TokenRequest) (p : Result Client × World) → left (renewal_validated req p).0 ≤ 3
left-renewal_validated req (ok client, w) = omega arith
left-renewal_validated req (err e, w) = omega arith

left-renewal_step :
    (ext : External) (call : Renewal) (w : World) → left (renewal_step ext call w).0 ≤ left call - 1
unfolding renewal_step
left-renewal_step ext (ready req) w = left-renewal_validated req _
left-renewal_step ext (admitted req client) w = left-renewal_loaded req client _
left-renewal_step ext (holding req client old) w = left-renewal_checked req old _
left-renewal_step ext (retired old scope) w = omega arith
left-renewal_step ext (finished result) w = omega arith

-- A refresh that got a token that it may renew succeeds with two more turns, whatever the other calls do
-- with the token in the meantime.
pub holding_renews :
    (ext : External)
    (signs : (token : JwtToken) (key : PrivateKey)
      → (jwt : String) × (ext.signed_string token key ≡ value jwt))
    (draws : (n count : ℕ) → (b : Bytes) × (ext.rand_read n count ≡ value b)) (req : TokenRequest)
    (client : Client) (old : TokenInfo) (scope : String) (order : List ℕ) (r : Race Renewal) (i : ℕ)
    → r.calls i ≡ holding req client old
    → ((w : World) → check_refresh ext req client old w ≡ (ok scope, w))
    → 2 ≤ times i order
    → (resp : TokenResponse) × ((run (renewal_step ext) order r).calls i ≡ finished (ok resp))
holding_renews ext signs draws req client old scope order r i held good enough =
    let few : left (r.calls i) ≤ 2 = rw held (omega arith) in
    let kept =
      run_keeps (renewal_step ext) (λ w. Unit {0}) (WillRenew ext signs draws) (λ call w h. tt)
        (λ call w h. step-WillRenew ext signs draws call w) order r i tt (rw held (scope, good)) in
    finished-WillRenew ext signs draws _ kept (
      omega
        (arith, run_lowers (renewal_step ext) left (left-renewal_step ext) order r i, few, enough))
