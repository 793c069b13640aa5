-- ===== src/Grant/Race/Held.antt =====
-- A call that got a code that it may redeem is not held up by the others.

use oauth_2_0_and_open_id_co.Time.{Time}
use oauth_2_0_and_open_id_co.Generator.{
  access_claims, new_token, TokenGenerator, refresh_token_bytes, random_string, sign_access_token,
}
use oauth_2_0_and_open_id_co.Base.{ℕ, ◌≤◌, String, ◌≡◌, refl, ap, List, arith}
use oauth_2_0_and_open_id_co.Action.{ok, err}
use oauth_2_0_and_open_id_co.External.{result_of, External, PrivateKey, JwtToken, value}
use oauth_2_0_and_open_id_co.Encoding.{raw_url_encode, Bytes}
use oauth_2_0_and_open_id_co.Store.{Client, AuthorizationCode}
use oauth_2_0_and_open_id_co.Server.{World}
use oauth_2_0_and_open_id_co.Grant.{TokenRequest, TokenResponse, check_code, redeem_code}
use oauth_2_0_and_open_id_co.Grant.Complete.{redeem_code_of}
use oauth_2_0_and_open_id_co.Turns.{Race, run, run_keeps, times}
use oauth_2_0_and_open_id_co.Grant.Race.{Exchange, ready, admitted, holding, taken, finished, step}
use oauth_2_0_and_open_id_co.Grant.Race.Alone.{left-run, left}

module _ (ext : External)
    (signs : (token : JwtToken) (key : PrivateKey)
      → (jwt : String) × (ext.signed_string token key ≡ value jwt))
    (draws : (n count : ℕ) → (b : Bytes) × (ext.rand_read n count ≡ value b)) where
  pub sign_access_token_delivers :
      (g : TokenGenerator) (now : Time) (client_id user_id scope : String)
      → (jwt : String) × (sign_access_token ext g now client_id user_id scope ≡ ok jwt)
  unfolding sign_access_token
  sign_access_token_delivers g now client_id user_id scope =
      let token = new_token ext g (access_claims ext g now client_id user_id scope) in
      let (jwt, signed) = signs token g.private_key in (jwt, ap result_of signed)

  pub random_string_delivers :
      (n count : ℕ) → (text : String) × (random_string (ext.rand_read n count) ≡ ok text)
  unfolding random_string
  random_string_delivers n count =
      let (b, drawn) = draws n count in (raw_url_encode b, ap random_string drawn)

  redeem_code_delivers :
      (req : TokenRequest) (client : Client) (code : AuthorizationCode) (w : World)
      → check_code ext req client code w ≡ (ok tt, w)
      → (resp : TokenResponse) × (w' : World) × (redeem_code ext req client code w ≡ (ok resp, w'))
  redeem_code_delivers req client code w passed =
      let (access, signed) =
        sign_access_token_delivers w.generator (ext.now w.clock) code.client_id code.user_id
          code.scope in
      let (refresh, drawn) = random_string_delivers w.draws refresh_token_bytes in
      let (resp, w', done, tokens) =
        redeem_code_of ext req client code access refresh w passed signed drawn in
      (resp, w', done)

  -- A call that got a code that it may redeem.
  abbrev WillSucceed : Exchange → Type 0
  WillSucceed (ready req) = ⊥
  WillSucceed (admitted req client) = ⊥
  WillSucceed (holding req client code) =
      (w : World) → check_code ext req client code w ≡ (ok tt, w)
  WillSucceed (taken req client code) = (w : World) → check_code ext req client code w ≡ (ok tt, w)
  WillSucceed (finished (ok resp)) = Unit
  WillSucceed (finished (err e)) = ⊥

  step-WillSucceed :
      (call : Exchange) (w : World) → WillSucceed call → WillSucceed (step ext call w).0
  unfolding step
  step-WillSucceed (holding req client code) w good = good
  step-WillSucceed (taken req client code) w good =
      let (resp, w', done) = redeem_code_delivers req client code w (good w) in rw done tt
  step-WillSucceed (finished (ok resp)) w good = tt
  step-WillSucceed (finished (err e)) w good = absurd good
  step-WillSucceed (ready req) w good = absurd good
  step-WillSucceed (admitted req client) w good = absurd good

  run-WillSucceed :
      (order : List ℕ) (r : Race Exchange) (i : ℕ)
      → WillSucceed (r.calls i)
      → WillSucceed ((run (step ext) order r).calls i)
  run-WillSucceed order r i =
      run_keeps (step ext) (λ w. Unit {0}) WillSucceed (λ call w h. tt)
        (λ call w h. step-WillSucceed call w) order r i tt

  finished-WillSucceed :
      (call : Exchange)
      → WillSucceed call
      → left call ≤ 0
      → (resp : TokenResponse) × (call ≡ finished (ok resp))
  finished-WillSucceed (finished (ok resp)) good done = (resp, refl)
  finished-WillSucceed (finished (err e)) good done = absurd good
  finished-WillSucceed (ready req) good done = absurd good
  finished-WillSucceed (admitted req client) good done = absurd good
  finished-WillSucceed (holding req client code) good done = absurd (omega (arith, done))
  finished-WillSucceed (taken req client code) good done = absurd (omega (arith, done))

  -- A call that got a code that it may redeem succeeds with two more turns, whatever the other calls do
  -- with the code in the meantime.
  pub holding_succeeds :
      (req : TokenRequest) (client : Client) (code : AuthorizationCode) (order : List ℕ)
      (r : Race Exchange) (i : ℕ)
      → r.calls i ≡ holding req client code
      → ((w : World) → check_code ext req client code w ≡ (ok tt, w))
      → 2 ≤ times i order
      → (resp : TokenResponse) × ((run (step ext) order r).calls i ≡ finished (ok resp))
  holding_succeeds req client code order r i held good enough =
      let few : left (r.calls i) ≤ 2 = rw held (omega arith) in
      finished-WillSucceed _ (run-WillSucceed order r i (rw held good))
        (omega (arith, left-run ext order r i, few, enough))
