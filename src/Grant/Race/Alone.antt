-- ===== src/Grant/Race/Alone.antt =====
-- The turns that an exchange may still need, and the exchange that is not interrupted, against the
-- function.
use oauth_2_0_and_open_id_co.Store
use oauth_2_0_and_open_id_co.Grant.Info.{invalid_grant}
use oauth_2_0_and_open_id_co.Base.{
  ℕ, ◌-◌, ◌≤◌, ◌≡◌, refl, ap, List, [], ◌∷◌, Option, none, some, arith, ◌∙◌,
}
use oauth_2_0_and_open_id_co.Action.{◌>>◌, ◌>>=◌, or_fail, ◌>>=◌, Action, Result, ok, err, proceed}
use oauth_2_0_and_open_id_co.External.{External}
use oauth_2_0_and_open_id_co.Store.{Client, AuthorizationCode}
use oauth_2_0_and_open_id_co.Server.{update_codes, World, load_code}
use oauth_2_0_and_open_id_co.Grant.{
  redeem_code, TokenRequest, TokenResponse, validate_and_authenticate, grant_authorization_code,
}
use oauth_2_0_and_open_id_co.Turns.{seen-run_four, Race, run, times, seen, onward, run_lowers}
use oauth_2_0_and_open_id_co.Grant.Race.{
  Exchange, ready, admitted, holding, taken, finished, after_validation, after_get, step,
}

-- The turns that a call may still need.
abbrev pub left : Exchange → ℕ
left (ready req) = 4
left (admitted req client) = 3
left (holding req client auth_code) = 2
left (taken req client auth_code) = 1
left (finished result) = 0

left-after_validation :
    (req : TokenRequest) (p : Result Client × World) → left (after_validation req p).0 ≤ 3
left-after_validation req (ok client, w) = omega arith
left-after_validation req (err e, w) = omega arith

left-after_get :
    (req : TokenRequest) (client : Client) (p : Result (Option AuthorizationCode) × World)
    → left (after_get req client p).0 ≤ 2
left-after_get req client (ok (some auth_code), w) = omega arith
left-after_get req client (ok none, w) = omega arith
left-after_get req client (err e, w) = omega arith

module _ (ext : External) where
  left-step : (call : Exchange) (w : World) → left (step ext call w).0 ≤ left call - 1
  unfolding step
  left-step (ready req) w = left-after_validation req _
  left-step (admitted req client) w = left-after_get req client _
  left-step (holding req client auth_code) w = omega arith
  left-step (taken req client auth_code) w = omega arith
  left-step (finished result) w = omega arith

  pub left-run :
      (order : List ℕ) (r : Race Exchange) (i : ℕ)
      → left ((run (step ext) order r).calls i) ≤ left (r.calls i) - times i order
  left-run = run_lowers (step ext) left left-step

  abbrev on : Exchange × World → Exchange × World
  on = onward (step ext)

  abbrev ended : Result TokenResponse × World → Exchange × World
  ended (result, w) = (finished result, w)

  -- What `grantAuthorizationCode` does with the answer of the code store.
  abbrev exchange_found :
      TokenRequest → Client → Option AuthorizationCode → Action World TokenResponse
  exchange_found req client found = do
    auth_code ← or_fail (invalid_grant "authorization code not found or expired") found
    update_codes (λ s. Store.delete_code s req.code)
    redeem_code ext req client auth_code

  loaded-ended :
      (req : TokenRequest) (client : Client) (p : Result (Option AuthorizationCode) × World)
      → on (on (after_get req client p)) ≡ ended (proceed p (exchange_found req client))
  unfolding step proceed
  loaded-ended req client (ok (some auth_code), w) = refl
  loaded-ended req client (ok none, w) = refl
  loaded-ended req client (err e, w) = refl

  validated-ended :
      (req : TokenRequest) (p : Result Client × World)
      → on (on (on (after_validation req p)))
        ≡ ended (proceed p (λ client. load_code ext req.code >>= exchange_found req client))
  unfolding step proceed
  validated-ended req (ok client, w) = loaded-ended req client (load_code ext req.code w)
  validated-ended req (err e, w) = refl

  four-ended :
      (req : TokenRequest) (w : World)
      → on (on (on (on (ready req, w)))) ≡ ended (grant_authorization_code ext req w)
  unfolding step grant_authorization_code
  four-ended req w =
      validated-ended req
        (validate_and_authenticate req.client_id req.client_secret "authorization_code" w)

  -- A call that has four turns one after the other, with no other call between them, ends with the
  -- result of `grant_authorization_code`, and leaves the world that it leaves.
  run_alone :
      (req : TokenRequest) (r : Race Exchange) (i : ℕ)
      → r.calls i ≡ ready req
      → let alone = run (step ext) (i ∷ i ∷ i ∷ i ∷ []) r in
        (alone.calls i ≡ finished (grant_authorization_code ext req r.world).0)
        × (alone.world ≡ (grant_authorization_code ext req r.world).1)
  run_alone req r i at_start =
      let alone = run (step ext) (i ∷ i ∷ i ∷ i ∷ []) r in
      let e : seen i alone ≡ ended (grant_authorization_code ext req r.world) =
        seen-run_four (step ext) i r
        ∙ ap (λ c. on (on (on (on (c, r.world))))) at_start
        ∙ four-ended req r.world in
      (ap (λ p. p.0) e, ap (λ p. p.1) e)
