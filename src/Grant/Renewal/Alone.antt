-- ===== src/Grant/Renewal/Alone.antt =====
-- A refresh that is not interrupted does what the function does.
use oauth_2_0_and_open_id_co.Base.{ℕ, ◌≡◌, refl, ap, ◌∙◌, [], ◌∷◌, Option, none, some, String}
use oauth_2_0_and_open_id_co.Action.{◌>>◌, ◌>>=◌, or_fail, Action, Result, ok, err, proceed}
use oauth_2_0_and_open_id_co.External.{External}
use oauth_2_0_and_open_id_co.Store
use oauth_2_0_and_open_id_co.Store.{Client, TokenInfo}
use oauth_2_0_and_open_id_co.Server.{World, load_refresh_token, update_tokens}
use oauth_2_0_and_open_id_co.Grant.{
  TokenRequest, TokenResponse, invalid_grant, validate_and_authenticate, check_refresh,
  grant_refresh_token,
}
use oauth_2_0_and_open_id_co.Grant.Renewal.{
  Renewal, ready, finished, renewal_validated, renewal_loaded, renewal_checked, renew_retired,
  renewal_step,
}
use oauth_2_0_and_open_id_co.Turns.{Race, run, seen, seen-run_four, onward}

module _ (ext : External) where
  abbrev on : Renewal × World → Renewal × World
  on = onward (renewal_step ext)

  abbrev ended : Result TokenResponse × World → Renewal × World
  ended (result, w) = (finished result, w)

  -- What `grantRefreshToken` does with the scope of the new tokens, and with what it loaded.
  abbrev retire_and_renew : TokenRequest → TokenInfo → String → Action World TokenResponse
  retire_and_renew req old_info scope =
      update_tokens (λ s. Store.delete_refresh_token s req.refresh_token)
      >> renew_retired ext old_info scope

  abbrev renew_found : TokenRequest → Client → Option TokenInfo → Action World TokenResponse
  renew_found req client found =
      or_fail (invalid_grant "refresh token not found") found >>= λ old_info.
      check_refresh ext req client old_info >>= retire_and_renew req old_info

  checked-ended :
      (req : TokenRequest) (old_info : TokenInfo) (p : Result String × World)
      → on (renewal_checked req old_info p) ≡ ended (proceed p (retire_and_renew req old_info))
  unfolding renewal_step proceed
  checked-ended req old_info (ok scope, w) = refl
  checked-ended req old_info (err e, w) = refl

  loaded-ended :
      (req : TokenRequest) (client : Client) (p : Result (Option TokenInfo) × World)
      → on (on (renewal_loaded req client p)) ≡ ended (proceed p (renew_found req client))
  unfolding renewal_step proceed
  loaded-ended req client (ok (some old_info), w) =
      checked-ended req old_info (check_refresh ext req client old_info w)
  loaded-ended req client (ok none, w) = refl
  loaded-ended req client (err e, w) = refl

  validated-ended :
      (req : TokenRequest) (p : Result Client × World)
      → on (on (on (renewal_validated req p)))
        ≡ ended (
            proceed p
              (λ client. load_refresh_token ext req.refresh_token >>= renew_found req client))
  unfolding renewal_step proceed
  validated-ended req (ok client, w) =
      loaded-ended req client (load_refresh_token ext req.refresh_token w)
  validated-ended req (err e, w) = refl

  four-ended :
      (req : TokenRequest) (w : World)
      → on (on (on (on (ready req, w)))) ≡ ended (grant_refresh_token ext req w)
  unfolding renewal_step grant_refresh_token
  four-ended req w =
      validated-ended req
        (validate_and_authenticate req.client_id req.client_secret "refresh_token" w)

  -- A refresh that has four turns one after the other, with no other call between them, ends with the
  -- result of `grant_refresh_token`, and leaves the world that it leaves.
  pub renewal_alone :
      (req : TokenRequest) (r : Race Renewal) (i : ℕ)
      → r.calls i ≡ ready req
      → let alone = run (renewal_step ext) (i ∷ i ∷ i ∷ i ∷ []) r in
        (alone.calls i ≡ finished (grant_refresh_token ext req r.world).0)
        × (alone.world ≡ (grant_refresh_token ext req r.world).1)
  renewal_alone req r i at_start =
      let alone = run (renewal_step ext) (i ∷ i ∷ i ∷ i ∷ []) r in
      let e : seen i alone ≡ ended (grant_refresh_token ext req r.world) =
        seen-run_four (renewal_step ext) i r
        ∙ ap (λ c. on (on (on (on (c, r.world))))) at_start
        ∙ four-ended req r.world in
      (ap (λ p. p.0) e, ap (λ p. p.1) e)
