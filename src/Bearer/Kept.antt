-- ===== src/Bearer/Kept.antt =====
-- The bearer check and the revocation keep what the clock, the loads and the deletions of tokens keep.
use oauth_2_0_and_open_id_co.Store
use oauth_2_0_and_open_id_co.Action.Frame.{keeps_rules, Keeps-pure, Keeps}
use oauth_2_0_and_open_id_co.Base.{none, some, Option, String}
use oauth_2_0_and_open_id_co.Bearer.{
  drop_access, revoke_token, revoke_with_hint, revoke_any, revoke_own_refresh, revoke_access,
  revoke_refresh, drop_refresh, validate_bearer_token,
}
use oauth_2_0_and_open_id_co.Grant.Frame.{OfCodes, Keeps-read_clock, Keeps-update_tokens}
use oauth_2_0_and_open_id_co.Server.{
  update_tokens, read_clock, World, load_refresh_token, load_access_token,
}
use oauth_2_0_and_open_id_co.External.{External}
use oauth_2_0_and_open_id_co.Store.{TokenInfo, ClientStore, AuthCodeStore}

module _ (ext : External) (P : World → Type 0) (ticks : Keeps P (read_clock ext))
    (loads_access : (key : String) → Keeps P (load_access_token ext key))
    (loads_refresh : (key : String) → Keeps P (load_refresh_token ext key))
    (drops_access : (key : String) → Keeps P (update_tokens (λ s. Store.delete_access_token s key)))
    (drops_refresh : (key : String)
      → Keeps P (update_tokens (λ s. Store.delete_refresh_token s key))) where
  pub Keeps-validate_bearer_token : (text : String) → Keeps P (validate_bearer_token ext text)
  unfolding validate_bearer_token
  Keeps-validate_bearer_token text = search keeps_rules depth 40

  Keeps-drop_refresh : (token : String) (info : TokenInfo) → Keeps P (drop_refresh ext token info)
  unfolding drop_refresh
  Keeps-drop_refresh token info = search keeps_rules depth 40

  Keeps-revoke_refresh :
      (token client_id : String) (o : Option TokenInfo)
      → Keeps P (revoke_refresh ext token client_id o)
  unfolding revoke_refresh
  Keeps-revoke_refresh token client_id none = Keeps-pure tt
  Keeps-revoke_refresh token client_id (some info) =
      search (keeps_rules, Keeps-drop_refresh) depth 40

  Keeps-revoke_access :
      (token client_id : String) (o : Option TokenInfo)
      → Keeps P (revoke_access ext token client_id o)
  unfolding revoke_access drop_access
  Keeps-revoke_access token client_id none = Keeps-pure tt
  Keeps-revoke_access token client_id (some info) = search keeps_rules depth 40

  Keeps-revoke_own_refresh :
      (token client_id : String) (o : Option TokenInfo)
      → Keeps P (revoke_own_refresh ext token client_id o)
  unfolding revoke_own_refresh
  Keeps-revoke_own_refresh token client_id none = Keeps-pure tt
  Keeps-revoke_own_refresh token client_id (some info) =
      search (keeps_rules, Keeps-drop_refresh) depth 40

  Keeps-revoke_any : (token client_id : String) → Keeps P (revoke_any ext token client_id)
  unfolding revoke_any drop_access
  Keeps-revoke_any token client_id = search (keeps_rules, Keeps-revoke_own_refresh) depth 40

  Keeps-revoke_with_hint :
      (token hint client_id : String) → Keeps P (revoke_with_hint ext token hint client_id)
  unfolding revoke_with_hint
  Keeps-revoke_with_hint token hint client_id =
      search (keeps_rules, Keeps-revoke_refresh, Keeps-revoke_access, Keeps-revoke_any) depth 40

  pub Keeps-revoke_token :
      (token hint client_id : String) → Keeps P (revoke_token ext token hint client_id)
  unfolding revoke_token
  Keeps-revoke_token token hint client_id = search (keeps_rules, Keeps-revoke_with_hint) depth 40

-- They leave the codes and the clients as they are.
module _ (ext : External) (Q : AuthCodeStore → ClientStore → Type 0) where
  Keeps-load_access : (key : String) → Keeps (OfCodes Q) (load_access_token ext key)
  unfolding load_access_token
  Keeps-load_access key = record { at = λ w h. h }

  Keeps-load_refresh : (key : String) → Keeps (OfCodes Q) (load_refresh_token ext key)
  unfolding load_refresh_token
  Keeps-load_refresh key = record { at = λ w h. h }

  pub validate_bearer_token-OfCodes :
      (text : String) → Keeps (OfCodes Q) (validate_bearer_token ext text)
  validate_bearer_token-OfCodes =
      Keeps-validate_bearer_token ext (OfCodes Q) (Keeps-read_clock Q ext) Keeps-load_access
        Keeps-load_refresh (λ key. Keeps-update_tokens Q _) (λ key. Keeps-update_tokens Q _)

  pub revoke_token-OfCodes :
      (token hint client_id : String) → Keeps (OfCodes Q) (revoke_token ext token hint client_id)
  revoke_token-OfCodes =
      Keeps-revoke_token ext (OfCodes Q) (Keeps-read_clock Q ext) Keeps-load_access
        Keeps-load_refresh (λ key. Keeps-update_tokens Q _) (λ key. Keeps-update_tokens Q _)
