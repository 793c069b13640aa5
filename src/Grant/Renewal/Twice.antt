-- ===== src/Grant/Renewal/Twice.antt =====
-- Refreshes that hold the same old token, since each got it from the store before one of them deleted
-- it.
use oauth_2_0_and_open_id_co.Base.{ℕ, ◌≤◌, String, ◌≡◌, ◌⊎◌, List, ◌++◌, true}
use oauth_2_0_and_open_id_co.Action.{ok}
use oauth_2_0_and_open_id_co.External.{External, PrivateKey, JwtToken, value}
use oauth_2_0_and_open_id_co.Encoding.{Bytes}
use oauth_2_0_and_open_id_co.Store.{Client, TokenInfo}
use oauth_2_0_and_open_id_co.Grant.{TokenRequest, TokenResponse, default_scope}
use oauth_2_0_and_open_id_co.Grant.Complete.Refresh.{check_refresh_of}
use oauth_2_0_and_open_id_co.Grant.Renewal.{Renewal, holding, finished, renewal_step}
use oauth_2_0_and_open_id_co.Grant.Renewal.Held.{holding_renews}
use oauth_2_0_and_open_id_co.Scope.{is_scope_narrowed}
use oauth_2_0_and_open_id_co.Scope.Laws.{Grants, validate_client_scope_iff}
use oauth_2_0_and_open_id_co.Turns.{Race, run, run-append, times}

-- What the refresh asks of a refresh token that it got from the store, for the client of the request.
pub record IsRenewable (req : TokenRequest) (client : Client) (old : TokenInfo) : Type 0 where
  pub owner : old.client_id ≡ req.client_id
  pub scope : String
  pub granted : Grants client (default_scope req.scope old.scope) scope
  pub narrowed : (req.scope ≡ "") ⊎ (is_scope_narrowed scope old.scope ≡ true)

module _ (ext : External)
    (signs : (token : JwtToken) (key : PrivateKey)
      → (jwt : String) × (ext.signed_string token key ≡ value jwt))
    (draws : (n count : ℕ) → (b : Bytes) × (ext.rand_read n count ≡ value b)) where
  -- A refresh that holds a token after some turns succeeds with two turns more.
  held_renews :
      (r : Race Renewal) (before after : List ℕ) (i : ℕ) (req : TokenRequest) (client : Client)
      (old : TokenInfo)
      → (run (renewal_step ext) before r).calls i ≡ holding req client old
      → IsRenewable req client old
      → 2 ≤ times i after
      → (resp : TokenResponse) × ((run (renewal_step ext) (before ++ after) r).calls i
          ≡ finished (ok resp))
  held_renews r before after i req client old held may enough =
      let wanted = default_scope req.scope old.scope in
      rw (run-append (renewal_step ext) before after r) (
        holding_renews ext signs draws req client old may.scope after
          (run (renewal_step ext) before r) i held
          (λ w.
            check_refresh_of ext req client old may.scope w may.owner
              ((validate_client_scope_iff ext.quote client wanted may.scope).1 may.granted)
              may.narrowed)
          enough)

  -- If, at some moment of a run, two refreshes hold the same old token, each since it got it from the
  -- store and before it deletes it, then both succeed: the refresh token is used twice. This holds for
  -- any turns of all calls before that moment and after it, in which each of the two has the two turns
  -- that it still needs, also where one of the two, or another call, deletes the token in between. The
  -- requests may differ; for each, the token was issued to the client, the scope is one that the client
  -- may have and no wider than the old one where the request names one, and the signer and the random
  -- source always deliver.
  pub renewal_twice :
      (r : Race Renewal) (before after : List ℕ) (i j : ℕ) (req req' : TokenRequest)
      (client client' : Client) (old : TokenInfo)
      → (run (renewal_step ext) before r).calls i ≡ holding req client old
      → (run (renewal_step ext) before r).calls j ≡ holding req' client' old
      → IsRenewable req client old
      → IsRenewable req' client' old
      → 2 ≤ times i after
      → 2 ≤ times j after
      → let both = run (renewal_step ext) (before ++ after) r in
        ((resp : TokenResponse) × (both.calls i ≡ finished (ok resp)))
        × ((resp : TokenResponse) × (both.calls j ≡ finished (ok resp)))
  renewal_twice r before after i j req req' client client' old held_i held_j may_i may_j many more =
      (
        held_renews r before after i req client old held_i may_i many,
        held_renews r before after j req' client' old held_j may_j more,
      )
