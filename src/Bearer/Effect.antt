-- ===== src/Bearer/Effect.antt =====
-- What a client achieves when it revokes an access token of its own, and what a wrong hint costs it.
use oauth_2_0_and_open_id_co.Server.Loads.{
  load_refresh_token-eq, load_refresh_token-ok, load_access_token-eq,
}
use oauth_2_0_and_open_id_co.Dict
use oauth_2_0_and_open_id_co.Dict.{get-delete}
use oauth_2_0_and_open_id_co.Action.{proceed_of_ok, ◌>>=◌, proceed, ok, Result}
use oauth_2_0_and_open_id_co.Expiry.Laws.{fresh, view}
use oauth_2_0_and_open_id_co.Bearer.{
  revoke_refresh, is_owned, revoke_any, revoke_access, revoke_with_hint, revoke_token, drop_access,
}
use oauth_2_0_and_open_id_co.Store
use oauth_2_0_and_open_id_co.Store.{token_expiry, TokenInfo, Client}
use oauth_2_0_and_open_id_co.Server.{load_refresh_token, load_access_token, World}
use oauth_2_0_and_open_id_co.Base.{
  refl, inr, inl, ◌==◌, Bool-cases, ==-of-ne, ap, none, ◌≢◌, eq_refl, ◌∙◌, some, ◌≡◌, String,
}
use oauth_2_0_and_open_id_co.External.{External}

module _ (ext : External) (token hint client_id : String) (w : World) (client : Client)
    (info : TokenInfo) (known : Store.get_by_id w.clients client_id ≡ some client)
    (own : info.client_id ≡ client_id) where
  abbrev pub IsDone : Result {0} Unit × World → Type 0
  IsDone r = (r.0 ≡ ok tt) × (Dict.get r.1.tokens.access_tokens token ≡ none)

  dropped : (v : World) → IsDone (drop_access ext token v)
  unfolding drop_access Store.delete_access_token
  dropped v = (refl, get-delete v.tokens.access_tokens token token ∙ rw (eq_refl token))

  abbrev loaded : World
  loaded = (load_access_token ext token w).1

  module _
      (there : view token_expiry (ext.now w.clock) w.tokens.access_tokens token ≡ some info) where
    found : load_access_token ext token w ≡ (ok (some info), loaded)
    found = load_access_token-eq ext token w ∙ ap (λ o. (ok o, loaded)) there

    hinted : IsDone ((load_access_token ext token >>= λ o. revoke_access ext token client_id o) w)
    unfolding revoke_access
    hinted =
        rw (proceed_of_ok (load_access_token ext token w) (revoke_access ext token client_id) found)
          (rw (own, eq_refl client_id) (unfold proceed in dropped loaded))

    unhinted : IsDone (revoke_any ext token client_id w)
    unfolding revoke_any is_owned
    unhinted =
        rw (proceed_of_ok (load_access_token ext token w) _ found)
          (rw (own, eq_refl client_id) (dropped loaded))

    -- A registered client that revokes a live access token of its own succeeds, and the token is gone,
    -- if the hint is not "refresh_token".
    pub revoke_token-IsDone :
        hint ≢ "refresh_token" → IsDone (revoke_token ext token hint client_id w)
    unfolding revoke_token revoke_with_hint proceed
    revoke_token-IsDone n =
        rw (known, ==-of-ne hint "refresh_token" n)
          (elim (Bool-cases (hint == "access_token")) [
            | inl e ↦ rw e hinted
            | inr e ↦ rw e unhinted
          ])

  -- With the hint "refresh_token" the same client is told that all went well, and the access token
  -- stays: the search is not extended to the access tokens.
  pub revoke_token_wrong_hint :
      hint ≡ "refresh_token"
      → Dict.get w.tokens.refresh_tokens token ≡ none
      → Dict.get w.tokens.access_tokens token ≡ some info
      → ((revoke_token ext token hint client_id w).0 ≡ ok tt)
        × (Dict.get (revoke_token ext token hint client_id w).1.tokens.access_tokens token
            ≡ some info)
  unfolding revoke_token revoke_with_hint proceed revoke_refresh
  revoke_token_wrong_hint e missing there =
      let loads = load_refresh_token-ok ext token w _ _ (load_refresh_token-eq ext token w) in
      let none_found : load_refresh_token ext token w
          ≡ (ok none, (load_refresh_token ext token w).1) =
        load_refresh_token-eq ext token w
        ∙ ap (λ o. (ok o, (load_refresh_token ext token w).1))
            (ap (fresh token_expiry (ext.now w.clock)) missing) in
      rw (e, known, none_found) (refl, ap (λ d. Dict.get d token) loads.5 ∙ there)
