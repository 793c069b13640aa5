-- ===== src/Bearer/Revoke.antt =====
-- Token revocation leaves the access tokens of other clients alone.
use oauth_2_0_and_open_id_co.Time.{Time}
use oauth_2_0_and_open_id_co.Expiry.Laws.{view, get-fetch}
use oauth_2_0_and_open_id_co.Dict.{get-delete}
use oauth_2_0_and_open_id_co.Server.Loads.{
  view-some, load_access_token-eq, load_refresh_token-eq, load_access_token-ok,
  load_refresh_token-ok,
}
use oauth_2_0_and_open_id_co.Action.{proceed_of_ok, ◌>>=◌, proceed}
use oauth_2_0_and_open_id_co.Store
use oauth_2_0_and_open_id_co.Dict
use oauth_2_0_and_open_id_co.Bearer.{
  revoke_with_hint, revoke_token, revoke_any, is_owned, revoke_access, drop_access,
  revoke_own_refresh, revoke_refresh, drop_refresh,
}
use oauth_2_0_and_open_id_co.Server.{load_access_token, load_refresh_token, World}
use oauth_2_0_and_open_id_co.Store.{token_expiry, TokenInfo}
use oauth_2_0_and_open_id_co.Base.{
  true, false, if◌then◌else◌, ◌==◌, Bool, inr, Option-cases, inl, Bool-cases, true, refl, sym, ◌∙◌,
  ap, none, eq_iff, arith, ◌≢◌, ◌≤◌, some, ◌≡◌, Option, String,
}
use oauth_2_0_and_open_id_co.External.{External}

module _ (ext : External) (token client_id t : String) (info : TokenInfo) where
  -- The entry that has to stay.
  abbrev pub IsKept : World → Type 0
  IsKept w = Dict.get w.tokens.access_tokens t ≡ some info

  -- No refresh token of the client that is presented goes with the entry.
  abbrev pub IsUnlinked : Option TokenInfo → Type 0
  IsUnlinked found =
      (old : TokenInfo) → found ≡ some old → old.client_id ≡ client_id → old.access_token ≢ t

  drop_refresh-IsKept :
      (old : TokenInfo) (w : World)
      → IsKept w
      → old.access_token ≢ t
      → IsKept (drop_refresh ext token old w).1
  unfolding drop_refresh proceed Store.delete_refresh_token Store.delete_access_token
  drop_refresh-IsKept old w h n =
      ground
        (arith, get-delete w.tokens.access_tokens old.access_token t, eq_iff old.access_token t)

  revoke_refresh-IsKept :
      (found : Option TokenInfo) (w : World)
      → IsKept w
      → IsUnlinked found
      → IsKept (revoke_refresh ext token client_id found w).1
  unfolding revoke_refresh proceed
  revoke_refresh-IsKept none w h n = h
  revoke_refresh-IsKept (some old) w h n =
      ground (arith, drop_refresh-IsKept old w h, n old, eq_iff old.client_id client_id)

  revoke_own_refresh-IsKept :
      (found : Option TokenInfo) (w : World)
      → IsKept w
      → IsUnlinked found
      → IsKept (revoke_own_refresh ext token client_id found w).1
  unfolding revoke_own_refresh
  revoke_own_refresh-IsKept none w h n = h
  revoke_own_refresh-IsKept (some old) w h n =
      ground (arith, drop_refresh-IsKept old w h, n old, eq_iff old.client_id client_id)

  drop_access-IsKept : (w : World) → IsKept w → token ≢ t → IsKept (drop_access ext token w).1
  unfolding drop_access Store.delete_access_token
  drop_access-IsKept w h n =
      ground (arith, get-delete w.tokens.access_tokens token t, eq_iff token t)

  -- What is found under the presented token, if that is the entry, is the entry of another client.
  abbrev IsForeign : Option TokenInfo → Type 0
  IsForeign found = token ≡ t → (found ≡ some info) × (info.client_id ≢ client_id)

  revoke_access-IsKept :
      (found : Option TokenInfo) (w : World)
      → IsKept w
      → IsForeign found
      → IsKept (revoke_access ext token client_id found w).1
  unfolding revoke_access proceed
  revoke_access-IsKept none w h n = h
  revoke_access-IsKept (some old) w h n =
      ground (arith, drop_access-IsKept w h, n, eq_iff old.client_id client_id, eq_iff token t)

  -- Loads of the entry, and of other entries, keep it while it is alive.
  load_access-IsKept :
      (w : World)
      → IsKept w
      → ext.now w.clock ≤ info.expires_at
      → IsKept (load_access_token ext token w).1
  load_access-IsKept w h alive =
      let loads = load_access_token-ok ext token w _ _ (load_access_token-eq ext token w) in
      rw loads.6 (
        rw (get-fetch token_expiry (ext.now w.clock) w.tokens.access_tokens token t)
          (ground (arith, eq_iff token t)))

  load_refresh-IsKept : (w : World) → IsKept w → IsKept (load_refresh_token ext token w).1
  load_refresh-IsKept w h =
      let loads = load_refresh_token-ok ext token w _ _ (load_refresh_token-eq ext token w) in
      rw loads.5 h

  module _ (w : World) (kept : IsKept w) (alive : ext.now w.clock ≤ info.expires_at)
      (foreign : info.client_id ≢ client_id)
      (unlinked : IsUnlinked (Dict.get w.tokens.refresh_tokens token)) where
    abbrev first_access : Option TokenInfo
    first_access = view token_expiry (ext.now w.clock) w.tokens.access_tokens token

    first_access-IsForeign : IsForeign first_access
    first_access-IsForeign e =
        (ap (view token_expiry (ext.now w.clock) w.tokens.access_tokens) e ∙ ground arith, foreign)

    view-IsUnlinked :
        (now : Time) (d : Dict.Dict TokenInfo)
        → Dict.get d token ≡ Dict.get w.tokens.refresh_tokens token
        → IsUnlinked (view token_expiry now d token)
    view-IsUnlinked now d same old e own =
        unlinked old (sym same ∙ (view-some token_expiry now d token old e).0) own

    hinted_refresh :
        IsKept
          ((load_refresh_token ext token >>= λ found. revoke_refresh ext token client_id found) w).1
    hinted_refresh =
        rw
          (proceed_of_ok (load_refresh_token ext token w) (revoke_refresh ext token client_id)
            (load_refresh_token-eq ext token w))
          (revoke_refresh-IsKept _ _ (load_refresh-IsKept w kept)
            (view-IsUnlinked (ext.now w.clock) w.tokens.refresh_tokens refl))

    hinted_access :
        IsKept
          ((load_access_token ext token >>= λ found. revoke_access ext token client_id found) w).1
    hinted_access =
        rw
          (proceed_of_ok (load_access_token ext token w) (revoke_access ext token client_id)
            (load_access_token-eq ext token w))
          (revoke_access-IsKept _ _ (load_access-IsKept w kept alive) first_access-IsForeign)

    abbrev once_loaded : World
    once_loaded = (load_access_token ext token w).1

    not_owned : is_owned ext client_id first_access ≡ true → token ≢ t
    unfolding is_owned
    not_owned owned e =
        let there : first_access ≡ some info = (first_access-IsForeign e).0 in
        foreign ((eq_iff info.client_id client_id).0 (rw there at owned))

    then_refresh :
        IsKept
          ((load_refresh_token ext token >>= λ found. revoke_own_refresh ext token client_id found)
            once_loaded).1
    then_refresh =
        let loads = load_access_token-ok ext token w _ _ (load_access_token-eq ext token w) in
        rw
          (proceed_of_ok (load_refresh_token ext token once_loaded)
            (revoke_own_refresh ext token client_id) (load_refresh_token-eq ext token once_loaded))
          (revoke_own_refresh-IsKept _ _
            (load_refresh-IsKept once_loaded (load_access-IsKept w kept alive))
            (view-IsUnlinked (ext.now once_loaded.clock) once_loaded.tokens.refresh_tokens
              (ap (λ d. Dict.get d token) loads.4)))

    unhinted : IsKept (revoke_any ext token client_id w).1
    unfolding revoke_any
    unhinted =
        rw (proceed_of_ok (load_access_token ext token w) _ (load_access_token-eq ext token w))
          (elim (Bool-cases (is_owned ext client_id first_access)) [
            | inl owned ↦
                rw owned (
                  drop_access-IsKept once_loaded (load_access-IsKept w kept alive)
                    (not_owned owned))
            | inr other ↦ rw other then_refresh
          ])

    by_hint :
        (b c : Bool)
        → IsKept
            ((if b
                then (load_refresh_token ext token >>= λ found.
                    revoke_refresh ext token client_id found)
                else if c
                then (load_access_token ext token >>= λ found.
                    revoke_access ext token client_id found)
                else revoke_any ext token client_id)
              w).1
    by_hint true c = hinted_refresh
    by_hint false true = hinted_access
    by_hint false false = unhinted

    -- Whoever revokes whatever with whatever hint, an access token of another client that is stored
    -- and alive stays, unless it goes with a refresh token of the revoking client.
    pub revoke_token-IsKept : (hint : String) → IsKept (revoke_token ext token hint client_id w).1
    unfolding revoke_token revoke_with_hint proceed
    revoke_token-IsKept hint = elim (Option-cases (Store.get_by_id w.clients client_id)) [
      | inl unknown ↦ rw unknown kept
      | inr (client, known) ↦ rw known (by_hint (hint == "refresh_token") (hint == "access_token"))
    ]
