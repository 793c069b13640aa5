-- ===== src/Tokens/Sound.antt =====
-- A map of tokens in which each stands under its own text and is for a registered client.
use oauth_2_0_and_open_id_co.Base.{
  ◌∙◌, String, ◌≡◌, some, arith, eq_iff, inl, inr, Bool-cases, ◌==◌, eq-of-==, not,
}
use oauth_2_0_and_open_id_co.Dict
use oauth_2_0_and_open_id_co.Dict.{Dict, get-delete, get-put, get-retain}
use oauth_2_0_and_open_id_co.Expiry.{fetch, sweep}
use oauth_2_0_and_open_id_co.Expiry.Laws.{get-fetch}
use oauth_2_0_and_open_id_co.Scope.Laws.{Permits}
use oauth_2_0_and_open_id_co.Store
use oauth_2_0_and_open_id_co.Store.{Client, ClientStore, TokenInfo, TokenStore, token_expiry}
use oauth_2_0_and_open_id_co.Time.{Time, after}

-- A registered client, and scopes of its list if it has one.
abbrev pub IsPermitted : ClientStore → String → String → Type 0
IsPermitted clients client_id scope =
    (client : Client) × (Store.get_by_id clients client_id ≡ some client) × Permits client scope

-- The tokens of a map, each of which is named by `name`.
abbrev pub IsSoundMap : (TokenInfo → String) → ClientStore → Dict TokenInfo → Type 0
IsSoundMap name clients d =
    (key : String) (info : TokenInfo)
    → Dict.get d key ≡ some info
    → (name info ≡ key) × IsPermitted clients info.client_id info.scope

abbrev pub access_name : TokenInfo → String
access_name info = info.access_token

abbrev pub refresh_name : TokenInfo → String
refresh_name info = info.refresh_token

-- Every token stands under its own text, and is for a registered client and for scopes of its list.
abbrev pub HasSoundTokens : TokenStore → ClientStore → Type 0
HasSoundTokens s clients =
    IsSoundMap access_name clients s.access_tokens
    × IsSoundMap refresh_name clients s.refresh_tokens

module _ (name : TokenInfo → String) (clients : ClientStore) (d : Dict TokenInfo)
    (sound : IsSoundMap name clients d) where
  pub delete-IsSoundMap : (key : String) → IsSoundMap name clients (Dict.delete d key)
  delete-IsSoundMap key k info there = sound k info (ground (arith, get-delete d key k))

  pub fetch-IsSoundMap :
      (now : Time) (key : String) → IsSoundMap name clients (fetch token_expiry now d key).1
  fetch-IsSoundMap now key k info there =
      sound k info (ground (arith, get-fetch token_expiry now d key k, eq_iff key k))

  pub sweep-IsSoundMap : (now : Time) → IsSoundMap name clients (sweep token_expiry now d)
  unfolding sweep
  sweep-IsSoundMap now k info there =
      sound k info (ground (arith, get-retain (λ t. not (after now (token_expiry t))) d k))

  pub put-IsSoundMap :
      (key : String) (info : TokenInfo)
      → name info ≡ key
      → IsPermitted clients info.client_id info.scope
      → IsSoundMap name clients (Dict.put d key info)
  put-IsSoundMap key new named permitted k info there = elim (Bool-cases (key == k)) [
    | inl p ↦
        let same : info ≡ new = ground (arith, get-put d key new k) in
        rw same (named ∙ eq-of-== key k p, permitted)
    | inr p ↦ sound k info (ground (arith, get-put d key new k))
  ]
