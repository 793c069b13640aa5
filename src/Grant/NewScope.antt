-- ===== src/Grant/NewScope.antt =====
-- The scope of the tokens that a refresh issues: it was granted on the request's scope, or on the
-- old one if the request has none, and a requested one was found to be narrower.

use oauth_2_0_and_open_id_co.Scope.{is_scope_narrowed, split_spaces}
use oauth_2_0_and_open_id_co.Scope.Laws.{is_scope_narrowed_iff, Grants}
use oauth_2_0_and_open_id_co.Store.{TokenInfo, Client}
use oauth_2_0_and_open_id_co.Base.{
  inr, true, eq_iff, arith, ◌⊎◌, ◌≡◌, inl, ◌≢◌, Has, All-of_Has, All, String,
}
use oauth_2_0_and_open_id_co.Grant.{default_scope, TokenRequest}

abbrev pub IsNewScope : TokenRequest → Client → TokenInfo → String → Type 0
IsNewScope req client old scope =
    Grants client (default_scope req.scope old.scope) scope
    × ((req.scope ≡ "") ⊎ (is_scope_narrowed scope old.scope ≡ true))

-- A scope string whose scopes are all in another.
abbrev pub IsWithin : String → String → Type 0
IsWithin scope original = All (λ s. Has s (split_spaces original)) (split_spaces scope)

pub IsWithin-self : (scope : String) → IsWithin scope scope
IsWithin-self scope = All-of_Has (λ s. Has s (split_spaces scope)) (split_spaces scope) (λ s m. m)

pub IsNewScope-IsWithin :
    (req : TokenRequest) (client : Client) (old : TokenInfo) (scope : String)
    → old.scope ≢ ""
    → IsNewScope req client old scope
    → IsWithin scope old.scope
IsNewScope-IsWithin req client old scope full (granted, inl unasked) =
    let same : scope ≡ old.scope = ground (arith, eq_iff req.scope "") in
    rw same (IsWithin-self old.scope)
IsNewScope-IsWithin req client old scope full (granted, inr narrowed) =
    elim ((is_scope_narrowed_iff scope old.scope).0 narrowed) [
      | inl empty ↦ absurd (full empty)
      | inr within ↦ within
    ]
