-- ===== src/Scope/Laws.antt =====
-- What the scope checks decide.
use oauth_2_0_and_open_id_co.Scope.Join.{split_spaces-join}
use oauth_2_0_and_open_id_co.Scope.Words.{IsWord}
use oauth_2_0_and_open_id_co.Errors.{err_invalid_scope, oauth, Error}
use oauth_2_0_and_open_id_co.Base.{
  All-of_Has, concat, Bool-cases, join, inr, ◌≢◌, inl, ◌⊎◌, eq_iff, String, Bool, true, ◌||◌, List,
  [], ◌∷◌, ◌∙◌, refl, ◌≡◌, ◌↔◌, All, Has, contains, contains_iff, arith,
}
use oauth_2_0_and_open_id_co.Dict
use oauth_2_0_and_open_id_co.Dict.{Dict, get-put, get-empty}
use oauth_2_0_and_open_id_co.Scope.{
  space, err, ok, validate_client_scope, checked_scope, refuse_missing, Client, is_scope_narrowed,
  split_spaces, contains_scope, add_scopes, scope_set, in_set, all_in_set,
}

-- A scope string contains a scope exactly when the scope is one of its parts.
pub contains_scope_iff :
    (scope target : String) → (contains_scope scope target ≡ true) ↔ Has target (split_spaces scope)
unfolding contains_scope
contains_scope_iff scope target = contains_iff (split_spaces scope) target

in_set-add_scopes :
    (m : Dict Bool) (scopes : List String) (s : String)
    → in_set (add_scopes m scopes) s ≡ (contains scopes s || in_set m s)
unfolding add_scopes in_set contains
in_set-add_scopes m [] s = refl
in_set-add_scopes m (t ∷ scopes) s =
    in_set-add_scopes (Dict.put m t true) scopes s ∙ ground (arith, get-put m t true s)

in_set-scope_set :
    (scopes : List String) (s : String) → in_set (scope_set scopes) s ≡ contains scopes s
unfolding scope_set
in_set-scope_set scopes s =
    in_set-add_scopes Dict.empty scopes s
    ∙ (unfold in_set in ground (arith, get-empty {V = Bool} s))

in_set_iff :
    (scopes : List String) (s : String) → (in_set (scope_set scopes) s ≡ true) ↔ Has s scopes
in_set_iff scopes s = rw (in_set-scope_set scopes s) (contains_iff scopes s)

all_in_set_iff :
    (original requested : List String)
    → (all_in_set (scope_set original) requested ≡ true) ↔ All (λ s. Has s original) requested
unfolding all_in_set
all_in_set_iff original [] = ground arith
all_in_set_iff original (s ∷ requested) =
    ground (arith, in_set_iff original s, all_in_set_iff original requested)

-- Narrowing: no original scope, or every requested scope is an original one.
pub is_scope_narrowed_iff :
    (requested original : String)
    → (is_scope_narrowed requested original ≡ true)
      ↔ ((original ≡ "") ⊎ All (λ s. Has s (split_spaces original)) (split_spaces requested))
unfolding is_scope_narrowed
is_scope_narrowed_iff requested original =
    ground
      (arith, eq_iff original "", all_in_set_iff (split_spaces original) (split_spaces requested))

-- When a client is granted `granted` on a request for `requested`: anything if it has no list of
-- scopes, its whole list if it names none, and else what it names, if the list holds all of that.
abbrev pub Grants : Client → String → String → Type 0
Grants client requested granted =
    ((client.scopes ≡ []) × (granted ≡ requested))
    ⊎ ((client.scopes ≢ []) × (requested ≡ "") × (granted ≡ join client.scopes " "))
    ⊎ ((client.scopes ≢ [])
        × (requested ≢ "")
        × All (λ s. Has s client.scopes) (split_spaces requested)
        × (granted ≡ requested))

abbrev pub refusal : (String → String) → Client → String → Error
refusal quote client s = oauth (
    err_invalid_scope
      (concat ("scope " ∷ quote s ∷ " is not allowed for client " ∷ quote client.id ∷ [])))

module _ (quote : String → String) (client : Client) where
  refuse_missing_iff :
      (scopes requested : List String) (granted result : String)
      → (refuse_missing quote client (scope_set scopes) requested granted ≡ ok result)
        ↔ (All (λ s. Has s scopes) requested × (granted ≡ result))
  unfolding refuse_missing
  refuse_missing_iff scopes [] granted result = ground arith
  refuse_missing_iff scopes (s ∷ requested) granted result =
      ground (arith, in_set_iff scopes s, refuse_missing_iff scopes requested granted result)

  -- The scope that a request is refused for.
  abbrev pub Refused : List String → List String → Error → Type 0
  Refused scopes requested e =
      (s : String) × Has s requested × (Has s scopes → ⊥) × (e ≡ refusal quote client s)

  refuse_missing-Refused :
      (scopes requested : List String) (granted : String) (e : Error)
      → refuse_missing quote client (scope_set scopes) requested granted ≡ err e
      → Refused scopes requested e
  unfolding refuse_missing
  refuse_missing-Refused scopes [] granted e h = cc
  refuse_missing-Refused scopes (s ∷ requested) granted e h =
      elim (Bool-cases (in_set (scope_set scopes) s)) [
        | inl here ↦
            let (t, m, n, q) = refuse_missing-Refused scopes requested granted e (ground arith) in
            (t, inr m, n, q)
        | inr missing ↦ (s, inl refl, λ m. cc (missing, (in_set_iff scopes s).1 m), ground arith)
      ]

  checked_scope_iff :
      (scopes : List String) (requested granted : String)
      → (checked_scope quote client scopes requested ≡ ok granted)
        ↔ Grants (record client { scopes = scopes }) requested granted
  unfolding checked_scope
  checked_scope_iff [] requested granted = ground arith
  checked_scope_iff (a ∷ scopes) requested granted = ground (
    arith,
    eq_iff requested "",
    refuse_missing_iff (a ∷ scopes) (split_spaces requested) requested granted,
  )

  checked_scope-Refused :
      (scopes : List String) (requested : String) (e : Error)
      → checked_scope quote client scopes requested ≡ err e
      → Refused scopes (split_spaces requested) e
  unfolding checked_scope
  checked_scope-Refused [] requested e h = cc
  checked_scope-Refused (a ∷ scopes) requested e h =
      refuse_missing-Refused (a ∷ scopes) (split_spaces requested) requested e
        (ground (arith, eq_iff requested ""))

  -- The check grants exactly what the list of scopes allows.
  pub validate_client_scope_iff :
      (requested granted : String)
      → (validate_client_scope quote client requested ≡ ok granted)
        ↔ Grants client requested granted
  unfolding validate_client_scope
  validate_client_scope_iff requested granted = checked_scope_iff client.scopes requested granted

  -- A refusal is an invalid_scope error that names a requested scope which the list does not hold.
  pub validate_client_scope-Refused :
      (requested : String) (e : Error)
      → validate_client_scope quote client requested ≡ err e
      → Refused client.scopes (split_spaces requested) e
  unfolding validate_client_scope
  validate_client_scope-Refused requested e h = checked_scope-Refused client.scopes requested e h

-- Every granted scope stands in the client's list, if it has one.
abbrev pub Permits : Client → String → Type 0
Permits client granted =
    (client.scopes ≡ []) ⊎ All (λ s. Has s client.scopes) (split_spaces granted)

-- The client's own list, joined and split again, is the list: no scope in it is empty or has a space.
abbrev pub HasPlainScopes : Client → Type 0
HasPlainScopes client = All (IsWord space) client.scopes

pub Grants-Permits :
    (client : Client) (requested granted : String)
    → HasPlainScopes client
    → Grants client requested granted
    → Permits client granted
Grants-Permits client requested granted plain (inl (none_listed, _)) = inl none_listed
Grants-Permits client requested granted plain (inr (inl (_, _, e))) = inr (
    rw (e, split_spaces-join client.scopes plain)
      (All-of_Has (λ s. Has s client.scopes) client.scopes (λ s m. m)))
Grants-Permits client requested granted plain (inr (inr (_, _, all, e))) = inr (rw e all)

-- What the check grants, the list permits, also where the request names no scope.
pub validate_client_scope-Permits :
    (quote : String → String) (client : Client) (requested granted : String)
    → HasPlainScopes client
    → validate_client_scope quote client requested ≡ ok granted
    → Permits client granted
validate_client_scope-Permits quote client requested granted plain h =
    Grants-Permits client requested granted plain
      ((validate_client_scope_iff quote client requested granted).0 h)
