-- ===== src/Oidc/Claims.antt =====
-- What the discovery document announces of an ID token.
use oauth_2_0_and_open_id_co.Model.{User}
use oauth_2_0_and_open_id_co.Time.{add, unix, Time}
use oauth_2_0_and_open_id_co.Oidc.{AppConfig, build_discovery}
use oauth_2_0_and_open_id_co.Dict.{get-put, get-empty}
use oauth_2_0_and_open_id_co.Generator.{id_claims, user_claims, TokenGenerator}
use oauth_2_0_and_open_id_co.External.{number, text, ClaimValue, MapClaims, External}
use oauth_2_0_and_open_id_co.Base.{
  ◌∙◌, sym, inr, eq-of-==, refl, contains_iff, inl, Has, none, ◌==◌, ℕ, false, Bool-cases, some,
  Option, true, ◌≡◌, contains, [], if◌then◌else◌, ◌∷◌, Bool, String, List,
}
use oauth_2_0_and_open_id_co.Dict

-- Every key of the claims is in the list.
abbrev IsWithin : List String → MapClaims → Type 0
IsWithin keys claims =
    (key : String) (v : ClaimValue) → Dict.get claims key ≡ some v → contains keys key ≡ true

module _ (keys : List String) where
  empty-IsWithin : IsWithin keys Dict.empty
  empty-IsWithin key v h = cc (h, get-empty {V = ClaimValue} key)

  put-IsWithin :
      (claims : MapClaims) (name : String) (value : ClaimValue)
      → contains keys name ≡ true
      → IsWithin keys claims
      → IsWithin keys (Dict.put claims name value)
  put-IsWithin claims name value known h key v there = elim (Bool-cases (name == key)) [
    | inl p ↦ rw (sym (eq-of-== name key p)) known
    | inr p ↦ h key v (sym (get-put claims name value key ∙ rw p refl) ∙ there)
  ]

  if-IsWithin :
      (b : Bool) (one two : MapClaims)
      → IsWithin keys one
      → IsWithin keys two
      → IsWithin keys (if b then one else two)
  if-IsWithin true one two left right = left
  if-IsWithin false one two left right = right

abbrev announced : List String
announced =
    "sub" ∷ "iss" ∷ "aud" ∷ "exp" ∷ "iat" ∷ "auth_time" ∷ "nonce" ∷ "name" ∷ "email"
    ∷ "email_verified" ∷ []

module _ (ext : External) (g : TokenGenerator) where
  user_claims-IsWithin :
      (user : Option User) (scope : String) (claims : MapClaims)
      → IsWithin announced claims
      → IsWithin announced (user_claims ext g user scope claims)
  unfolding user_claims contains
  user_claims-IsWithin none scope claims h = h
  user_claims-IsWithin (some user) scope claims h =
      let emailed =
        if-IsWithin announced _ _ claims
          (put-IsWithin announced _ "email_verified" _ refl
            (put-IsWithin announced claims "email" _ refl h))
          h in
      if-IsWithin announced _ _ _ (put-IsWithin announced _ "name" _ refl emailed) emailed

  id_claims-IsWithin :
      (now : Time) (client_id user_id nonce : String) (auth_time : ℕ) (user : Option User)
      (scope : String)
      → IsWithin announced (id_claims ext g now client_id user_id nonce auth_time user scope)
  unfolding id_claims contains
  id_claims-IsWithin now client_id user_id nonce auth_time user scope =
      let k0 = put-IsWithin announced _ "iss" (text g.issuer) refl (empty-IsWithin announced) in
      let k1 = put-IsWithin announced _ "sub" (text user_id) refl k0 in
      let k2 = put-IsWithin announced _ "aud" (text client_id) refl k1 in
      let k3 = put-IsWithin announced _ "exp" (number (unix (add now g.id_token_expiry))) refl k2 in
      let k4 = put-IsWithin announced _ "iat" (number (unix now)) refl k3 in
      let k5 = put-IsWithin announced _ "auth_time" (number auth_time) refl k4 in
      let k6 = put-IsWithin announced _ "nonce" (text nonce) refl k5 in
      user_claims-IsWithin user scope _ (if-IsWithin announced (nonce == "") _ _ k5 k6)

  -- Every claim of an ID token is one that the discovery document announces.
  pub id_claims-announced :
      (config : AppConfig) (now : Time) (client_id user_id nonce : String) (auth_time : ℕ)
      (user : Option User) (scope key : String) (v : ClaimValue)
      → Dict.get (id_claims ext g now client_id user_id nonce auth_time user scope) key ≡ some v
      → Has key (build_discovery config).claims_supported
  unfolding build_discovery
  id_claims-announced config now client_id user_id nonce auth_time user scope key v h =
      (contains_iff announced key).0
        (id_claims-IsWithin now client_id user_id nonce auth_time user scope key v h)
