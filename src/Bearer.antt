-- ===== src/Bearer.antt =====
-- `ValidateBearerToken` and `RevokeToken` of internal/server/server.go, with what they use of
-- `strings.TrimPrefix` and `strings.TrimSpace`.
pub mod Kept
pub mod Validate
pub mod Revoke
pub mod Effect
use Prim.Native.Char.{code}
use Prim.Native.String.{len, slice}
use Prim.Native.String
use text.Mathlib.Text.{starts_with}
use oauth_2_0_and_open_id_co.Base.{
  ℕ, ◌+◌, ◌-◌, Char, String, Bool, true, false, ◌&&◌, ◌||◌, Option, none, some, ◌∷◌, [], ◌==◌,
  concat, if◌then◌else◌, leb,
}
use oauth_2_0_and_open_id_co.Errors.{Error, oauth, plain, error_text, err_invalid_client}
use oauth_2_0_and_open_id_co.Action.{
  Result, ok, err, Action, pure, fail, lift, read, or_fail, check, ◌>>=◌, ◌>>◌,
}
use oauth_2_0_and_open_id_co.External.{External}
use oauth_2_0_and_open_id_co.Store
use oauth_2_0_and_open_id_co.Store.{TokenInfo}
use oauth_2_0_and_open_id_co.Generator.{validate_access_token}
use oauth_2_0_and_open_id_co.Server.{
  World, read_clock, update_tokens, load_access_token, load_refresh_token,
}

-- strings.TrimPrefix(s, prefix)
unfoldable pub trim_prefix : String → String → String
trim_prefix s prefix = if starts_with s prefix then slice s (len prefix) (len s) else s

abbrev is_between : ℕ → ℕ → ℕ → Bool
is_between lo hi c = leb lo c && leb c hi

-- unicode.IsSpace
is_space_code : ℕ → Bool
is_space_code c =
    is_between 0x09 0x0d c
    || is_between 0x20 0x20 c
    || is_between 0x85 0x85 c
    || is_between 0xa0 0xa0 c
    || is_between 0x1680 0x1680 c
    || is_between 0x2000 0x200a c
    || is_between 0x2028 0x2029 c
    || is_between 0x202f 0x202f c
    || is_between 0x205f 0x205f c
    || is_between 0x3000 0x3000 c

trim_left : String → String
unfolding is_space_code
trim_left String.[] = String.[]
trim_left (String.◌∷◌ c s) =
    let rest = trim_left s in if is_space_code (code c) then rest else String.◌∷◌ c s

trim_right : String → String
unfolding is_space_code
trim_right String.[] = String.[]
trim_right (String.◌∷◌ c s) =
    let rest = trim_right s in
    if (rest == "") && is_space_code (code c) then "" else String.◌∷◌ c rest

-- strings.TrimSpace(s)
unfoldable pub trim_space : String → String
unfolding trim_left trim_right
trim_space s = trim_right (trim_left s)

-- The token of an Authorization header's value.
unfoldable pub bearer_of : String → String
unfolding trim_prefix trim_space
bearer_of s = trim_space (trim_prefix s "Bearer ")

abbrev pub invalid_token : Error → Error
invalid_token e = plain (concat ("invalid_token: " ∷ error_text e ∷ []))

abbrev pub claims_result {ℓ} : {A : Type ℓ} → Result A → Result A
claims_result (ok a) = ok a
claims_result (err e) = err (invalid_token e)

abbrev pub foreign_token : Error
foreign_token = oauth (err_invalid_client "token was not issued to this client")

module _ (ext : External) where
  unfoldable pub validate_bearer_token : String → Action World TokenInfo
  validate_bearer_token token_string = do
    now ← read_clock ext
    g ← read (λ w. w.generator)
    lift (claims_result (validate_access_token ext g now (bearer_of token_string)))
    found ← load_access_token ext (bearer_of token_string)
    or_fail (plain "invalid_token: token not found or revoked") found

  unfoldable pub drop_refresh : String → TokenInfo → Action World Unit
  drop_refresh token info = do
    update_tokens (λ s. Store.delete_refresh_token s token)
    update_tokens (λ s. Store.delete_access_token s info.access_token)

  unfoldable pub drop_access : String → Action World Unit
  drop_access token = update_tokens (λ s. Store.delete_access_token s token)

  -- case "refresh_token"
  unfoldable pub revoke_refresh : String → String → Option TokenInfo → Action World Unit
  revoke_refresh token client_id none = pure tt
  revoke_refresh token client_id (some info) = do
    check (info.client_id == client_id) foreign_token
    drop_refresh token info

  -- case "access_token"
  unfoldable pub revoke_access : String → String → Option TokenInfo → Action World Unit
  revoke_access token client_id none = pure tt
  revoke_access token client_id (some info) = do
    check (info.client_id == client_id) foreign_token
    drop_access token

  unfoldable pub is_owned : String → Option TokenInfo → Bool
  is_owned client_id none = false
  is_owned client_id (some info) = info.client_id == client_id

  unfoldable pub revoke_own_refresh : String → String → Option TokenInfo → Action World Unit
  revoke_own_refresh token client_id none = pure tt
  revoke_own_refresh token client_id (some info) =
      if info.client_id == client_id then drop_refresh token info else pure tt

  -- default
  unfoldable pub revoke_any : String → String → Action World Unit
  revoke_any token client_id = do
    found ← load_access_token ext token
    if is_owned client_id found
        then drop_access token
        else (do refresh ← load_refresh_token ext token; revoke_own_refresh token client_id refresh)

  unfoldable pub revoke_with_hint : String → String → String → Action World Unit
  revoke_with_hint token token_type_hint client_id =
      if token_type_hint == "refresh_token"
      then (do found ← load_refresh_token ext token; revoke_refresh token client_id found)
      else if token_type_hint == "access_token"
      then (do found ← load_access_token ext token; revoke_access token client_id found)
      else revoke_any token client_id

  unfoldable pub revoke_token : String → String → String → Action World Unit
  revoke_token token token_type_hint client_id = do
    found ← read (λ w. Store.get_by_id w.clients client_id)
    or_fail (oauth (err_invalid_client "client not found")) found
    revoke_with_hint token token_type_hint client_id
