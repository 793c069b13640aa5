-- ===== src/Scope.antt =====
-- internal/server/store.go, lines 233-318: scope strings. A Go string is taken as valid UTF-8;
-- `len`, `slice` and the loop's index count its bytes. A `map[string]bool` that is filled from a
-- slice is a dictionary; a missing key reads as false.
pub mod Words
pub mod Split
pub mod Join
pub mod Laws
use Prim.Native.Char.{code, len_utf8}
use Prim.Native.String.{len, slice}
use Prim.Native.String
use oauth_2_0_and_open_id_co.Base.{
  ℕ, ◌+◌, String, Char, Bool, true, false, not, ◌&&◌, Option, none, some, List, [], ◌∷◌, ◌++◌, ◌==◌,
  ltb, if◌then◌else◌, contains, concat, join,
}
use oauth_2_0_and_open_id_co.Dict
use oauth_2_0_and_open_id_co.Dict.{Dict}
use oauth_2_0_and_open_id_co.Errors.{oauth, err_invalid_scope}
use oauth_2_0_and_open_id_co.Action.{Result, ok, err}
use oauth_2_0_and_open_id_co.Model.{UserStore}
use oauth_2_0_and_open_id_co.Store.{Client}
use native.Mathlib.Decide.{ℕ_discrete}
use mathlib.Core.Logic.{ite}

-- The loop of `fieldSplit` over the characters that are left, at byte `i` of `s`.
field_loop : String → Char → String → ℕ → ℕ → List String → List String
field_loop s sep String.[] i start parts =
    if ltb start (len s) then parts ++ slice s start (len s) ∷ [] else parts
field_loop s sep (String.◌∷◌ c rest) i start parts =
    let closed =
      field_loop s sep rest (i + len_utf8 c) (i + 1)
        (if ltb start i then parts ++ slice s start i ∷ [] else parts) in
    let longer = field_loop s sep rest (i + len_utf8 c) start parts in
    ite (ℕ_discrete (code c) (code sep)) closed longer

unfoldable pub field_split : String → Char → List String
unfolding field_loop ℕ_discrete
field_split s sep = field_loop s sep s 0 0 []

abbrev pub space : Char
space = " "

unfoldable pub split : String → List String
unfolding field_split
split s = field_split s space

keep_nonempty : List String → List String
keep_nonempty [] = []
keep_nonempty (part ∷ parts) =
    let rest = keep_nonempty parts in if part == "" then rest else part ∷ rest

unfoldable pub split_spaces : String → List String
unfolding split keep_nonempty
split_spaces s = if s == "" then [] else keep_nonempty (split s)

unfoldable pub contains_scope : String → String → Bool
unfolding split_spaces contains
contains_scope scope target = contains (split_spaces scope) target

-- `userStore` is a pointer, nil if there is none.
unfoldable pub should_include_id_token : String → String → Option UserStore → Bool
unfolding contains_scope
should_include_id_token scope user_id none = false
should_include_id_token scope user_id (some users) =
    contains_scope scope "openid" && not (user_id == "")

-- for _, s := range scopes { m[s] = true }
add_scopes : Dict Bool → List String → Dict Bool
add_scopes m [] = m
add_scopes m (s ∷ scopes) = add_scopes (Dict.put m s true) scopes

scope_set : List String → Dict Bool
unfolding add_scopes
scope_set scopes = add_scopes Dict.empty scopes

is_set : Option Bool → Bool
is_set none = false
is_set (some b) = b

unfoldable pub in_set : Dict Bool → String → Bool
unfolding is_set
in_set m s = is_set (Dict.get m s)

module _ (quote : String → String) (client : Client) where
  -- The loop over the requested scopes, with the value that is returned after it.
  refuse_missing : Dict Bool → List String → String → Result String
  refuse_missing allowed [] granted = ok granted
  refuse_missing allowed (s ∷ requested) granted =
      let rest = refuse_missing allowed requested granted in
      if in_set allowed s
      then rest
      else err (
          oauth (
            err_invalid_scope
              (concat ("scope " ∷ quote s ∷ " is not allowed for client " ∷ quote client.id ∷ []))))

  checked_scope : List String → String → Result String
  unfolding refuse_missing scope_set in_set split_spaces
  checked_scope [] requested_scope = ok requested_scope
  checked_scope (a ∷ scopes) requested_scope =
      if requested_scope == ""
      then ok (join (a ∷ scopes) " ")
      else refuse_missing (scope_set (a ∷ scopes)) (split_spaces requested_scope) requested_scope

  unfoldable pub validate_client_scope : String → Result String
  unfolding checked_scope
  validate_client_scope requested_scope = checked_scope client.scopes requested_scope

all_in_set : Dict Bool → List String → Bool
all_in_set original [] = true
all_in_set original (s ∷ requested) = in_set original s && all_in_set original requested

unfoldable pub is_scope_narrowed : String → String → Bool
unfolding all_in_set scope_set in_set split_spaces
is_scope_narrowed requested original =
    if original == ""
    then true
    else all_in_set (scope_set (split_spaces original)) (split_spaces requested)
