-- ===== src/Uri.antt =====
-- What the program uses of net/url: a parsed URI with its query. Parsing and printing are parameters.
use oauth_2_0_and_open_id_co.Base.{
  arith, none, ◌==◌, [], some, ◌≡◌, if◌then◌else◌, ◌∷◌, List, Option, String,
}
use oauth_2_0_and_open_id_co.Dict.{Dict}
use oauth_2_0_and_open_id_co.Dict

-- url.Values
abbrev pub Query : Type 0
Query = Dict (List String)

-- A parsed URI: its query, and its text with another query in its place.
pub record Parsed : Type 0 where
  pub query : Query
  pub render : Query → String

-- url.Parse
abbrev pub ParseUri : Type 0
ParseUri = String → Option Parsed

abbrev pub first_value : Option (List String) → String
first_value none = ""
first_value (some []) = ""
first_value (some (v ∷ vs)) = v

-- q.Get(k), c.Query(k), c.PostForm(k)
unfoldable pub get_value : Query → String → String
get_value q k = first_value (Dict.get q k)

-- q.Set(k, v)
unfoldable pub set_value : Query → String → String → Query
set_value q k v = Dict.put q k (v ∷ [])

-- if v != "" { q.Set(k, v) }
unfoldable pub set_nonempty : Query → String → String → Query
unfolding set_value
set_nonempty q k v = if v == "" then q else set_value q k v

pub get_value-set_value :
    (q : Query) (k j v : String)
    → get_value (set_value q k v) j ≡ (if k == j then v else get_value q j)
unfolding get_value set_value
get_value-set_value q k j v = ground (arith, Dict.get-put q k (v ∷ []) j)

pub get_value-set_nonempty :
    (q : Query) (k j v : String)
    → get_value (set_nonempty q k v) j
      ≡ (if v == "" then get_value q j else if k == j then v else get_value q j)
unfolding set_nonempty
get_value-set_nonempty q k j v = ground (arith, get_value-set_value q k j v)
