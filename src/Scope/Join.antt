-- ===== src/Scope/Join.antt =====
-- `splitSpaces` returns the words of a scope string, and takes apart what `strings.Join` puts
-- together.
use Prim.Native.String.{String}
use mathlib.Core.List.{List}
use text.Mathlib.TextLemmas.{nil-append, cons-append}
use oauth_2_0_and_open_id_co.Base.{
  ◌∙◌, refl, ◌≡◌, ◌==◌, All, eq_iff, arith, ap, join, Bool-cases, inl, inr, eq-of-==,
}
use oauth_2_0_and_open_id_co.Scope.{space, split, keep_nonempty, split_spaces}
use oauth_2_0_and_open_id_co.Scope.Words.{
  IsWord, words, words-IsWord, words-append_sep, words_of_IsWord,
}
use oauth_2_0_and_open_id_co.Scope.Split.{field_split-eq-words}

keep_nonempty_of_words :
    (parts : List String) → All (IsWord space) parts → keep_nonempty parts ≡ parts
unfolding keep_nonempty
keep_nonempty_of_words List.[] h = refl
keep_nonempty_of_words (List.◌∷◌ w parts) h =
    ground (arith, keep_nonempty_of_words parts h.1, eq_iff w "")

-- The scopes of a scope string are its words.
pub split_spaces-eq-words : (s : String) → split_spaces s ≡ words space s
unfolding split_spaces split
split_spaces-eq-words s = elim (Bool-cases (s == "")) [
  | inl empty ↦ rw empty (rw (eq-of-== s "" empty) (unfold words in refl))
  | inr full ↦
      rw (full, field_split-eq-words s space refl) (keep_nonempty_of_words _ (words-IsWord space s))
]

words-join :
    (w : String) (parts : List String)
    → All (IsWord space) (List.◌∷◌ w parts)
    → words space (join (List.◌∷◌ w parts) " ") ≡ List.◌∷◌ w parts
unfolding join
words-join w List.[] h = words_of_IsWord space w h.0
words-join w (List.◌∷◌ v parts) h =
    rw
      (cons-append space "" (join (List.◌∷◌ v parts) " "), nil-append (join (List.◌∷◌ v parts) " "))
      (words-append_sep space w (join (List.◌∷◌ v parts) " ") h.0
        ∙ ap (List.◌∷◌ w) (words-join v parts h.1))

-- Splitting undoes joining, for scopes that are not empty and hold no space.
pub split_spaces-join :
    (scopes : List String) → All (IsWord space) scopes → split_spaces (join scopes " ") ≡ scopes
split_spaces-join List.[] h = split_spaces-eq-words _ ∙ (unfold words join in refl)
split_spaces-join (List.◌∷◌ w scopes) h = split_spaces-eq-words _ ∙ words-join w scopes h

-- Every scope that `splitSpaces` returns is a word.
pub split_spaces-IsWord : (s : String) → All (IsWord space) (split_spaces s)
split_spaces-IsWord s = rw (split_spaces-eq-words s) (words-IsWord space s)
