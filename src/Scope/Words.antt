-- ===== src/Scope/Words.antt =====
-- The words of a text: an independent account of what `fieldSplit` is for, and its laws.
use Prim.Native.Char.{code}
use Prim.Native.String.{String, [], ◌∷◌}
use Prim.Native.String as Str
use mathlib.Core.Logic.{ite, if_pos, if_neg}
use mathlib.Core.List.{List}
use native.Mathlib.Decide.{ℕ_discrete}
use text.Mathlib.TextLemmas.{nil-append, cons-append, append_assoc, append-nil}
use oauth_2_0_and_open_id_co.Base.{
  ◌∙◌, sym, ap, Char, refl, ◌≡◌, ◌≢◌, ◌==◌, if◌then◌else◌, All, eq_iff, arith, ==-of-ne,
}

-- The characters of a text, none of which is the separator.
abbrev pub Avoids : Char → String → Type 0
Avoids sep [] = Unit
Avoids sep (c ∷ s) = (code c ≢ code sep) × Avoids sep s

abbrev pub push : String → Char → String
push s c = Str.◌++◌ s (c ∷ [])

-- A word that is complete; an empty one is none.
abbrev pub emit : String → List String → List String
emit word rest = if word == "" then rest else List.◌∷◌ word rest

-- The words of a text, with what has been read of the word at hand.
unfoldable pub words_from : Char → String → String → List String
words_from sep word [] = emit word List.[]
words_from sep word (c ∷ rest) =
    let closed = emit word (words_from sep "" rest) in
    let longer = words_from sep (push word c) rest in
    ite (ℕ_discrete (code c) (code sep)) closed longer

unfoldable pub words : Char → String → List String
unfolding words_from
words sep s = words_from sep "" s

abbrev pub IsWord : Char → String → Type 0
IsWord sep w = (w ≢ "") × Avoids sep w

pub Avoids-push :
    (sep : Char) (s : String) (c : Char) → Avoids sep s → code c ≢ code sep → Avoids sep (push s c)
Avoids-push sep [] c h n = rw nil-append (n, tt)
Avoids-push sep (d ∷ s) c h n = rw cons-append (h.0, Avoids-push sep s c h.1 n)

emit-IsWord :
    (sep : Char) (word : String) (rest : List String)
    → Avoids sep word
    → All (IsWord sep) rest
    → All (IsWord sep) (emit word rest)
emit-IsWord sep word rest h r = ground (arith, eq_iff word "")

words_from-IsWord :
    (sep : Char) (word s : String) → Avoids sep word → All (IsWord sep) (words_from sep word s)
unfolding words_from
words_from-IsWord sep word [] h = emit-IsWord sep word List.[] h tt
words_from-IsWord sep word (c ∷ s) h = elim (ℕ_discrete (code c) (code sep)) [
  | yes e ↦ rw (if_pos _ e) (emit-IsWord sep word _ h (words_from-IsWord sep "" s tt))
  | no n ↦ rw (if_neg _ n) (words_from-IsWord sep (push word c) s (Avoids-push sep word c h n))
]

-- No word is empty or holds the separator.
pub words-IsWord : (sep : Char) (s : String) → All (IsWord sep) (words sep s)
unfolding words
words-IsWord sep s = words_from-IsWord sep "" s tt

-- A word is read to its end.
words_from-append :
    (sep : Char) (word w rest : String)
    → Avoids sep w
    → words_from sep word (Str.◌++◌ w rest) ≡ words_from sep (Str.◌++◌ word w) rest
unfolding words_from
words_from-append sep word [] rest h = rw (nil-append, append-nil)
words_from-append sep word (c ∷ w) rest h = rw (
  cons-append c w rest,
  if_neg _ h.0,
  words_from-append sep (push word c) w rest h.1,
  append_assoc,
  cons-append,
  nil-append,
)

emit_of_ne : (word : String) (rest : List String) → word ≢ "" → emit word rest ≡ List.◌∷◌ word rest
emit_of_ne word rest h = rw (==-of-ne word "" h)

pub words_from-sep :
    (sep c : Char) (word rest : String)
    → code c ≡ code sep
    → words_from sep word (c ∷ rest) ≡ emit word (words_from sep "" rest)
unfolding words_from
words_from-sep sep c word rest e = if_pos (ℕ_discrete (code c) (code sep)) e _ _

pub words_from-other :
    (sep c : Char) (word rest : String)
    → code c ≢ code sep
    → words_from sep word (c ∷ rest) ≡ words_from sep (push word c) rest
unfolding words_from
words_from-other sep c word rest n = if_neg (ℕ_discrete (code c) (code sep)) n _ _

-- A word at the front, before a separator, is the first word.
pub words-append_sep :
    (sep : Char) (w rest : String)
    → IsWord sep w
    → words sep (Str.◌++◌ w (sep ∷ rest)) ≡ List.◌∷◌ w (words sep rest)
unfolding words
words-append_sep sep w rest h =
    words_from-append sep "" w (sep ∷ rest) h.1
    ∙ ap (λ v. words_from sep v (sep ∷ rest)) (nil-append w)
    ∙ words_from-sep sep sep w rest refl
    ∙ emit_of_ne w _ h.0

words_from-end : (sep : Char) (word : String) → words_from sep word "" ≡ emit word List.[]
unfolding words_from
words_from-end sep word = refl

pub words_of_IsWord : (sep : Char) (w : String) → IsWord sep w → words sep w ≡ List.◌∷◌ w List.[]
unfolding words
words_of_IsWord sep w h =
    ap (words_from sep "") (sym (append-nil w))
    ∙ words_from-append sep "" w "" h.1
    ∙ ap (λ v. words_from sep v "") (nil-append w)
    ∙ words_from-end sep w
    ∙ emit_of_ne w _ h.0
