-- ===== src/Scope/Split.antt =====
-- `fieldSplit`, with its byte positions and slices, returns the words of the text.
use Prim.Native.Char.{code, len_utf8}
use Prim.Native.String.{String, [], ◌∷◌, len, slice}
use Prim.Native.String as Str
use Prim.Native.String.len as len_laws
use mathlib.Core.Logic.{if_pos, if_neg}
use mathlib.Core.List as List
use mathlib.Core.List.{List}
use native.Mathlib.Decide.{ℕ_discrete}
use text.Mathlib.TextEquality.{Char-path}
use text.Mathlib.TextLemmas.{cons-ne-nil, nil-append, cons-append, append_assoc}
use text.Mathlib.TextPositions.{len-append, slice-append_middle, len_utf8-pos}
use oauth_2_0_and_open_id_co.Base.{
  ==-of-ne, inl, inr, Bool-cases, Char, ℕ, ◌+◌, refl, ◌≡◌, ◌≢◌, ◌==◌, if◌then◌else◌, arith, ap, sym,
  ◌∙◌, ltb, ◌<◌,
}
use oauth_2_0_and_open_id_co.Scope.{field_loop, field_split}
use oauth_2_0_and_open_id_co.Scope.Words.{
  words_from-sep, words_from-other, push, emit, words_from, words,
}

len-pos : (s : String) → s ≢ "" → 0 < len s
len-pos [] h = absurd (h refl)
len-pos (c ∷ s) h = rw (len_laws.cons c s) (let (k, e) = len_utf8-pos c in omega arith)

-- The test `i > start` asks whether the word at hand is empty.
ltb-len :
    (n i : ℕ) (word : String) (xs ys : List String)
    → i ≡ n + len word
    → (if ltb n i then xs else ys) ≡ (if word == "" then ys else xs)
ltb-len n i [] xs ys e = ground arith
ltb-len n i (c ∷ word) xs ys e =
    let pos = len-pos (c ∷ word) (cons-ne-nil c word) in
    rw (==-of-ne (c ∷ word) "" (cons-ne-nil c word)) (ground arith)

-- A word that ends at byte `i` and begins at `start` is added if it is not empty.
add_word :
    (n i : ℕ) (word : String) (parts rest : List String)
    → i ≡ n + len word
    → List.◌++◌ (if ltb n i then List.◌++◌ parts (List.◌∷◌ word List.[]) else parts) rest
      ≡ List.◌++◌ parts (emit word rest)
add_word n i word parts rest e =
    rw (ltb-len n i word (List.◌++◌ parts (List.◌∷◌ word List.[])) parts e)
      (elim (Bool-cases (word == "")) [
        | inl empty ↦ rw empty
        | inr full ↦ rw full (List.append_assoc parts (List.◌∷◌ word List.[]) rest)
      ])

-- The part of the text between its first two positions.
slice_word :
    (s pre word rest : String) (i start : ℕ)
    → s ≡ Str.◌++◌ pre (Str.◌++◌ word rest)
    → start ≡ len pre
    → i ≡ start + len word
    → slice s start i ≡ word
slice_word s pre word rest i start e p q = rw (q, p, e) (slice-append_middle pre word rest)

after_word :
    (pre word : String) (c : Char) (rest : String)
    → Str.◌++◌ pre (Str.◌++◌ word (c ∷ rest)) ≡ Str.◌++◌ pre (Str.◌++◌ (push word c) rest)
after_word pre word c rest =
    ap (Str.◌++◌ pre) (rw (append_assoc word (c ∷ []) rest, cons-append c [] rest, nil-append rest))

len-push : (word : String) (c : Char) → len (push word c) ≡ len word + len_utf8 c
len-push word c = omega (arith, len-append word (c ∷ []), len_laws.cons c [], len_laws.nil)

module _ (s : String) (sep : Char) (narrow : len_utf8 sep ≡ 1) where
  field_loop-sep :
      (c : Char) (rest : String) (i start : ℕ) (parts : List String)
      → code c ≡ code sep
      → field_loop s sep (c ∷ rest) i start parts
        ≡ field_loop s sep rest
            (i + len_utf8 c)
            (i + 1)
            (if ltb start i then List.◌++◌ parts (List.◌∷◌ (slice s start i) List.[]) else parts)
  unfolding field_loop
  field_loop-sep c rest i start parts e = if_pos (ℕ_discrete (code c) (code sep)) e _ _

  field_loop-other :
      (c : Char) (rest : String) (i start : ℕ) (parts : List String)
      → code c ≢ code sep
      → field_loop s sep (c ∷ rest) i start parts
        ≡ field_loop s sep rest (i + len_utf8 c) start parts
  unfolding field_loop
  field_loop-other c rest i start parts n = if_neg (ℕ_discrete (code c) (code sep)) n _ _

  field_loop-end :
      (pre word : String) (i start : ℕ) (parts : List String)
      → s ≡ Str.◌++◌ pre (Str.◌++◌ word "")
      → start ≡ len pre
      → field_loop s sep "" i start parts ≡ List.◌++◌ parts (emit word List.[])
  unfolding field_loop
  field_loop-end pre word i start parts e p =
      let long : len s ≡ start + len word =
        omega
          (arith, ap len e, len-append pre (Str.◌++◌ word ""), len-append word "", len_laws.nil) in
      rw (slice_word s pre word "" (len s) start e p long)
        (sym (List.append-nil _) ∙ add_word start (len s) word parts List.[] long)

  at_separator :
      (pre word : String) (c : Char) (rest : String) (i start : ℕ) (parts : List String)
      → code c ≡ code sep
      → s ≡ Str.◌++◌ pre (Str.◌++◌ word (c ∷ rest))
      → start ≡ len pre
      → i ≡ start + len word
      → ((parts' : List String)
          → s ≡ Str.◌++◌ (Str.◌++◌ pre (push word c)) (Str.◌++◌ "" rest)
          → i + 1 ≡ len (Str.◌++◌ pre (push word c))
          → i + len_utf8 c ≡ i + 1 + len ""
          → field_loop s sep rest (i + len_utf8 c) (i + 1) parts'
            ≡ List.◌++◌ parts' (words_from sep "" rest))
      → field_loop s sep rest
          (i + len_utf8 c)
          (i + 1)
          (if ltb start i then List.◌++◌ parts (List.◌∷◌ (slice s start i) List.[]) else parts)
        ≡ List.◌++◌ parts (emit word (words_from sep "" rest))
  at_separator pre word c rest i start parts same e p q ih =
      let one : len_utf8 c ≡ 1 = ap len_utf8 (Char-path c sep same) ∙ narrow in
      let here : s ≡ Str.◌++◌ (Str.◌++◌ pre (push word c)) (Str.◌++◌ "" rest) =
        e
        ∙ after_word pre word c rest
        ∙ rw nil-append (sym (append_assoc pre (push word c) rest)) in
      let there : i + 1 ≡ len (Str.◌++◌ pre (push word c)) =
        omega (arith, len-append pre (push word c), len-push word c) in
      rw (slice_word s pre word (c ∷ rest) i start e p q)
        (ih _ here there (omega (arith, len_laws.nil)) ∙ add_word start i word parts _ q)

  -- `pre` has been dealt with, `word` is being read, and `rest` is to come.
  field_loop_lem :
      (pre word rest : String) (i start : ℕ) (parts : List String)
      → s ≡ Str.◌++◌ pre (Str.◌++◌ word rest)
      → start ≡ len pre
      → i ≡ start + len word
      → field_loop s sep rest i start parts ≡ List.◌++◌ parts (words_from sep word rest)
  unfolding words_from
  field_loop_lem pre word [] i start parts e p q = field_loop-end pre word i start parts e p
  field_loop_lem pre word (c ∷ rest) i start parts e p q = elim (ℕ_discrete (code c) (code sep)) [
    | yes same ↦
        field_loop-sep c rest i start parts same
        ∙ at_separator pre word c rest i start parts same e p q
            (field_loop_lem (Str.◌++◌ pre (push word c)) "" rest (i + len_utf8 c) (i + 1))
        ∙ ap (List.◌++◌ parts) (sym (words_from-sep sep c word rest same))
    | no other ↦
        field_loop-other c rest i start parts other
        ∙ field_loop_lem pre (push word c) rest (i + len_utf8 c) start parts
            (e ∙ after_word pre word c rest) p (omega (arith, len-push word c))
        ∙ ap (List.◌++◌ parts) (sym (words_from-other sep c word rest other))
  ]

-- `fieldSplit` at a separator of one byte returns the words of the text.
pub field_split-eq-words :
    (s : String) (sep : Char) → len_utf8 sep ≡ 1 → field_split s sep ≡ words sep s
unfolding field_split words
field_split-eq-words s sep narrow =
    field_loop_lem s sep narrow "" "" s 0 0 List.[] (rw (nil-append, nil-append)) (sym len_laws.nil)
      (omega (arith, len_laws.nil))
