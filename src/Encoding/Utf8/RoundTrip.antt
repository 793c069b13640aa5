-- ===== src/Encoding/Utf8/RoundTrip.antt =====
-- The text of the bytes of a text is that text.
use oauth_2_0_and_open_id_co.Base.{
  ap, ◌∙◌, String, inr, inl, Bool-cases, refl, ◌*◌, false, ◌-◌, true, leb, ltb, arith, ◌%◌, ◌/◌,
  ◌+◌, ◌≤◌, ◌++◌, ◌≡◌, ◌<◌, ℕ, Char,
}
use oauth_2_0_and_open_id_co.Encoding.{utf8, bytes, Bytes}
use oauth_2_0_and_open_id_co.Encoding.Utf8.{
  rest_bytes, head_byte, text_after, text_of, rune_of, first_rune, char_of-code, is_next,
}
use Prim.Native.Char.{char, code, IsScalar}

bound_of : (n : ℕ) → IsScalar n → n < 0x110000
bound_of n h = ground arith

code_bound : (c : Char) → code c < 0x110000
code_bound (char n h) = bound_of n h

ltb-true : (a b : ℕ) → a < b → ltb a b ≡ true
ltb-true a b h = ground arith

ltb-false : (a b : ℕ) → b ≤ a → ltb a b ≡ false
ltb-false a b h = ground arith

leb-true : (a b : ℕ) → a ≤ b → leb a b ≡ true
leb-true a b h = ground arith

leb-false : (a b : ℕ) → b < a → leb a b ≡ false
leb-false a b h = ground arith

is_next-true : (b : ℕ) → 0x80 ≤ b → b < 0xc0 → is_next b ≡ true
is_next-true b h k = rw (leb-true 0x80 b h, ltb-true b 0xc0 k) refl

one_rune : (c : Char) (a x y z : ℕ) → a < 0x80 → a ≡ code c → first_rune a x y z ≡ (c, 0)
unfolding first_rune
one_rune c a x y z h e = rw (ltb-true a 0x80 h, e, char_of-code c) refl

two_rune :
    (c : Char) (a b x y : ℕ)
    → 0xc0 ≤ a
    → a < 0xe0
    → 0x80 ≤ b
    → b < 0xc0
    → (a - 0xc0) * 64 + (b - 0x80) ≡ code c
    → 0x80 ≤ code c
    → first_rune a b x y ≡ (c, 1)
unfolding first_rune
two_rune c a b x y h1 h2 h3 h4 e k =
    rw
      (
        ltb-false a 0x80 (omega arith),
        leb-true 0xc0 a h1,
        ltb-true a 0xe0 h2,
        is_next-true b h3 h4,
        e,
        leb-true 0x80 (code c) k,
        char_of-code c,
      )
      refl

three_rune :
    (c : Char) (a b d x : ℕ)
    → 0xe0 ≤ a
    → a < 0xf0
    → 0x80 ≤ b
    → b < 0xc0
    → 0x80 ≤ d
    → d < 0xc0
    → (a - 0xe0) * 4096 + (b - 0x80) * 64 + (d - 0x80) ≡ code c
    → 0x800 ≤ code c
    → first_rune a b d x ≡ (c, 2)
unfolding first_rune
three_rune c a b d x h1 h2 h3 h4 h5 h6 e k =
    rw
      (
        ltb-false a 0x80 (omega arith),
        leb-true 0xc0 a (omega arith),
        ltb-false a 0xe0 h1,
        leb-true 0xe0 a h1,
        ltb-true a 0xf0 h2,
        is_next-true b h3 h4,
        is_next-true d h5 h6,
        e,
        leb-true 0x800 (code c) k,
        char_of-code c,
      )
      refl

four_rune :
    (c : Char) (a b d f : ℕ)
    → 0xf0 ≤ a
    → a < 0xf8
    → 0x80 ≤ b
    → b < 0xc0
    → 0x80 ≤ d
    → d < 0xc0
    → 0x80 ≤ f
    → f < 0xc0
    → (a - 0xf0) * 262144 + (b - 0x80) * 4096 + (d - 0x80) * 64 + (f - 0x80) ≡ code c
    → 0x10000 ≤ code c
    → first_rune a b d f ≡ (c, 3)
unfolding first_rune
four_rune c a b d f h1 h2 h3 h4 h5 h6 h7 h8 e k =
    rw
      (
        ltb-false a 0x80 (omega arith),
        leb-true 0xc0 a (omega arith),
        ltb-false a 0xe0 (omega arith),
        leb-true 0xe0 a (omega arith),
        ltb-false a 0xf0 h1,
        leb-true 0xf0 a h1,
        ltb-true a 0xf8 h2,
        is_next-true b h3 h4,
        is_next-true d h5 h6,
        is_next-true f h7 h8,
        e,
        leb-true 0x10000 (code c) k,
        char_of-code c,
      )
      refl

-- The bytes of a character, followed by others, are read as the character.
IsRead : Char → Bytes → Bytes → Type 0
IsRead c b rest = text_after 0 (b ++ rest) ≡ String.◌∷◌ c (text_after 0 rest)

lt-of-ltb : (a b : ℕ) → ltb a b ≡ true → a < b
lt-of-ltb a b h = ground arith

ge-of-ltb : (a b : ℕ) → ltb a b ≡ false → b ≤ a
ge-of-ltb a b h = ground arith

short-IsRead : (c : Char) (rest : Bytes) → code c < 0x800 → IsRead c (utf8 (code c)) rest
unfolding IsRead utf8 text_after rune_of
short-IsRead c rest h =
    let n = code c in
    let b1 = head_byte rest in
    let b2 = head_byte (rest_bytes rest) in
    let b3 = head_byte (rest_bytes (rest_bytes rest)) in
    elim (Bool-cases (ltb n 0x80)) [
      | inl p ↦ rw (p, one_rune c n b1 b2 b3 (lt-of-ltb n 0x80 p) refl) refl
      | inr p ↦
          let low = ge-of-ltb n 0x80 p in
          let read =
            two_rune c (0xc0 + n / 64) (0x80 + n % 64) b1 b2 (omega arith) (omega arith)
              (omega arith) (omega arith) (omega arith) low in
          rw (p, ltb-true n 0x800 h, read) refl
    ]

long-IsRead : (c : Char) (rest : Bytes) → 0x800 ≤ code c → IsRead c (utf8 (code c)) rest
unfolding IsRead utf8 text_after rune_of
long-IsRead c rest h =
    let n = code c in
    let b1 = head_byte rest in
    let bound = code_bound c in
    let first = ltb-false n 0x80 (omega arith) in
    elim (Bool-cases (ltb n 0x10000)) [
      | inl p ↦
          let high = lt-of-ltb n 0x10000 p in
          let read =
            three_rune c (0xe0 + n / 4096) (0x80 + n / 64 % 64) (0x80 + n % 64) b1 (omega arith)
              (omega arith) (omega arith) (omega arith) (omega arith) (omega arith) (omega arith)
              h in
          rw (first, ltb-false n 0x800 h, p, read) refl
      | inr p ↦
          let low = ge-of-ltb n 0x10000 p in
          let read =
            four_rune c (0xf0 + n / 262144) (0x80 + n / 4096 % 64) (0x80 + n / 64 % 64)
              (0x80 + n % 64) (omega arith) (omega arith) (omega arith) (omega arith) (omega arith)
              (omega arith) (omega arith) (omega arith) (omega arith) low in
          rw (first, ltb-false n 0x800 h, p, read) refl
    ]

utf8-IsRead : (c : Char) (rest : Bytes) → IsRead c (utf8 (code c)) rest
utf8-IsRead c rest = elim (Bool-cases (ltb (code c) 0x800)) [
  | inl p ↦ short-IsRead c rest (lt-of-ltb (code c) 0x800 p)
  | inr p ↦ long-IsRead c rest (ge-of-ltb (code c) 0x800 p)
]

-- `string([]byte(s))` is `s`, for a text of any characters.
pub text_of-bytes : (s : String) → text_of (bytes s) ≡ s
unfolding text_of bytes text_after IsRead
text_of-bytes String.[] = refl
text_of-bytes (String.◌∷◌ c s) = utf8-IsRead c (bytes s) ∙ ap (String.◌∷◌ c) (text_of-bytes s)
