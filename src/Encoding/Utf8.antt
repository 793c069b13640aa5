-- ===== src/Encoding/Utf8.antt =====
-- `string(payload)`: the text of UTF-8 bytes. A byte that belongs to no character becomes U+FFFD, as
-- in a range over the string; Go's string keeps the byte.
pub mod RoundTrip
use oauth_2_0_and_open_id_co.Encoding.{Bytes}
use oauth_2_0_and_open_id_co.Base.{
  zero, if◌then◌else◌, suc, [], ◌+◌, ltb, String, ◌∷◌, ◌*◌, ◌&&◌, ◌-◌, leb, ◌∙◌, refl, ap, none,
  false, some, true, Char, ◌≡◌, ℕ, Option, Bool,
}
use Prim.Native.Char.{char, code, IsScalar, IsLt}
use Prim.Native.String
use Prim.Native.Nat.{compare, Ordering}
use text.Mathlib.TextEquality.{Char-path}

-- The number of a character, by the comparisons of `IsScalar`.
abbrev Both : Ordering → Ordering → Type 0
Both Ordering.lt o = IsLt o
Both Ordering.eq _ = ⊥
Both Ordering.gt _ = ⊥

abbrev Scalar : Ordering → Ordering → Ordering → Type 0
Scalar Ordering.lt _ _ = Unit
Scalar Ordering.eq o p = Both o p
Scalar Ordering.gt o p = Both o p

scalar_proof : (o p q : Ordering) → Option (Scalar o p q)
scalar_proof Ordering.lt p q = some tt
scalar_proof Ordering.eq Ordering.lt Ordering.lt = some tt
scalar_proof Ordering.eq Ordering.lt Ordering.eq = none
scalar_proof Ordering.eq Ordering.lt Ordering.gt = none
scalar_proof Ordering.eq Ordering.eq q = none
scalar_proof Ordering.eq Ordering.gt q = none
scalar_proof Ordering.gt Ordering.lt Ordering.lt = some tt
scalar_proof Ordering.gt Ordering.lt Ordering.eq = none
scalar_proof Ordering.gt Ordering.lt Ordering.gt = none
scalar_proof Ordering.gt Ordering.eq q = none
scalar_proof Ordering.gt Ordering.gt q = none

scalar_of : (n : ℕ) → Option (IsScalar n)
scalar_of n = scalar_proof (compare n 55296) (compare 57343 n) (compare n 1114112)

to_char : (n : ℕ) → Option (IsScalar n) → Option Char
to_char n none = none
to_char n (some p) = some (char n p)

-- The character with a number, if there is one.
unfoldable pub char_of : ℕ → Option Char
unfolding scalar_of scalar_proof to_char
char_of n = to_char n (scalar_of n)

proof_exists :
    (o p q : Ordering) → Scalar o p q → (s : Scalar o p q) × (scalar_proof o p q ≡ some s)
unfolding scalar_proof
proof_exists Ordering.lt p q h = (tt, refl)
proof_exists Ordering.eq Ordering.lt Ordering.lt h = (tt, refl)
proof_exists Ordering.gt Ordering.lt Ordering.lt h = (tt, refl)
proof_exists Ordering.eq Ordering.lt Ordering.eq h = elim h [ ]
proof_exists Ordering.eq Ordering.lt Ordering.gt h = elim h [ ]
proof_exists Ordering.eq Ordering.eq q h = elim h [ ]
proof_exists Ordering.eq Ordering.gt q h = elim h [ ]
proof_exists Ordering.gt Ordering.lt Ordering.eq h = elim h [ ]
proof_exists Ordering.gt Ordering.lt Ordering.gt h = elim h [ ]
proof_exists Ordering.gt Ordering.eq q h = elim h [ ]
proof_exists Ordering.gt Ordering.gt q h = elim h [ ]

pub char_of-code : (c : Char) → char_of (code c) ≡ some c
unfolding char_of
char_of-code (char n h) =
    let (s, e) = proof_exists (compare n 55296) (compare 57343 n) (compare n 1114112) h in
    ap (to_char n) e ∙ ap some (Char-path (char n s) (char n h) refl)

abbrev replacement : Char
replacement = char 0xfffd tt

-- A decoded character with the number of bytes that follow its first one.
abbrev decoded : Option Char → ℕ → Char × ℕ
decoded none more = (replacement, 0)
decoded (some c) more = (c, more)

abbrev is_next : ℕ → Bool
is_next b = leb 0x80 b && ltb b 0xc0

-- The character that begins with a byte, by the three bytes after it; 0 stands for a missing one.
first_rune : ℕ → ℕ → ℕ → ℕ → Char × ℕ
first_rune a b c d =
    let two = (a - 0xc0) * 64 + (b - 0x80) in
    let three = (a - 0xe0) * 4096 + (b - 0x80) * 64 + (c - 0x80) in
    let four = (a - 0xf0) * 262144 + (b - 0x80) * 4096 + (c - 0x80) * 64 + (d - 0x80) in
    if ltb a 0x80
    then decoded (char_of a) 0
    else if leb 0xc0 a && ltb a 0xe0 && is_next b && leb 0x80 two
    then decoded (char_of two) 1
    else if leb 0xe0 a && ltb a 0xf0 && is_next b && is_next c && leb 0x800 three
    then decoded (char_of three) 2
    else if leb 0xf0 a && ltb a 0xf8 && is_next b && is_next c && is_next d && leb 0x10000 four
    then decoded (char_of four) 3
    else (replacement, 0)

abbrev head_byte : Bytes → ℕ
head_byte [] = 0
head_byte (b ∷ rest) = b

abbrev rest_bytes : Bytes → Bytes
rest_bytes [] = []
rest_bytes (b ∷ rest) = rest

rune_of : ℕ → Bytes → Char × ℕ
unfolding first_rune
rune_of a rest =
    first_rune a (head_byte rest) (head_byte (rest_bytes rest))
      (head_byte (rest_bytes (rest_bytes rest)))

-- The text of the bytes after the given number of them.
text_after : ℕ → Bytes → String
unfolding rune_of
text_after skip [] = ""
text_after (suc skip) (b ∷ rest) = text_after skip rest
text_after zero (b ∷ rest) = let (c, more) = rune_of b rest in String.◌∷◌ c (text_after more rest)

-- string(b)
unfoldable pub text_of : Bytes → String
unfolding text_after
text_of b = text_after 0 b
