-- ===== src/Encoding/Decode.antt =====
-- `DecodeString` of base64.StdEncoding and base64.RawURLEncoding: line breaks are dropped, and bits
-- that are left over at the end are not looked at.
use oauth_2_0_and_open_id_co.Encoding.{Bytes}
use oauth_2_0_and_open_id_co.Base.{
  ◌%◌, ◌/◌, none, ◌+◌, ◌∷◌, ◌*◌, ◌-◌, ◌||◌, some, ◌&&◌, leb, [], if◌then◌else◌, Bool, String, List,
  Option, false, true, ℕ,
}
use Prim.Native.Char.{code}

-- The two characters after the digits, and whether the last group is padded.
pub record Alphabet : Type 0 where
  pub sixty_two : ℕ
  pub sixty_three : ℕ
  pub padded : Bool

abbrev pub std_encoding : Alphabet
std_encoding = record { sixty_two = b'+'; sixty_three = b'/'; padded = true }

abbrev pub raw_url_encoding : Alphabet
raw_url_encoding = record { sixty_two = b'-'; sixty_three = b'_'; padded = false }

abbrev pub is_code : ℕ → ℕ → Bool
is_code c d = leb c d && leb d c

unfoldable pub digit : Alphabet → ℕ → Option ℕ
digit a c =
    if leb b'A' c && leb c b'Z'
    then some (c - 65)
    else if leb b'a' c && leb c b'z'
    then some (c - 71)
    else if leb b'0' c && leb c b'9'
    then some (c + 4)
    else if is_code c a.sixty_two
    then some 62
    else if is_code c a.sixty_three
    then some 63
    else none

abbrev one_byte : Option ℕ → Option ℕ → Option Bytes
one_byte (some a) (some b) = some ((a * 4 + b / 16) ∷ [])
one_byte (some a) none = none
one_byte none b = none

abbrev two_bytes : Option ℕ → Option ℕ → Option ℕ → Option Bytes
two_bytes (some a) (some b) (some c) = some ((a * 4 + b / 16) ∷ (b % 16 * 16 + c / 4) ∷ [])
two_bytes (some a) (some b) none = none
two_bytes (some a) none c = none
two_bytes none b c = none

abbrev three_bytes : Option ℕ → Option ℕ → Option ℕ → Option ℕ → Option Bytes → Option Bytes
three_bytes (some a) (some b) (some c) (some d) (some rest) =
    some ((a * 4 + b / 16) ∷ (b % 16 * 16 + c / 4) ∷ (c % 4 * 64 + d) ∷ rest)
three_bytes (some a) (some b) (some c) (some d) none = none
three_bytes (some a) (some b) (some c) none rest = none
three_bytes (some a) (some b) none d rest = none
three_bytes (some a) none c d rest = none
three_bytes none b c d rest = none

-- The last group of four characters, which may be padded.
unfoldable pub last_group : Alphabet → ℕ → ℕ → ℕ → ℕ → Option Bytes
last_group a c d e f =
    if a.padded && is_code f b'='
    then if is_code e b'='
      then one_byte (digit a c) (digit a d)
      else two_bytes (digit a c) (digit a d) (digit a e)
    else three_bytes (digit a c) (digit a d) (digit a e) (digit a f) (some [])

unfoldable pub decode_groups : Alphabet → List ℕ → Option Bytes
decode_groups a [] = some []
decode_groups a (c ∷ []) = none
decode_groups a (c ∷ d ∷ []) = if a.padded then none else one_byte (digit a c) (digit a d)
decode_groups a (c ∷ d ∷ e ∷ []) =
    if a.padded then none else two_bytes (digit a c) (digit a d) (digit a e)
decode_groups a (c ∷ d ∷ e ∷ f ∷ []) = last_group a c d e f
decode_groups a (c ∷ d ∷ e ∷ f ∷ g ∷ rest) =
    three_bytes (digit a c) (digit a d) (digit a e) (digit a f) (decode_groups a (g ∷ rest))

-- The characters of a text, without line breaks.
unfoldable pub unbroken : String → List ℕ
unbroken String.[] = []
unbroken (String.◌∷◌ c s) =
    let rest = unbroken s in
    if is_code (code c) 10 || is_code (code c) 13 then rest else code c ∷ rest

-- enc.DecodeString(s)
unfoldable pub decode_string : Alphabet → String → Option Bytes
decode_string a s = decode_groups a (unbroken s)
