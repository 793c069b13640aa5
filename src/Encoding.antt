-- ===== src/Encoding.antt =====
-- What the program uses of `[]byte(s)` and `encoding/base64`: the UTF-8 bytes of a text, and the
-- unpadded URL alphabet, three bytes to four characters.
pub mod Utf8
pub mod Decode
pub mod Url
use Prim.Native.Char.{code}
use Prim.Native.String.{[], ◌∷◌}
use oauth_2_0_and_open_id_co.Base.{
  ℕ, zero, suc, ◌+◌, ◌*◌, ◌/◌, ◌%◌, String, Char, List, ◌++◌, if◌then◌else◌, ltb,
}

abbrev pub Bytes : Type 0
Bytes = List ℕ

-- The UTF-8 form of a code point.
utf8 : ℕ → Bytes
utf8 c =
    if ltb c 0x80
    then List.◌∷◌ c List.[]
    else if ltb c 0x800
    then List.◌∷◌ (0xc0 + c / 64) (List.◌∷◌ (0x80 + c % 64) List.[])
    else if ltb c 0x10000
    then List.◌∷◌ (0xe0 + c / 4096)
        (List.◌∷◌ (0x80 + c / 64 % 64) (List.◌∷◌ (0x80 + c % 64) List.[]))
    else List.◌∷◌ (0xf0 + c / 262144) (
        List.◌∷◌ (0x80 + c / 4096 % 64)
          (List.◌∷◌ (0x80 + c / 64 % 64) (List.◌∷◌ (0x80 + c % 64) List.[])))

-- []byte(s)
unfoldable pub bytes : String → Bytes
unfolding utf8
bytes [] = List.[]
bytes (c ∷ s) = utf8 (code c) ++ bytes s

abbrev url_alphabet : String
url_alphabet = "ABCDEFGHIJKLMNOPQRSTUVWXYZabcdefghijklmnopqrstuvwxyz0123456789-_"

pick : String → ℕ → Char
pick [] i = "A"
pick (c ∷ s) zero = c
pick (c ∷ s) (suc i) = pick s i

sextet : ℕ → Char
unfolding pick
sextet i = pick url_alphabet i

-- base64.RawURLEncoding.EncodeToString(b)
unfoldable pub raw_url_encode : Bytes → String
unfolding sextet
raw_url_encode List.[] = ""
raw_url_encode (List.◌∷◌ a List.[]) = sextet (a / 4) ∷ sextet (a % 4 * 16) ∷ ""
raw_url_encode (List.◌∷◌ a (List.◌∷◌ b List.[])) =
    sextet (a / 4) ∷ sextet (a % 4 * 16 + b / 16) ∷ sextet (b % 16 * 4) ∷ ""
raw_url_encode (List.◌∷◌ a (List.◌∷◌ b (List.◌∷◌ c rest))) =
    sextet (a / 4)
    ∷ sextet (a % 4 * 16 + b / 16)
    ∷ sextet (b % 16 * 4 + c / 64)
    ∷ sextet (c % 64)
    ∷ raw_url_encode rest
