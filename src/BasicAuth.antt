-- ===== src/BasicAuth.antt =====
-- parseBasicAuth of internal/handler/handler.go, with what it uses of the strings package.
pub mod RoundTrip
use oauth_2_0_and_open_id_co.Encoding.Utf8.{text_of}
use oauth_2_0_and_open_id_co.Encoding.Decode.{
  raw_url_encoding, std_encoding, decode_string, is_code,
}
use oauth_2_0_and_open_id_co.Encoding.{Bytes}
use oauth_2_0_and_open_id_co.Base.{
  ◌+◌, false, ◌&&◌, ◌==◌, true, leb, some, Bool, if◌then◌else◌, none, Option, String, ℕ,
}
use Prim.Native.Char.{code}
use Prim.Native.String
use mathlib.Core.Option

-- The parts before and after the first occurrence of a separator of one byte: strings.SplitN(s, sep, 2)
-- where it gives two parts, and the slices at strings.IndexByte(s, sep).
unfoldable pub cut : ℕ → String → Option (String × String)
cut sep String.[] = none
cut sep (String.◌∷◌ c s) =
    let rest = cut sep s in
    if is_code (code c) sep then some ("", s) else Option.map (λ (a, b). (String.◌∷◌ c a, b)) rest

-- The simple case folding of a letter among those of "basic".
abbrev fold_letter : ℕ → ℕ
fold_letter c = if leb b'A' c && leb c b'Z' then c + 32 else if is_code c 0x17f then b's' else c

-- strings.EqualFold(s, t), for a text t of the letters of "basic" in lower case
unfoldable pub equal_fold : String → String → Bool
equal_fold String.[] String.[] = true
equal_fold String.[] (String.◌∷◌ d t) = false
equal_fold (String.◌∷◌ c s) String.[] = false
equal_fold (String.◌∷◌ c s) (String.◌∷◌ d t) =
    is_code (fold_letter (code c)) (code d) && equal_fold s t

-- strings.TrimRight(s, "=")
unfoldable pub trim_padding : String → String
trim_padding String.[] = String.[]
trim_padding (String.◌∷◌ c s) =
    let rest = trim_padding s in
    if (rest == "") && is_code (code c) b'=' then "" else String.◌∷◌ c rest

abbrev or_else : Option Bytes → Option Bytes → Option Bytes
or_else none b = b
or_else (some a) b = some a

-- The three attempts at the payload.
unfoldable pub decode_payload : String → Option Bytes
decode_payload s =
    or_else (decode_string std_encoding s)
      (or_else (decode_string raw_url_encoding s) (decode_string std_encoding (trim_padding s)))

abbrev pub or_nothing : Option (String × String) → String × String
or_nothing none = ("", "")
or_nothing (some parts) = parts

abbrev credentials_of : Option Bytes → String × String
credentials_of none = ("", "")
credentials_of (some payload) = or_nothing (cut b':' (text_of payload))

abbrev of_scheme : Option (String × String) → String × String
of_scheme none = ("", "")
of_scheme (some (scheme, payload)) =
    if equal_fold scheme "basic" then credentials_of (decode_payload payload) else ("", "")

unfoldable pub parse_basic_auth : String → String × String
parse_basic_auth header = if header == "" then ("", "") else of_scheme (cut b' ' header)
