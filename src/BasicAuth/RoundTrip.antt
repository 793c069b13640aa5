-- ===== src/BasicAuth/RoundTrip.antt =====
-- The credentials that a client sends with Basic authentication are those that the program reads.
use mathlib.Core.Option
use oauth_2_0_and_open_id_co.Encoding.Utf8.RoundTrip.{text_of-bytes}
use oauth_2_0_and_open_id_co.Encoding.{bytes}
use oauth_2_0_and_open_id_co.Encoding.Decode.{is_code, std_encoding, decode_string}
use Prim.Native.Char.{Char, code}
use oauth_2_0_and_open_id_co.Base.{
  ==-of-ne, ◌∙◌, refl, inr, arith, inl, false, true, Bool-cases, Option, ℕ, some, none, ◌≡◌, Char,
  String,
}
use oauth_2_0_and_open_id_co.BasicAuth.{
  credentials_of, decode_payload, equal_fold, parse_basic_auth, cut,
}
use Prim.Native.String as Str
use Prim.Native.String.{◌∷◌}
use text.Mathlib.TextLemmas.{cons-ne-nil, nil-append, cons-append}

is_code_refl : (n : ℕ) → is_code n n ≡ true
is_code_refl n = ground arith

map-none :
    (c : Char) (o : Option (String × String))
    → Option.map {B = String × String} (λ (a, b). (Str.◌∷◌ c a, b)) o ≡ none
    → o ≡ none
map-none c none h = refl
map-none c (some p) h = cc

rest_none :
    (sep c : Char) (a : String)
    → cut (code sep) (Str.◌∷◌ c a) ≡ none
    → is_code (code c) (code sep) ≡ false
    → cut (code sep) a ≡ none
unfolding cut
rest_none sep c a h p = map-none c (cut (code sep) a) (rw p at h)

cut_cons :
    (sep c : Char) (a s b : String)
    → is_code (code c) (code sep) ≡ false
    → cut (code sep) s ≡ some (a, b)
    → cut (code sep) (Str.◌∷◌ c s) ≡ some (Str.◌∷◌ c a, b)
unfolding cut
cut_cons sep c a s b p h = rw (p, h) refl

-- A text of id, colon and secret is cut into the two, if the id has no colon.
cut-some :
    (sep : Char) (a b : String)
    → cut (code sep) a ≡ none
    → cut (code sep) (Str.◌++◌ a (Str.◌∷◌ sep b)) ≡ some (a, b)
unfolding cut
cut-some sep Str.[] b h =
    rw (nil-append (Str.◌∷◌ sep b)) (unfold cut in rw (is_code_refl (code sep)) refl)
cut-some sep (Str.◌∷◌ c a) b h = elim (Bool-cases (is_code (code c) (code sep))) [
  | inl p ↦ absurd (cc (rw p at h))
  | inr p ↦
      let rest = cut-some sep a b (rest_none sep c a h p) in
      rw (cons-append c a (Str.◌∷◌ sep b)) (cut_cons sep c a (Str.◌++◌ a (Str.◌∷◌ sep b)) b p rest)
]

-- The header of a client: the scheme, a space, and the payload.
abbrev pub basic_header : String → String
basic_header payload = "B" ∷ "a" ∷ "s" ∷ "i" ∷ "c" ∷ " " ∷ payload

basic_header-payload :
    (payload : String)
    → parse_basic_auth (basic_header payload) ≡ credentials_of (decode_payload payload)
unfolding parse_basic_auth cut equal_fold
basic_header-payload payload = rw (==-of-ne (basic_header payload) "" (cons-ne-nil "B" _)) refl

-- A payload that is the standard encoding of an id without a colon, a colon and a secret is read as
-- that id and that secret, whatever characters they have.
pub parse_basic_auth-basic_header :
    (payload id secret : String)
    → cut b':' id ≡ none
    → decode_string std_encoding payload ≡ some (bytes (Str.◌++◌ id (":" ∷ secret)))
    → parse_basic_auth (basic_header payload) ≡ (id, secret)
unfolding decode_payload
parse_basic_auth-basic_header payload id secret plain_id decodes =
    basic_header-payload payload
    ∙ rw (decodes, text_of-bytes (Str.◌++◌ id (":" ∷ secret)), cut-some ":" id secret plain_id) refl
