-- ===== src/Encoding/Url.antt =====
-- The texts that generateRandomString makes: their length and their characters.
use oauth_2_0_and_open_id_co.Encoding.Decode.{is_code}
use oauth_2_0_and_open_id_co.Action.{ok}
use oauth_2_0_and_open_id_co.External.{failure, value, Reply}
use oauth_2_0_and_open_id_co.Generator.{random_string}
use oauth_2_0_and_open_id_co.Base.{
  zero, refl, sym, String, Char, ◌/◌, ◌+◌, [], ◌*◌, suc, arith, ◌||◌, ◌∷◌, ◌≡◌, ◌&&◌, true, leb, ℕ,
  Bool,
}
use oauth_2_0_and_open_id_co.Encoding.{url_alphabet, sextet, pick, raw_url_encode, Bytes}
use Prim.Native.Char.{code}
use Prim.Native.String as Str
use Prim.Native.String.count as count_laws

-- The number of elements of a slice.
unfoldable pub length : Bytes → ℕ
length [] = 0
length (b ∷ rest) = suc (length rest)

-- A letter, a digit, '-' or '_': what a URL holds unescaped.
unfoldable pub is_unreserved : Char → Bool
is_unreserved c =
    (leb b'A' (code c) && leb (code c) b'Z')
    || (leb b'a' (code c) && leb (code c) b'z')
    || (leb b'0' (code c) && leb (code c) b'9')
    || is_code (code c) b'-'
    || is_code (code c) b'_'

unfoldable pub all_unreserved : String → Bool
all_unreserved Str.[] = true
all_unreserved (Str.◌∷◌ c s) = is_unreserved c && all_unreserved s

and-parts : (a b : Bool) → (a && b) ≡ true → (a ≡ true) × (b ≡ true)
and-parts a b h = ground arith

pick-is_unreserved :
    (s : String) (i : ℕ) → all_unreserved s ≡ true → is_unreserved (pick s i) ≡ true
unfolding pick all_unreserved is_unreserved
pick-is_unreserved Str.[] i h = refl
pick-is_unreserved (Str.◌∷◌ c s) zero h = (and-parts _ _ h).0
pick-is_unreserved (Str.◌∷◌ c s) (suc i) h = pick-is_unreserved s i (and-parts _ _ h).1

sextet-is_unreserved : (i : ℕ) → is_unreserved (sextet i) ≡ true
unfolding sextet
sextet-is_unreserved i =
    pick-is_unreserved url_alphabet i (unfold all_unreserved is_unreserved in refl)

pub raw_url_encode-all_unreserved : (b : Bytes) → all_unreserved (raw_url_encode b) ≡ true
unfolding raw_url_encode all_unreserved
raw_url_encode-all_unreserved [] = refl
raw_url_encode-all_unreserved (a ∷ []) = simp sextet-is_unreserved refl
raw_url_encode-all_unreserved (a ∷ b ∷ []) = simp sextet-is_unreserved refl
raw_url_encode-all_unreserved (a ∷ b ∷ c ∷ rest) =
    simp (sextet-is_unreserved, raw_url_encode-all_unreserved rest) refl

pub raw_url_encode-count : (b : Bytes) → Str.count (raw_url_encode b) ≡ (length b * 4 + 2) / 3
unfolding raw_url_encode length
raw_url_encode-count [] = refl
raw_url_encode-count (a ∷ []) = rw (count_laws.cons, count_laws.cons, count_laws.nil) refl
raw_url_encode-count (a ∷ b ∷ []) =
    rw (count_laws.cons, count_laws.cons, count_laws.cons, count_laws.nil) refl
raw_url_encode-count (a ∷ b ∷ c ∷ rest) =
    let laws = raw_url_encode-count rest in
    rw (count_laws.cons, count_laws.cons, count_laws.cons, count_laws.cons) (omega (arith, laws))

-- A random text is made of so many bytes, has four characters for three of them, rounded up, and
-- holds only what a URL holds unescaped.
pub random_string-all_unreserved :
    (reply : Reply Bytes) (s : String)
    → random_string reply ≡ ok s
    → (b : Bytes) × (reply ≡ value b)
      × (Str.count s ≡ (length b * 4 + 2) / 3)
      × (all_unreserved s ≡ true)
unfolding random_string
random_string-all_unreserved (value b) s h =
    let same : raw_url_encode b ≡ s = cc in
    (
      b,
      refl,
      rw (sym same) (raw_url_encode-count b),
      rw (sym same) (raw_url_encode-all_unreserved b),
    )
random_string-all_unreserved (failure e) s h = cc
