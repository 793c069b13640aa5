-- ===== src/Pkce.antt =====
-- internal/server/pkce.go. `subtle.ConstantTimeCompare` answers 1 exactly when the bytes are the
-- same; how long it takes is not modelled.
use oauth_2_0_and_open_id_co.Base.{
  String, Bool, true, false, ◌==◌, if◌then◌else◌, ◌≡◌, ◌↔◌, ◌⊎◌, arith, eq_iff,
}
use oauth_2_0_and_open_id_co.Encoding.{Bytes, bytes, raw_url_encode}

-- subtle.ConstantTimeCompare([]byte(a), []byte(b)) == 1
abbrev pub constant_time_equal : String → String → Bool
constant_time_equal a b = a == b

module _ (sum256 : Bytes → Bytes) where
  -- The S256 challenge of a verifier.
  unfoldable pub s256 : String → String
  s256 verifier = raw_url_encode (sum256 (bytes verifier))

  unfoldable pub verify_pkce : String → String → String → Bool
  verify_pkce challenge method verifier =
      if challenge == ""
      then true
      else if method == "S256"
      then constant_time_equal (s256 verifier) challenge
      else false

  -- A verifier passes exactly when there is no challenge, or the method is S256 and the challenge is
  -- the verifier's.
  pub verify_pkce_iff :
      (challenge method verifier : String)
      → (verify_pkce challenge method verifier ≡ true)
        ↔ ((challenge ≡ "") ⊎ ((method ≡ "S256") × (s256 verifier ≡ challenge)))
  unfolding verify_pkce
  verify_pkce_iff challenge method verifier =
      ground (arith, eq_iff challenge "", eq_iff method "S256", eq_iff (s256 verifier) challenge)
