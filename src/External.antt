-- ===== src/External.antt =====
-- The code that is not in the repository, as one record of functions: the clock, the random source,
-- SHA-256, `%q`, the JWT package (github.com/golang-jwt/jwt/v5) and bcrypt
-- (golang.org/x/crypto/bcrypt). What a theorem relies on is a hypothesis of that theorem.
use oauth_2_0_and_open_id_co.Base.{ℕ, String, Bool, List}
use oauth_2_0_and_open_id_co.Dict.{Dict}
use oauth_2_0_and_open_id_co.Errors.{plain}
use oauth_2_0_and_open_id_co.Action.{Result, ok, err}
use oauth_2_0_and_open_id_co.Time.{Time}

-- The answer of a package: a value, or an error of its own with the text.
pub data Reply {ℓ} (A : Type ℓ) : Type ℓ where
  value : A → Reply A
  failure : String → Reply A

abbrev pub result_of {ℓ} : {A : Type ℓ} → Reply A → Result A
result_of (value a) = ok a
result_of (failure s) = err (plain s)

-- *rsa.PublicKey and *rsa.PrivateKey
pub record PublicKey : Type 0 where
  pub modulus : ℕ
  pub exponent : ℕ

pub record PrivateKey : Type 0 where
  pub public_key : PublicKey
  pub private_exponent : ℕ

-- The values that the program puts into `jwt.MapClaims`.
pub data ClaimValue : Type 0 where
  text : String → ClaimValue
  number : ℕ → ClaimValue
  flag : Bool → ClaimValue

abbrev pub MapClaims : Type 0
MapClaims = Dict ClaimValue

-- *jwt.Token: the signing method's name, the header entries that the program adds, the claims.
pub record JwtToken : Type 0 where
  pub method : String
  pub header : Dict String
  pub claims : MapClaims

pub record External : Type 0 where
  -- the n-th reading of time.Now
  pub now : ℕ → Time
  -- the n-th call of rand.Read, for so many bytes
  pub rand_read : ℕ → ℕ → Reply (List ℕ)
  -- sha256.Sum256
  pub sum256 : List ℕ → List ℕ
  -- fmt.Sprintf("%q", s)
  pub quote : String → String
  -- token.SignedString(key)
  pub signed_string : JwtToken → PrivateKey → Reply String
  -- jwt.Parse at a moment, with the one method that is valid and the key that checks the signature
  pub parse : Time → String → PublicKey → String → Reply MapClaims
  -- bcrypt.CompareHashAndPassword(hash, password) == nil
  pub compare_hash_and_password : String → String → Bool
