-- ===== src/Generator.antt =====
-- internal/server/token.go, and `generateRandomString` of store.go. The moments read from the clock
-- and the replies of the random source are arguments here.
use oauth_2_0_and_open_id_co.Base.{
  ◌*◌, ℕ, String, not, ◌&&◌, Option, none, some, ◌==◌, if◌then◌else◌,
}
use oauth_2_0_and_open_id_co.Dict
use oauth_2_0_and_open_id_co.Dict.{Dict}
use oauth_2_0_and_open_id_co.Errors.{plain, wrapped}
use oauth_2_0_and_open_id_co.Action.{Result, ok, err}
use oauth_2_0_and_open_id_co.Time.{Time, Duration, add, unix, hour}
use oauth_2_0_and_open_id_co.External.{
  External, Reply, value, failure, result_of, PrivateKey, text, number, flag, MapClaims, JwtToken,
}
use oauth_2_0_and_open_id_co.Encoding.{Bytes, raw_url_encode}
use oauth_2_0_and_open_id_co.Model.{User}
use oauth_2_0_and_open_id_co.Scope.{contains_scope}

pub record TokenGenerator : Type 0 where
  pub issuer : String
  pub private_key : PrivateKey
  pub key_id : String
  pub signing_method : String
  pub access_expiry : Duration
  pub id_token_expiry : Duration
  pub refresh_expiry : Duration

unfoldable pub new_token_generator : String → PrivateKey → String → String → TokenGenerator
new_token_generator issuer private_key key_id signing_method = record {
  issuer = issuer;
  private_key = private_key;
  key_id = key_id;
  signing_method = signing_method;
  access_expiry = 2 * hour;
  id_token_expiry = 1 * hour;
  refresh_expiry = 24 * hour;
}

-- The result of `rand.Read` for the bytes asked for, as text.
unfoldable pub random_string : Reply Bytes → Result String
random_string (value b) = ok (raw_url_encode b)
random_string (failure e) =
    err (wrapped "server_error: failed to generate random string: " (plain e))

abbrev pub refresh_token_bytes : ℕ
refresh_token_bytes = 32

abbrev pub authorization_code_bytes : ℕ
authorization_code_bytes = 24

module _ (ext : External) (g : TokenGenerator) where
  -- jwt.NewWithClaims, and the key id in the header if there is one
  abbrev pub new_token : MapClaims → JwtToken
  new_token claims = record {
    method = g.signing_method;
    header = if g.key_id == "" then Dict.empty else Dict.put Dict.empty "kid" g.key_id;
    claims = claims;
  }

  unfoldable pub access_claims : Time → String → String → String → MapClaims
  access_claims now client_id user_id scope =
      let c0 = Dict.put Dict.empty "iss" (text g.issuer) in
      let c1 = Dict.put c0 "sub" (text user_id) in
      let c2 = Dict.put c1 "aud" (text client_id) in
      let c3 = Dict.put c2 "exp" (number (unix (add now g.access_expiry))) in
      let c4 = Dict.put c3 "iat" (number (unix now)) in Dict.put c4 "scope" (text scope)

  -- The signed token; its expiry is `add now g.access_expiry`.
  unfoldable pub sign_access_token : Time → String → String → String → Result String
  unfolding access_claims
  sign_access_token now client_id user_id scope =
      result_of
        (ext.signed_string (new_token (access_claims now client_id user_id scope)) g.private_key)

  -- The claims of the scopes `email` and `profile`, for a user that was found.
  unfoldable pub user_claims : Option User → String → MapClaims → MapClaims
  user_claims none scope claims = claims
  user_claims (some user) scope claims =
      let with_email =
        if contains_scope scope "email" && not (user.email == "")
        then Dict.put (Dict.put claims "email" (text user.email)) "email_verified"
            (flag (not (user.email == "")))
        else claims in
      if contains_scope scope "profile" && not (user.name == "")
      then Dict.put with_email "name" (text user.name)
      else with_email

  unfoldable pub id_claims : Time → String → String → String → ℕ → Option User → String → MapClaims
  unfolding user_claims
  id_claims now client_id user_id nonce auth_time user scope =
      let c0 = Dict.put Dict.empty "iss" (text g.issuer) in
      let c1 = Dict.put c0 "sub" (text user_id) in
      let c2 = Dict.put c1 "aud" (text client_id) in
      let c3 = Dict.put c2 "exp" (number (unix (add now g.id_token_expiry))) in
      let c4 = Dict.put c3 "iat" (number (unix now)) in
      let c5 = Dict.put c4 "auth_time" (number auth_time) in
      user_claims user scope (if nonce == "" then c5 else Dict.put c5 "nonce" (text nonce))

  unfoldable pub generate_id_token :
      Time → String → String → String → ℕ → Option User → String → Result String
  unfolding id_claims
  generate_id_token now client_id user_id nonce auth_time user scope = result_of (
      ext.signed_string (new_token (id_claims now client_id user_id nonce auth_time user scope))
        g.private_key)

  unfoldable pub validate_access_token : Time → String → Result MapClaims
  validate_access_token now token =
      result_of (ext.parse now g.signing_method g.private_key.public_key token)
