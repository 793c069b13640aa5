-- ===== src/Oidc.antt =====
-- internal/oidc/oidc.go and the OIDCDiscovery of internal/model/model.go. The thumbprint of a key is
-- that of github.com/go-jose/go-jose/v4.
pub mod Claims
use oauth_2_0_and_open_id_co.Encoding.{bytes, raw_url_encode, Bytes}
use oauth_2_0_and_open_id_co.External.{PrivateKey, PublicKey}
use oauth_2_0_and_open_id_co.Base.{Option, none, ℕ, false, [], Bool, ◌∷◌, concat, List, String}
use oauth_2_0_and_open_id_co.External

-- model.AppConfig
pub record AppConfig : Type 0 where
  pub issuer : String
  pub port : ℕ
  pub rsa_private_key : Option PrivateKey
  pub rsa_public_key : Option PublicKey
  pub key_id : String
  pub jwt_signing_method : String
  pub secure_cookie : Bool
  pub rsa_key_path : String

unfoldable pub default_app_config : AppConfig
default_app_config = record {
  issuer = "http://localhost:9096";
  port = 9096;
  rsa_private_key = none;
  rsa_public_key = none;
  key_id = "";
  jwt_signing_method = "RS256";
  secure_cookie = false;
  rsa_key_path = "";
}

-- jose.JSONWebKey
pub record Jwk : Type 0 where
  -- a pointer, none for nil
  pub key : Option PublicKey
  pub key_id : String
  pub algorithm : String
  pub usage : String

pub record JwksBuilder : Type 0 where
  pub public_key : Option PublicKey
  pub key_id : String

-- JWKSBuilder.Build
unfoldable pub build_jwks : JwksBuilder → List Jwk
build_jwks b =
    record { key = b.public_key; key_id = b.key_id; algorithm = "RS256"; usage = "sig" } ∷ []

abbrev thumbprint_text : External.Reply Bytes → String
thumbprint_text (External.value b) = raw_url_encode b
thumbprint_text (External.failure e) = raw_url_encode (bytes "fallback-kid")

-- ComputeKeyID, with jwk.Thumbprint(crypto.SHA256)
unfoldable pub compute_key_id : (Jwk → External.Reply Bytes) → Option PublicKey → String
compute_key_id thumbprint key =
    thumbprint_text
      (thumbprint (record { key = key; key_id = ""; algorithm = "RS256"; usage = "sig" }))

pub record OidcDiscovery : Type 0 where
  pub issuer : String
  pub authorization_endpoint : String
  pub token_endpoint : String
  pub user_info_endpoint : String
  pub jwks_endpoint : String
  pub end_session_endpoint : String
  pub revocation_endpoint : String
  pub scopes_supported : List String
  pub response_types_supported : List String
  pub response_modes_supported : List String
  pub grant_types_supported : List String
  pub subject_types_supported : List String
  pub id_token_signing_algs : List String
  pub token_endpoint_auth_methods : List String
  pub claims_supported : List String
  pub code_challenge_methods_supported : List String
  pub claims_parameter_supported : Bool

-- DiscoveryBuilder.Build
unfoldable pub build_discovery : AppConfig → OidcDiscovery
build_discovery config =
    let base_url = config.issuer in
    record {
      issuer = base_url;
      authorization_endpoint = concat (base_url ∷ "/oauth/authorize" ∷ []);
      token_endpoint = concat (base_url ∷ "/oauth/token" ∷ []);
      user_info_endpoint = concat (base_url ∷ "/userinfo" ∷ []);
      jwks_endpoint = concat (base_url ∷ "/.well-known/jwks.json" ∷ []);
      end_session_endpoint = concat (base_url ∷ "/logout" ∷ []);
      revocation_endpoint = concat (base_url ∷ "/oauth/revoke" ∷ []);
      scopes_supported = "openid" ∷ "profile" ∷ "email" ∷ [];
      response_types_supported = "code" ∷ [];
      response_modes_supported = "query" ∷ [];
      grant_types_supported =
          "authorization_code" ∷ "client_credentials" ∷ "refresh_token" ∷ "password" ∷ [];
      subject_types_supported = "public" ∷ [];
      id_token_signing_algs = "RS256" ∷ [];
      token_endpoint_auth_methods = "client_secret_basic" ∷ "client_secret_post" ∷ [];
      claims_supported =
          "sub" ∷ "iss" ∷ "aud" ∷ "exp" ∷ "iat" ∷ "auth_time" ∷ "nonce" ∷ "name" ∷ "email"
          ∷ "email_verified" ∷ [];
      code_challenge_methods_supported = "S256" ∷ [];
      claims_parameter_supported = false;
    }
