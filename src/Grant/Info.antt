-- ===== src/Grant/Info.antt =====
-- The request and the answer of internal/server/grant.go, its errors, and what it stores of a token.
use oauth_2_0_and_open_id_co.Store.{TokenInfo}
use oauth_2_0_and_open_id_co.Time.{Time}
use oauth_2_0_and_open_id_co.Errors.{err_invalid_grant, oauth, plain, Error}
use oauth_2_0_and_open_id_co.Base.{ℕ, String}

pub record TokenRequest : Type 0 where
  pub grant_type : String
  pub client_id : String
  pub client_secret : String
  pub code : String
  pub redirect_uri : String
  pub scope : String
  pub username : String
  pub password : String
  pub refresh_token : String
  pub code_verifier : String

pub record TokenResponse : Type 0 where
  pub access_token : String
  pub token_type : String
  pub expires_in : ℕ
  pub refresh_token : String
  pub scope : String
  pub id_token : String

abbrev pub nil_client : Error
nil_client = plain "invalid memory address or nil pointer dereference"

abbrev pub invalid_grant : String → Error
invalid_grant desc = oauth (err_invalid_grant desc)

abbrev pub access_info : String → String → String → String → Time → TokenInfo
access_info access_token client_id user_id scope expires_at = record {
  access_token = access_token;
  token_type = "Bearer";
  refresh_token = "";
  scope = scope;
  user_id = user_id;
  client_id = client_id;
  expires_at = expires_at;
}

abbrev pub refresh_info : String → String → String → String → String → Time → TokenInfo
refresh_info access_token refresh_token client_id user_id scope expires_at = record {
  access_token = access_token;
  token_type = "Bearer";
  refresh_token = refresh_token;
  scope = scope;
  user_id = user_id;
  client_id = client_id;
  expires_at = expires_at;
}
