-- ===== src/Grant/Dispatch.antt =====
-- The token endpoint as a whole: what it refuses, and that a refusal of the client changes nothing.
use oauth_2_0_and_open_id_co.Grant.Login.{validate_and_authenticate_refused}
use oauth_2_0_and_open_id_co.Server.{validate_client, World}
use oauth_2_0_and_open_id_co.Base.{false, eq_iff, arith, [], ◌≡◌, ◌∷◌, Has, String, List}
use oauth_2_0_and_open_id_co.Errors.{err_unsupported_grant_type, err_invalid_client, oauth, Error}
use oauth_2_0_and_open_id_co.Action.{proceed_of_err, err}
use oauth_2_0_and_open_id_co.Grant.{
  token, grant_refresh_token, grant_client_credentials, grant_password, grant_authorization_code,
  TokenRequest,
}
use oauth_2_0_and_open_id_co.External.{External}

-- The grant types that the endpoint knows.
abbrev pub grant_types : List String
grant_types = "authorization_code" ∷ "password" ∷ "client_credentials" ∷ "refresh_token" ∷ []

abbrev bad_client : Error
bad_client = oauth (err_invalid_client "authentication failed")

module _ (ext : External) (req : TokenRequest) where
  code_refused :
      (w : World)
      → validate_client w.server req.client_id req.client_secret ≡ false
      → grant_authorization_code ext req w ≡ (err bad_client, w)
  unfolding grant_authorization_code
  code_refused w h =
      proceed_of_err _ _
        (validate_and_authenticate_refused req.client_id req.client_secret "authorization_code" w h)

  password_refused :
      (w : World)
      → validate_client w.server req.client_id req.client_secret ≡ false
      → grant_password ext req w ≡ (err bad_client, w)
  unfolding grant_password
  password_refused w h =
      proceed_of_err _ _
        (validate_and_authenticate_refused req.client_id req.client_secret "password" w h)

  machine_refused :
      (w : World)
      → validate_client w.server req.client_id req.client_secret ≡ false
      → grant_client_credentials ext req w ≡ (err bad_client, w)
  unfolding grant_client_credentials
  machine_refused w h =
      proceed_of_err _ _
        (validate_and_authenticate_refused req.client_id req.client_secret "client_credentials" w h)

  refresh_refused :
      (w : World)
      → validate_client w.server req.client_id req.client_secret ≡ false
      → grant_refresh_token ext req w ≡ (err bad_client, w)
  unfolding grant_refresh_token
  refresh_refused w h =
      proceed_of_err _ _
        (validate_and_authenticate_refused req.client_id req.client_secret "refresh_token" w h)

  -- A client that is not registered, or a wrong secret, gets invalid_client and changes nothing,
  -- whatever grant type that the endpoint knows it asks for.
  pub token_refused :
      (w : World)
      → Has req.grant_type grant_types
      → validate_client w.server req.client_id req.client_secret ≡ false
      → token ext req w ≡ (err bad_client, w)
  unfolding token
  token_refused w known h = ground (
    arith,
    code_refused w h,
    password_refused w h,
    machine_refused w h,
    refresh_refused w h,
    eq_iff req.grant_type "authorization_code",
    eq_iff req.grant_type "password",
    eq_iff req.grant_type "client_credentials",
    eq_iff req.grant_type "refresh_token",
  )

  -- Any other grant type is refused by its name, and changes nothing.
  pub token_unsupported :
      (w : World)
      → (Has req.grant_type grant_types → ⊥)
      → token ext req w ≡ (err (oauth (err_unsupported_grant_type req.grant_type)), w)
  unfolding token
  token_unsupported w other = ground (
    arith,
    other,
    eq_iff req.grant_type "authorization_code",
    eq_iff req.grant_type "password",
    eq_iff req.grant_type "client_credentials",
    eq_iff req.grant_type "refresh_token",
  )
