-- ===== src/Errors.antt =====
-- internal/server/errors.go, the error types of authorize.go and token_service.go, and the `error`
-- values that the program builds, wraps with `%w` and takes apart with `errors.As`.
use oauth_2_0_and_open_id_co.Base.{ℕ, String, Option, none, some, [], ◌∷◌, concat}

pub record OAuthError : Type 0 where
  pub code : String
  pub description : String

-- An error of the authorization endpoint. An empty `redirect_uri` tells the handler not to redirect.
pub record AuthorizeError : Type 0 where
  pub oauth_error : OAuthError
  pub redirect_uri : String
  pub state : String

pub record TokenError : Type 0 where
  pub code : String
  pub description : String
  pub http_status : ℕ

-- The dynamic types of an `error`: `plain` is a text of another package or of `fmt.Errorf`, and
-- `wrapped` a text in front of an error that `%w` keeps.
pub data Error : Type 0 where
  oauth : OAuthError → Error
  authorize : AuthorizeError → Error
  token : TokenError → Error
  plain : String → Error
  wrapped : String → Error → Error

abbrev pub oauth_text : OAuthError → String
oauth_text e = concat (e.code ∷ ": " ∷ e.description ∷ [])

abbrev pub token_text : TokenError → String
token_text e = concat (e.code ∷ ": " ∷ e.description ∷ [])

-- err.Error()
unfoldable pub error_text : Error → String
error_text (oauth e) = oauth_text e
error_text (authorize e) = oauth_text e.oauth_error
error_text (token e) = token_text e
error_text (plain s) = s
error_text (wrapped s e) = concat (s ∷ error_text e ∷ [])

-- errors.As(err, &oauthErr)
unfoldable pub as_oauth : Error → Option OAuthError
as_oauth (oauth e) = some e
as_oauth (wrapped s e) = as_oauth e
as_oauth (authorize _) = none
as_oauth (token _) = none
as_oauth (plain _) = none

-- errors.As(err, &authErr)
unfoldable pub as_authorize : Error → Option AuthorizeError
as_authorize (authorize e) = some e
as_authorize (wrapped s e) = as_authorize e
as_authorize (oauth _) = none
as_authorize (token _) = none
as_authorize (plain _) = none

-- errors.As(err, &tokenErr)
unfoldable pub as_token : Error → Option TokenError
as_token (token e) = some e
as_token (wrapped s e) = as_token e
as_token (oauth _) = none
as_token (authorize _) = none
as_token (plain _) = none

abbrev pub err_invalid_client : String → OAuthError
err_invalid_client desc = record { code = "invalid_client"; description = desc }

abbrev pub err_invalid_grant : String → OAuthError
err_invalid_grant desc = record { code = "invalid_grant"; description = desc }

abbrev pub err_invalid_scope : String → OAuthError
err_invalid_scope desc = record { code = "invalid_scope"; description = desc }

abbrev pub err_unsupported_grant_type : String → OAuthError
err_unsupported_grant_type desc = record { code = "unsupported_grant_type"; description = desc }

abbrev pub err_unauthorized_client : String → OAuthError
err_unauthorized_client desc = record { code = "unauthorized_client"; description = desc }

abbrev pub err_invalid_request : String → OAuthError
err_invalid_request desc = record { code = "invalid_request"; description = desc }

abbrev pub err_unsupported_response_type : String → OAuthError
err_unsupported_response_type desc = record {
  code = "unsupported_response_type";
  description = desc;
}

abbrev pub err_server_error : String → OAuthError
err_server_error desc = record { code = "server_error"; description = desc }
