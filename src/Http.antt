-- ===== src/Http.antt =====
-- Requests and responses as the handlers of internal/handler see them through gin: the bodies are the
-- values that are encoded as JSON, and a header that is set after the body is written is lost.
use oauth_2_0_and_open_id_co.Oidc.{Jwk, OidcDiscovery}
use oauth_2_0_and_open_id_co.Service.{UserInfoResponse}
use oauth_2_0_and_open_id_co.Store.{TokenInfo}
use oauth_2_0_and_open_id_co.Uri.{Query}
use oauth_2_0_and_open_id_co.Dict.{Dict}
use oauth_2_0_and_open_id_co.Grant.{TokenResponse}
use oauth_2_0_and_open_id_co.Dict
use oauth_2_0_and_open_id_co.Server.{World}
use oauth_2_0_and_open_id_co.Base.{Option, List, Bool, ℕ, String}

pub data Body : Type 0 where
  no_body : Body
  error_body : String → String → Body
  token_body : TokenResponse → Body
  token_info_body : TokenInfo → Body
  user_info_body : UserInfoResponse → Body
  login_status_body : Bool → String → Body
  redirect_body : String → Body
  auth_context_body : String → String → String → Body
  discovery_body : OidcDiscovery → Body
  key_set_body : List Jwk → Body
  text_body : String → Body

pub record Response : Type 0 where
  pub status : ℕ
  pub headers : Dict String
  pub body : Body

-- c.JSON(status, body), c.AbortWithStatusJSON(status, body)
abbrev pub json : ℕ → Body → Response
json status body = record { status = status; headers = Dict.empty; body = body }

-- model.ErrorResponse
abbrev pub error_json : ℕ → String → String → Response
error_json status error description = json status (error_body error description)

-- c.Header(k, v), before the body is written
unfoldable pub with_header : String → String → Response → Response
with_header k v r = record r { headers = Dict.put r.headers k v }

-- c.Header(k, v), after the body is written
abbrev pub header_after : String → String → Response → Response
header_after k v r = r

-- c.Redirect(http.StatusFound, location)
unfoldable pub redirect : String → Response
unfolding with_header
redirect location = with_header "Location" location (json 302 no_body)

-- c.AbortWithError(status, err), c.Status(status)
abbrev pub bare : ℕ → Response
bare status = json status no_body

unfoldable pub challenge_basic : Response → Response
unfolding with_header
challenge_basic r = with_header "WWW-Authenticate" "Basic realm=\"OAuth2\"" r

pub data Method : Type 0 where
  get post options : Method

pub record LoginRequest : Type 0 where
  pub username : String
  pub password : String

pub record AuthDecisionRequest : Type 0 where
  pub authorize : Bool
  pub deny : Bool

-- The JSON bodies come decoded, or none where decoding fails.
pub record HttpRequest : Type 0 where
  pub method : Method
  pub path : String
  pub request_uri : String
  -- the Authorization and the Origin header, or ""
  pub authorization : String
  pub origin : String
  pub query : Query
  pub form : Query
  pub login_json : Option LoginRequest
  pub decision_json : Option AuthDecisionRequest
  pub client_ip : String
  -- whether session.Start delivers the session
  pub starts : Bool

-- The values of a session; a store may give an int64 back as a float64, here with its whole part.
pub data SessionValue : Type 0 where
  str : String → SessionValue
  int64 : ℕ → SessionValue
  float64 : ℕ → SessionValue

-- What a request works on: the server, and the session of the browser. Every Set or Delete of the
-- program is followed by a Save, which is taken to succeed.
pub record Visit : Type 0 where
  pub world : World
  pub session : Dict SessionValue

-- A handler: the response, and what the request leaves.
abbrev pub Answer : Type 0
Answer = Response × Visit
