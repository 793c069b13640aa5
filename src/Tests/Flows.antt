-- ===== src/Tests/Flows.antt =====
-- The authorization code flow at the requests of Tests/Sample.
use oauth_2_0_and_open_id_co.Grant.Login.{IsAuthenticated}
use oauth_2_0_and_open_id_co.Grant.Complete.{grant_authorization_code_complete}
use oauth_2_0_and_open_id_co.Store.{code_expiry}
use oauth_2_0_and_open_id_co.Generator.{refresh_token_bytes, random_string, sign_access_token}
use oauth_2_0_and_open_id_co.Pkce.{verify_pkce}
use oauth_2_0_and_open_id_co.Expiry.Laws.{view}
use oauth_2_0_and_open_id_co.Base.{some, refl, true, ◌≡◌}
use oauth_2_0_and_open_id_co.System.Flow.{authorize_request-IsFlow, IsFlow}
use oauth_2_0_and_open_id_co.Tests.Runs.{authorize_run, authorized, answered, running}
use oauth_2_0_and_open_id_co.Authorize.{authorize_request}
use oauth_2_0_and_open_id_co.Action.{ok, Result}
use oauth_2_0_and_open_id_co.Server.{World}
use oauth_2_0_and_open_id_co.Grant.{grant_authorization_code, TokenResponse, TokenRequest}
use oauth_2_0_and_open_id_co.Tests.Requests.{sample-Grants}
use oauth_2_0_and_open_id_co.Tests.Sample.{
  generator, ext, world, authorize_req, token_req, client, code,
}

-- The exchange of the code that the sample's authorization request gets.
abbrev flow_req : TokenRequest
flow_req = record token_req { code = "ABgA" }

abbrev issued_world : World
issued_world = (authorize_request ext authorize_req world).1

abbrev flowed : Result TokenResponse × World
flowed = grant_authorization_code ext flow_req issued_world

flow_run : flowed ≡ (ok (answered "ASAA" "openid read"), flowed.1)
unfolding running
flow_run = refl

authorize_request-IsFlow_example :
    IsFlow ext authorize_req flow_req flowed.1 (answered "ASAA" "openid read")
authorize_request-IsFlow_example =
    authorize_request-IsFlow ext authorize_req flow_req world issued_world issued_world flowed.1
      authorized (answered "ASAA" "openid read") authorize_run refl refl flow_run

live_run : view code_expiry (ext.now world.clock) world.auth_codes.codes "c1" ≡ some code
unfolding running
live_run = refl

met_run : verify_pkce ext.sum256 "dg" "S256" "v" ≡ true
unfolding running
met_run = refl

client_run : IsAuthenticated "app" "s3cret" "authorization_code" world client
unfolding running
client_run = (refl, refl, refl)

signed_run : sign_access_token ext generator (ext.now 6) "app" "1" "openid read" ≡ ok "jwt"
unfolding running
signed_run = refl

drawn_run : random_string (ext.rand_read 0 refresh_token_bytes) ≡ ok "ACAA"
unfolding running
drawn_run = refl

grant_authorization_code_complete_example :
    (resp : TokenResponse) × (w' : World) × (grant_authorization_code ext token_req world
      ≡ (ok resp, w'))
    × (resp.access_token ≡ "jwt")
    × (resp.refresh_token ≡ "ACAA")
    × (resp.scope ≡ "openid read")
grant_authorization_code_complete_example =
    grant_authorization_code_complete ext token_req client code "openid read" "jwt" "ACAA" world
      client_run live_run refl refl met_run sample-Grants signed_run drawn_run
