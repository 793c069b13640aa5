-- ===== src/Tests/Grants.antt =====
-- The theorems on the token endpoint, at the requests of Tests/Sample.
use oauth_2_0_and_open_id_co.Tests.Requests.{sample-Grants}
use oauth_2_0_and_open_id_co.Grant.Complete.Refresh.{grant_refresh_token_complete}
use oauth_2_0_and_open_id_co.Grant.Info.{TokenResponse}
use oauth_2_0_and_open_id_co.Tests.Sample.{code}
use oauth_2_0_and_open_id_co.Base.{refl}
use oauth_2_0_and_open_id_co.Grant.SingleUse.{exchange_once}
use oauth_2_0_and_open_id_co.Action.{ok, err}
use oauth_2_0_and_open_id_co.Store.{token_expiry, Client, code_expiry}
use oauth_2_0_and_open_id_co.Expiry.Laws.{view}
use oauth_2_0_and_open_id_co.Grant.Login.{IsAuthenticated}
use oauth_2_0_and_open_id_co.Tests.Sample.{refresh, client, token_req, world, ext}
use oauth_2_0_and_open_id_co.Base.{inl, some, true, ◌≡◌, String}
use oauth_2_0_and_open_id_co.Grant.Machine.{grant_client_credentials-IsForClient, IsForClient}
use oauth_2_0_and_open_id_co.Grant.Rotate.{grant_refresh_token-IsRotated, IsRotated}
use oauth_2_0_and_open_id_co.Grant.{
  invalid_grant, grant_client_credentials, grant_refresh_token, grant_authorization_code,
}
use oauth_2_0_and_open_id_co.Tests.Runs.{
  machine_run, refresh_run, exchange_run, read_req, answered, running,
}
use oauth_2_0_and_open_id_co.Grant.Exchange.{grant_authorization_code-IsExchanged, IsExchanged}
use oauth_2_0_and_open_id_co.Server.{World}
use oauth_2_0_and_open_id_co.Dict
use oauth_2_0_and_open_id_co.Store

abbrev after_exchange : World
after_exchange = (grant_authorization_code ext token_req world).1

grant_authorization_code-IsExchanged_example :
    IsExchanged ext token_req world after_exchange (answered "ACAA" "openid read")
grant_authorization_code-IsExchanged_example =
    grant_authorization_code-IsExchanged ext token_req world after_exchange
      (answered "ACAA" "openid read") exchange_run

sample_client :
    (grant : String)
    → Store.is_grant_type_allowed client grant ≡ true
    → IsAuthenticated "app" "s3cret" grant world client
unfolding Store.get_by_id Dict.get
sample_client grant allowed = (refl, refl, allowed)

later_client : IsAuthenticated "app" "s3cret" "authorization_code" after_exchange client
unfolding running
later_client = (refl, refl, refl)

code_is_live : view code_expiry (ext.now 5) world.auth_codes.codes "c1" ≡ some code
unfolding Dict.get
code_is_live = refl

exchange_once_example :
    (grant_authorization_code ext token_req after_exchange).0
    ≡ err (invalid_grant "authorization code not found or expired")
exchange_once_example =
    exchange_once ext token_req token_req client client code world after_exchange
      (sample_client "authorization_code" (unfold Store.is_grant_type_allowed in refl)) code_is_live
      refl refl later_client

abbrev after_refresh : World
after_refresh = (grant_refresh_token ext token_req world).1

grant_refresh_token-IsRotated_example :
    IsRotated ext token_req world after_refresh (answered "ACAA" "openid read")
grant_refresh_token-IsRotated_example =
    grant_refresh_token-IsRotated ext token_req world after_refresh (answered "ACAA" "openid read")
      refresh_run

refresh_is_stored : Dict.get world.tokens.refresh_tokens "r1" ≡ some refresh
unfolding Dict.get
refresh_is_stored = refl

abbrev after_machine : World
after_machine = (grant_client_credentials ext read_req world).1

grant_client_credentials-IsForClient_example :
    IsForClient ext read_req world after_machine (answered "" "read")
grant_client_credentials-IsForClient_example =
    grant_client_credentials-IsForClient ext read_req world after_machine (answered "" "read")
      machine_run

refresh_is_live : view token_expiry (ext.now 5) world.tokens.refresh_tokens "r1" ≡ some refresh
unfolding Dict.get
refresh_is_live = refl

grant_refresh_token_complete_example :
    (resp : TokenResponse) × (w' : World) × (grant_refresh_token ext token_req world
      ≡ (ok resp, w'))
    × (resp.access_token ≡ "jwt")
    × (resp.refresh_token ≡ "ACAA")
    × (resp.scope ≡ "openid read")
unfolding running
grant_refresh_token_complete_example =
    grant_refresh_token_complete ext token_req client refresh "openid read" "jwt" "ACAA" world
      (sample_client "refresh_token" (unfold Store.is_grant_type_allowed in refl)) refresh_is_live
      refl sample-Grants (inl refl) refl refl
