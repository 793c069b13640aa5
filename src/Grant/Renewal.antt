-- ===== src/Grant/Renewal.antt =====
-- internal/server/grant.go, `grantRefreshToken`, a call of a store at a time. `TokenStore` keeps its
-- refresh tokens in a sync.Map, so `GetRefreshToken` and `DeleteRefreshToken` are each one step, and
-- the requests that Go serves at once may take turns between them. What follows the deletion reaches no
-- refresh token but the new one, and is one step too.
pub mod Alone
pub mod Held
pub mod Twice
use oauth_2_0_and_open_id_co.Base.{Option, none, some, String}
use oauth_2_0_and_open_id_co.Action.{Result, ok, err, Action, ◌>>◌}
use oauth_2_0_and_open_id_co.External.{External}
use oauth_2_0_and_open_id_co.Store
use oauth_2_0_and_open_id_co.Store.{Client, TokenInfo}
use oauth_2_0_and_open_id_co.Server.{World, load_refresh_token, set_tokens, update_tokens}
use oauth_2_0_and_open_id_co.Grant.{
  TokenRequest, TokenResponse, invalid_grant, validate_and_authenticate, check_refresh,
  renew_tokens,
}

-- Where a call stands, with the local variables that are live there.
pub data Renewal : Type 0 where
  ready : (req : TokenRequest) → Renewal
  admitted : (req : TokenRequest) (client : Client) → Renewal  -- before GetRefreshToken
  -- before the checks and DeleteRefreshToken
  holding : (req : TokenRequest) (client : Client) (old_info : TokenInfo) → Renewal
  -- after it
  retired : (old_info : TokenInfo) (scope : String) → Renewal
  finished : (result : Result TokenResponse) → Renewal

abbrev pub renewal_validated : TokenRequest → Result Client × World → Renewal × World
renewal_validated req (ok client, w) = (admitted req client, w)
renewal_validated req (err e, w) = (finished (err e), w)

abbrev pub renewal_loaded :
    TokenRequest → Client → Result (Option TokenInfo) × World → Renewal × World
renewal_loaded req client (ok (some old_info), w) = (holding req client old_info, w)
renewal_loaded req client (ok none, w) =
    (finished (err (invalid_grant "refresh token not found")), w)
renewal_loaded req client (err e, w) = (finished (err e), w)

abbrev pub renewal_checked : TokenRequest → TokenInfo → Result String × World → Renewal × World
renewal_checked req old_info (ok scope, w) =
    (retired old_info scope, set_tokens w (Store.delete_refresh_token w.tokens req.refresh_token))
renewal_checked req old_info (err e, w) = (finished (err e), w)

module _ (ext : External) where
  -- s.Tokens.DeleteAccessToken(oldInfo.AccessToken), and the new tokens
  abbrev pub renew_retired : TokenInfo → String → Action World TokenResponse
  renew_retired old_info scope =
      update_tokens (λ s. Store.delete_access_token s old_info.access_token)
      >> renew_tokens ext old_info scope

  unfoldable pub renewal_step : Renewal → World → Renewal × World
  renewal_step (ready req) w =
      renewal_validated req
        (validate_and_authenticate req.client_id req.client_secret "refresh_token" w)
  renewal_step (admitted req client) w =
      renewal_loaded req client (load_refresh_token ext req.refresh_token w)
  renewal_step (holding req client old_info) w =
      renewal_checked req old_info (check_refresh ext req client old_info w)
  renewal_step (retired old_info scope) w =
      let done = renew_retired old_info scope w in (finished done.0, done.1)
  renewal_step (finished result) w = (finished result, w)
