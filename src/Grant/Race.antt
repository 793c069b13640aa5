-- ===== src/Grant/Race.antt =====
-- internal/server/grant.go, `grantAuthorizationCode`, a call of a store at a time. `AuthCodeStore` keeps
-- its codes in a sync.Map, so `Get` and `Delete` are each one step, and the requests that Go serves at
-- once may take turns between them; a `Get` that deletes an expired code does so in the same step. What
-- follows the deletion reaches no code and is one step too.
pub mod Alone
pub mod Late
pub mod Held
pub mod Twice
use oauth_2_0_and_open_id_co.Base.{ℕ, Option, none, some, List, [], ◌∷◌}
use oauth_2_0_and_open_id_co.Action.{Result, ok, err}
use oauth_2_0_and_open_id_co.External.{External}
use oauth_2_0_and_open_id_co.Store
use oauth_2_0_and_open_id_co.Store.{Client, AuthorizationCode}
use oauth_2_0_and_open_id_co.Server.{World, load_code, set_codes}
use oauth_2_0_and_open_id_co.Grant.{
  TokenRequest, TokenResponse, invalid_grant, validate_and_authenticate, redeem_code,
}

-- Where a call stands, with the local variables that are live there.
pub data Exchange : Type 0 where
  ready : (req : TokenRequest) → Exchange
  admitted : (req : TokenRequest) (client : Client) → Exchange  -- before AuthCodes.Get
  -- before AuthCodes.Delete
  holding : (req : TokenRequest) (client : Client) (auth_code : AuthorizationCode) → Exchange
  -- after it
  taken : (req : TokenRequest) (client : Client) (auth_code : AuthorizationCode) → Exchange
  finished : (result : Result TokenResponse) → Exchange

abbrev pub after_validation : TokenRequest → Result Client × World → Exchange × World
after_validation req (ok client, w) = (admitted req client, w)
after_validation req (err e, w) = (finished (err e), w)

abbrev pub after_get :
    TokenRequest → Client → Result (Option AuthorizationCode) × World → Exchange × World
after_get req client (ok (some auth_code), w) = (holding req client auth_code, w)
after_get req client (ok none, w) =
    (finished (err (invalid_grant "authorization code not found or expired")), w)
after_get req client (err e, w) = (finished (err e), w)

module _ (ext : External) where
  unfoldable pub step : Exchange → World → Exchange × World
  step (ready req) w =
      after_validation req
        (validate_and_authenticate req.client_id req.client_secret "authorization_code" w)
  step (admitted req client) w = after_get req client (load_code ext req.code w)
  step (holding req client auth_code) w =
      (taken req client auth_code, set_codes w (Store.delete_code w.auth_codes req.code))
  step (taken req client auth_code) w =
      let done = redeem_code ext req client auth_code w in (finished done.0, done.1)
  step (finished result) w = (finished result, w)
