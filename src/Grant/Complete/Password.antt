-- ===== src/Grant/Complete/Password.antt =====
-- A password grant that meets every condition succeeds.
use oauth_2_0_and_open_id_co.Errors.{err_unauthorized_client, oauth}
use oauth_2_0_and_open_id_co.Base.{String, suc, ◌≡◌, ap, ◌∙◌, some}
use oauth_2_0_and_open_id_co.Action.{or_fail, ok, proceed, proceed_of_ok, Result}
use oauth_2_0_and_open_id_co.External.{External}
use oauth_2_0_and_open_id_co.Generator.{refresh_token_bytes, random_string, sign_access_token}
use oauth_2_0_and_open_id_co.Grant.{
  TokenRequest, TokenResponse, grant_password, add_id_token, login_result,
}
use oauth_2_0_and_open_id_co.Grant.Complete.{issue_and_finish_of, add_id_token_of}
use oauth_2_0_and_open_id_co.Grant.Login.{IsAuthenticated, validate_and_authenticate_of}
use oauth_2_0_and_open_id_co.Scope.Laws.{Grants, validate_client_scope_iff}
use oauth_2_0_and_open_id_co.Scope.{should_include_id_token}
use oauth_2_0_and_open_id_co.Server.{World}
use oauth_2_0_and_open_id_co.Store.{Client}
use oauth_2_0_and_open_id_co.Time.{unix}

module _ (ext : External) where
  -- A password grant of an authenticated client, for a scope that it may have and a user whom the
  -- installed password function accepts, succeeds if the token is signed and the random source
  -- delivers, and answers with both and with the scope.
  pub grant_password_complete :
      (req : TokenRequest) (client : Client) (handler : String → String → String → Result String)
      (user_id scope access refresh : String) (w : World)
      → IsAuthenticated req.client_id req.client_secret "password" w client
      → w.password_auth_func ≡ some handler
      → handler req.client_id req.username req.password ≡ ok user_id
      → Grants client req.scope scope
      → sign_access_token ext w.generator (ext.now (suc w.clock)) req.client_id user_id scope
        ≡ ok access
      → random_string (ext.rand_read w.draws refresh_token_bytes) ≡ ok refresh
      → (resp : TokenResponse) × (w' : World) × (grant_password ext req w ≡ (ok resp, w'))
        × (resp.access_token ≡ access)
        × (resp.refresh_token ≡ refresh)
        × (resp.scope ≡ scope)
  unfolding grant_password
  grant_password_complete req client handler user_id scope access refresh w auth installed accepted
        granted signed drawn =
      let ticked = record w { clock = suc w.clock } in
      let checked = (validate_client_scope_iff ext.quote client req.scope scope).1 granted in
      let not_configured = oauth (err_unauthorized_client "password grant not configured") in
      let now = unix (ext.now w.clock) in
      let (resp, w', done, tokens) =
        issue_and_finish_of ext req.client_id user_id scope
          (λ v. should_include_id_token scope user_id v.user_store)
          (λ first. add_id_token ext first req.client_id user_id "" now scope) access refresh ticked
          signed drawn
          (λ first v. add_id_token_of ext first req.client_id user_id "" now scope v) in
      (
        resp,
        w',
        proceed_of_ok _ _ (
              validate_and_authenticate_of req.client_id req.client_secret "password" w client auth)
            ∙ (unfold proceed in
                proceed_of_ok _ _ (ap (λ o. or_fail not_configured o w) installed)
                ∙ proceed_of_ok _ _ (ap (λ r. (r, w)) checked)
                ∙ proceed_of_ok _ _ (ap (λ r. (login_result r, w)) accepted)
                ∙ done),
        tokens.0,
        tokens.1,
        tokens.2,
      )
