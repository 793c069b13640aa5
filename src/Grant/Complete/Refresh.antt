-- ===== src/Grant/Complete/Refresh.antt =====
-- A refresh that meets every condition succeeds.
use oauth_2_0_and_open_id_co.Base.{String, suc, ◌≡◌, ◌⊎◌, ap, ◌∙◌, true, some, arith, eq_iff}
use oauth_2_0_and_open_id_co.Action.{◌>>=◌, ok, proceed, proceed_of_ok}
use oauth_2_0_and_open_id_co.Expiry.Laws.{view}
use oauth_2_0_and_open_id_co.External.{External}
use oauth_2_0_and_open_id_co.Generator.{refresh_token_bytes, random_string, sign_access_token}
use oauth_2_0_and_open_id_co.Grant.{
  TokenRequest, TokenResponse, grant_refresh_token, check_refresh, renew_tokens, default_scope,
  add_id_token,
}
use oauth_2_0_and_open_id_co.Grant.Complete.{Delivers, issue_and_finish_of, add_id_token_of}
use oauth_2_0_and_open_id_co.Grant.Login.{IsAuthenticated, validate_and_authenticate_of}
use oauth_2_0_and_open_id_co.Scope.Laws.{Grants, validate_client_scope_iff}
use oauth_2_0_and_open_id_co.Scope.{
  is_scope_narrowed, validate_client_scope, should_include_id_token,
}
use oauth_2_0_and_open_id_co.Server.{World, load_refresh_token, read_clock, set_tokens}
use oauth_2_0_and_open_id_co.Server.Loads.{load_refresh_token-eq}
use oauth_2_0_and_open_id_co.Store
use oauth_2_0_and_open_id_co.Store.{Client, TokenInfo, token_expiry}
use oauth_2_0_and_open_id_co.Time.{unix}

module _ (ext : External) where
  pub check_refresh_of :
      (req : TokenRequest) (client : Client) (old : TokenInfo) (scope : String) (w : World)
      → old.client_id ≡ req.client_id
      → validate_client_scope ext.quote client (default_scope req.scope old.scope) ≡ ok scope
      → (req.scope ≡ "") ⊎ (is_scope_narrowed scope old.scope ≡ true)
      → check_refresh ext req client old w ≡ (ok scope, w)
  unfolding check_refresh proceed
  check_refresh_of req client old scope w owner granted narrowed =
      ground (arith, eq_iff old.client_id req.client_id, eq_iff req.scope "")

  pub renew_tokens_of :
      (old : TokenInfo) (scope access refresh : String) (w : World)
      → sign_access_token ext w.generator (ext.now w.clock) old.client_id old.user_id scope
        ≡ ok access
      → random_string (ext.rand_read w.draws refresh_token_bytes) ≡ ok refresh
      → Delivers ext (renew_tokens ext old scope) w access refresh scope
  unfolding renew_tokens
  renew_tokens_of old scope access refresh w signed drawn =
      issue_and_finish_of ext old.client_id old.user_id scope
        (λ v. should_include_id_token scope old.user_id v.user_store)
        (λ first. read_clock ext >>= λ now.
          add_id_token ext first old.client_id old.user_id "" (unix now) scope)
        access refresh w signed drawn
        (λ first v.
          unfold proceed in
          add_id_token_of ext first old.client_id old.user_id "" (unix (ext.now v.clock)) scope
            (record v { clock = suc v.clock }))

  -- A refresh by an authenticated client, with a live refresh token that was issued to it, for a scope
  -- that the client may have and that is no wider than the old one where the request names one, succeeds
  -- if the token is signed and the random source delivers, and answers with both and with the scope.
  pub grant_refresh_token_complete :
      (req : TokenRequest) (client : Client) (old : TokenInfo) (scope access refresh : String)
      (w : World)
      → IsAuthenticated req.client_id req.client_secret "refresh_token" w client
      → view token_expiry (ext.now w.clock) w.tokens.refresh_tokens req.refresh_token ≡ some old
      → old.client_id ≡ req.client_id
      → Grants client (default_scope req.scope old.scope) scope
      → (req.scope ≡ "") ⊎ (is_scope_narrowed scope old.scope ≡ true)
      → sign_access_token ext w.generator (ext.now (suc w.clock)) old.client_id old.user_id scope
        ≡ ok access
      → random_string (ext.rand_read w.draws refresh_token_bytes) ≡ ok refresh
      → (resp : TokenResponse) × (w' : World) × (grant_refresh_token ext req w ≡ (ok resp, w'))
        × (resp.access_token ≡ access)
        × (resp.refresh_token ≡ refresh)
        × (resp.scope ≡ scope)
  unfolding grant_refresh_token load_refresh_token
  grant_refresh_token_complete req client old scope access refresh w auth live owner granted
        narrowed signed drawn =
      let w1 = (load_refresh_token ext req.refresh_token w).1 in
      let first = Store.delete_refresh_token w1.tokens req.refresh_token in
      let after = set_tokens w1 (Store.delete_access_token first old.access_token) in
      let loaded : load_refresh_token ext req.refresh_token w ≡ (ok (some old), w1) =
        load_refresh_token-eq ext req.refresh_token w ∙ ap (λ o. (ok o, w1)) live in
      let checked =
        check_refresh_of req client old scope w1 owner
          ((validate_client_scope_iff ext.quote client (default_scope req.scope old.scope) scope).1
            granted)
          narrowed in
      let (resp, w', done, tokens) = renew_tokens_of old scope access refresh after signed drawn in
      (
        resp,
        w',
        proceed_of_ok _ _ (
              validate_and_authenticate_of req.client_id req.client_secret "refresh_token" w client
                auth)
            ∙ proceed_of_ok _ _ loaded
            ∙ (unfold proceed in proceed_of_ok _ _ checked ∙ (unfold proceed in done)),
        tokens.0,
        tokens.1,
        tokens.2,
      )
