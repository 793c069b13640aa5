-- ===== src/Grant/Complete.antt =====
-- An exchange of a code that meets every condition succeeds.
pub mod Refresh
pub mod Password
use oauth_2_0_and_open_id_co.Store
use oauth_2_0_and_open_id_co.Grant.SingleUse.{grant_found, after_load}
use oauth_2_0_and_open_id_co.Scope.Laws.{validate_client_scope_iff, Grants}
use oauth_2_0_and_open_id_co.Expiry.Laws.{view}
use oauth_2_0_and_open_id_co.Grant.Login.{IsAuthenticated}
use oauth_2_0_and_open_id_co.Grant.Issue.{world_of, answer_of, issue_token_pair_of}
use oauth_2_0_and_open_id_co.Scope.{should_include_id_token, validate_client_scope}
use oauth_2_0_and_open_id_co.Pkce.{verify_pkce}
use oauth_2_0_and_open_id_co.Generator.{
  refresh_token_bytes, random_string, sign_access_token, generate_id_token,
}
use oauth_2_0_and_open_id_co.Server.{set_codes, load_code, World}
use oauth_2_0_and_open_id_co.Store.{code_expiry, AuthorizationCode, Client}
use oauth_2_0_and_open_id_co.Action.{
  read, ◌>>=◌, Action, proceed_of_ok, pure, err, ok, proceed, Result,
}
use oauth_2_0_and_open_id_co.Base.{
  suc, ◌∙◌, some, false, if◌then◌else◌, Bool, eq_iff, arith, refl, true, ℕ, ◌≡◌, String,
}
use oauth_2_0_and_open_id_co.Grant.{
  issue_token_pair, grant_authorization_code, find_user, with_id_token, TokenRequest, redeem_code,
  check_code, add_id_token, TokenResponse,
}
use oauth_2_0_and_open_id_co.External.{External}

module _ (ext : External) where
  -- What an answer must hold: the tokens that were signed and drawn, and the scope.
  abbrev HasTokens : TokenResponse → String → String → String → Type 0
  HasTokens resp access refresh scope =
      (resp.access_token ≡ access) × (resp.refresh_token ≡ refresh) × (resp.scope ≡ scope)

  -- That a call answers with these tokens.
  abbrev pub Delivers : Action World TokenResponse → World → String → String → String → Type 0
  Delivers call w access refresh scope =
      (resp : TokenResponse) × (w' : World) × (call w ≡ (ok resp, w'))
      × HasTokens resp access refresh scope

  with_id_token-HasTokens :
      (resp : TokenResponse) (r : Result String)
      → HasTokens (with_id_token resp r) resp.access_token resp.refresh_token resp.scope
  with_id_token-HasTokens resp (ok t) = (refl, refl, refl)
  with_id_token-HasTokens resp (err e) = (refl, refl, refl)

  -- Adding an ID token never fails.
  pub add_id_token_of :
      (resp : TokenResponse) (client_id user_id nonce : String) (auth_time : ℕ) (scope : String)
      (w : World)
      → Delivers
          (add_id_token ext resp client_id user_id nonce auth_time scope)
          w
          resp.access_token
          resp.refresh_token
          resp.scope
  unfolding add_id_token proceed
  add_id_token_of resp client_id user_id nonce auth_time scope w =
      let signed =
        generate_id_token ext w.generator (ext.now w.clock) client_id user_id nonce auth_time
          (find_user w.user_store user_id) scope in
      (with_id_token resp signed, _, refl, with_id_token-HasTokens resp signed)

  pub check_code_of :
      (req : TokenRequest) (client : Client) (code : AuthorizationCode) (scope : String) (w : World)
      → code.client_id ≡ req.client_id
      → code.redirect_uri ≡ req.redirect_uri
      → verify_pkce ext.sum256 code.code_challenge code.code_challenge_method req.code_verifier
        ≡ true
      → validate_client_scope ext.quote client code.scope ≡ ok scope
      → check_code ext req client code w ≡ (ok tt, w)
  unfolding check_code proceed
  check_code_of req client code scope w owner redirect verified permitted =
      ground (arith, eq_iff code.client_id req.client_id, eq_iff code.redirect_uri req.redirect_uri)

  finish_of :
      (include : Bool) (extra : TokenResponse → Action World TokenResponse) (first : TokenResponse)
      (w : World)
      → Delivers (extra first) w first.access_token first.refresh_token first.scope
      → Delivers
          (if include then extra first else pure first)
          w
          first.access_token
          first.refresh_token
          first.scope
  finish_of true extra first w done = done
  finish_of false extra first w done = (first, w, refl, (refl, refl, refl))

  -- Tokens are issued, and an ID token is added to the answer if a test asks for it.
  pub issue_and_finish_of :
      (client_id user_id scope : String) (include : World → Bool)
      (extra : TokenResponse → Action World TokenResponse) (access refresh : String) (w : World)
      → sign_access_token ext w.generator (ext.now w.clock) client_id user_id scope ≡ ok access
      → random_string (ext.rand_read w.draws refresh_token_bytes) ≡ ok refresh
      → ((first : TokenResponse) (v : World)
          → Delivers (extra first) v first.access_token first.refresh_token first.scope)
      → Delivers
          (issue_token_pair ext client_id user_id scope >>= λ first.
            read include >>= λ b. if b then extra first else pure first)
          w
          access
          refresh
          scope
  issue_and_finish_of client_id user_id scope include extra access refresh w signed drawn adds =
      let issued = issue_token_pair_of ext client_id user_id scope w access refresh signed drawn in
      let first = answer_of ext client_id user_id scope w access refresh in
      let w1 = world_of ext client_id user_id scope w access refresh in
      let (more, w', done, tokens) = finish_of (include w1) extra first w1 (adds first w1) in
      (more, w', proceed_of_ok _ _ issued ∙ (unfold proceed in done), tokens)

  pub redeem_code_of :
      (req : TokenRequest) (client : Client) (code : AuthorizationCode) (access refresh : String)
      (w : World)
      → check_code ext req client code w ≡ (ok tt, w)
      → sign_access_token ext w.generator (ext.now w.clock) code.client_id code.user_id code.scope
        ≡ ok access
      → random_string (ext.rand_read w.draws refresh_token_bytes) ≡ ok refresh
      → Delivers (redeem_code ext req client code) w access refresh code.scope
  unfolding redeem_code
  redeem_code_of req client code access refresh w checked signed drawn =
      let (more, w', done, tokens) =
        issue_and_finish_of code.client_id code.user_id code.scope
          (λ v. should_include_id_token code.scope code.user_id v.user_store)
          (λ first.
            add_id_token ext first code.client_id code.user_id code.nonce code.auth_time code.scope)
          access refresh w signed drawn
          (λ first v.
            add_id_token_of first code.client_id code.user_id code.nonce code.auth_time code.scope
              v) in
      (more, w', proceed_of_ok _ _ checked ∙ done, tokens)

  -- An exchange by an authenticated client, of a live code that was issued to it for this redirect
  -- URI, with a verifier that meets the challenge and a scope that the client still may have, succeeds
  -- if the token is signed and the random source delivers, and answers with both and with the scope of
  -- the code.
  pub grant_authorization_code_complete :
      (req : TokenRequest) (client : Client) (code : AuthorizationCode)
      (scope access refresh : String) (w : World)
      → IsAuthenticated req.client_id req.client_secret "authorization_code" w client
      → view code_expiry (ext.now w.clock) w.auth_codes.codes req.code ≡ some code
      → code.client_id ≡ req.client_id
      → code.redirect_uri ≡ req.redirect_uri
      → verify_pkce ext.sum256 code.code_challenge code.code_challenge_method req.code_verifier
        ≡ true
      → Grants client code.scope scope
      → sign_access_token ext w.generator
          (ext.now (suc w.clock))
          code.client_id
          code.user_id
          code.scope
        ≡ ok access
      → random_string (ext.rand_read w.draws refresh_token_bytes) ≡ ok refresh
      → (resp : TokenResponse) × (w' : World) × (grant_authorization_code ext req w ≡ (ok resp, w'))
        × (resp.access_token ≡ access)
        × (resp.refresh_token ≡ refresh)
        × (resp.scope ≡ code.scope)
  unfolding load_code
  grant_authorization_code_complete req client code scope access refresh w auth live owner redirect
        verified permitted signed drawn =
      let after =
        set_codes (after_load ext req w)
          (Store.delete_code (after_load ext req w).auth_codes req.code) in
      let checked =
        check_code_of req client code scope after owner redirect verified
          ((validate_client_scope_iff ext.quote client code.scope scope).1 permitted) in
      let (resp, w', done, tokens) =
        redeem_code_of req client code access refresh after checked signed drawn in
      (resp, w', grant_found ext req client code w auth live ∙ done, tokens.0, tokens.1, tokens.2)
