-- ===== src/Grant/Exchange.antt =====
-- The exchange of an authorization code for tokens.
use oauth_2_0_and_open_id_co.Grant.Parts.{add_id_token-ok, check_code-ok}
use oauth_2_0_and_open_id_co.Server.Loads.{view-some, load_code-ok}
use oauth_2_0_and_open_id_co.Dict.{get-delete}
use oauth_2_0_and_open_id_co.Grant.Issue.{issue_and_finish}
use oauth_2_0_and_open_id_co.Scope.{should_include_id_token}
use oauth_2_0_and_open_id_co.Time.{add}
use oauth_2_0_and_open_id_co.Scope.Laws.{validate_client_scope_iff, Grants}
use oauth_2_0_and_open_id_co.Store
use oauth_2_0_and_open_id_co.Pkce.{verify_pkce_iff, s256}
use oauth_2_0_and_open_id_co.Dict
use oauth_2_0_and_open_id_co.Action.{pure, read, ◌>>=◌, Action, or_fail-ok, then_ok, or_fail, ok}
use oauth_2_0_and_open_id_co.Grant.Login.{validate_and_authenticate-ok, IsAuthenticated}
use oauth_2_0_and_open_id_co.Store.{AuthCodeStore, code_expiry, AuthorizationCode, Client}
use oauth_2_0_and_open_id_co.Base.{
  refl, Option, suc, ◌==◌, if◌then◌else◌, ap, ◌∙◌, sym, eq_refl, arith, none, String, ◌⊎◌, ◌≤◌,
  some, ◌≡◌,
}
use oauth_2_0_and_open_id_co.Server.{update_codes, load_code, World}
use oauth_2_0_and_open_id_co.Grant.{
  issue_token_pair, redeem_code, add_id_token, refresh_info, access_info, check_code, invalid_grant,
  validate_and_authenticate, TokenResponse, grant_authorization_code, TokenRequest,
}
use oauth_2_0_and_open_id_co.External.{External}

module _ (ext : External) (req : TokenRequest) where
  -- What holds when a code was exchanged. `w` is the world before, `w'` the world after.
  pub record IsExchanged (w w' : World) (resp : TokenResponse) : Type 0 where
    pub client : Client
    pub code : AuthorizationCode
    pub authenticated :
        IsAuthenticated req.client_id req.client_secret "authorization_code" w client
    pub stored : Dict.get w.auth_codes.codes req.code ≡ some code
    pub alive : ext.now w.clock ≤ code.expires_at
    pub owner : code.client_id ≡ req.client_id
    pub redirect : code.redirect_uri ≡ req.redirect_uri
    pub verified :
        (code.code_challenge ≡ "")
        ⊎ ((code.code_challenge_method ≡ "S256")
            × (s256 ext.sum256 req.code_verifier ≡ code.code_challenge))
    pub permitted : (s : String) × Grants client code.scope s
    pub scope_answered : resp.scope ≡ code.scope
    pub accesses :
        (t : String)
        → Dict.get w'.tokens.access_tokens t ≡ (
            if resp.access_token == t
            then some (
                access_info resp.access_token code.client_id code.user_id code.scope
                  (add (ext.now (suc w.clock)) w.generator.access_expiry))
            else Dict.get w.tokens.access_tokens t)
    pub refreshes :
        (t : String)
        → Dict.get w'.tokens.refresh_tokens t ≡ (
            if resp.refresh_token == t
            then some (
                refresh_info resp.access_token resp.refresh_token code.client_id code.user_id
                  code.scope
                  (add (ext.now (suc (suc w.clock))) w.generator.refresh_expiry))
            else Dict.get w.tokens.refresh_tokens t)
    pub spent : Dict.get w'.auth_codes.codes req.code ≡ none

  deleted_code :
      (w w' : World) (u : Unit)
      → update_codes (λ s. Store.delete_code s req.code) w ≡ (ok u, w')
      → (Dict.get w'.auth_codes.codes req.code ≡ none)
        × (w'.tokens ≡ w.tokens)
        × (w'.clock ≡ w.clock)
        × (w'.generator ≡ w.generator)
  unfolding Store.delete_code
  deleted_code w w' u h =
      ground (arith, get-delete w.auth_codes.codes req.code req.code, eq_refl req.code)

  -- What has been checked of a code, and what is left, when its tokens are issued in the world `w5`.
  record IsSelected (w w5 : World) (client : Client) (code : AuthorizationCode) : Type 0 where
    pub authenticated :
        IsAuthenticated req.client_id req.client_secret "authorization_code" w client
    pub stored : Dict.get w.auth_codes.codes req.code ≡ some code
    pub alive : ext.now w.clock ≤ code.expires_at
    pub owner : code.client_id ≡ req.client_id
    pub redirect : code.redirect_uri ≡ req.redirect_uri
    pub verified :
        (code.code_challenge ≡ "")
        ⊎ ((code.code_challenge_method ≡ "S256")
            × (s256 ext.sum256 req.code_verifier ≡ code.code_challenge))
    pub permitted : (s : String) × Grants client code.scope s
    pub spent : Dict.get w5.auth_codes.codes req.code ≡ none
    pub same_tokens : w5.tokens ≡ w.tokens
    pub same_clock : w5.clock ≡ suc w.clock
    pub same_generator : w5.generator ≡ w.generator

  -- The part of the exchange that issues tokens.
  abbrev issue_for : AuthorizationCode → Action World TokenResponse
  issue_for code = issue_token_pair ext code.client_id code.user_id code.scope >>= λ resp.
      read (λ w. should_include_id_token code.scope code.user_id w.user_store) >>= λ include.
      if include
      then add_id_token ext resp code.client_id code.user_id code.nonce code.auth_time code.scope
      else pure resp

  checked_code :
      (w w1 w2 w4 w5 : World) (client : Client) (code : AuthorizationCode)
      (found : Option AuthorizationCode) (u v : Unit)
      → IsAuthenticated req.client_id req.client_secret "authorization_code" w client
      → w1 ≡ w
      → load_code ext req.code w1 ≡ (ok found, w2)
      → found ≡ some code
      → update_codes (λ s. Store.delete_code s req.code) w2 ≡ (ok u, w4)
      → check_code ext req client code w4 ≡ (ok v, w5)
      → IsSelected w w5 client code
  checked_code w w1 w2 w4 w5 client code found u v auth same1 loaded is_there deleted checked =
      let loads = load_code-ok ext req.code w1 w2 found loaded in
      let live =
        view-some code_expiry (ext.now w1.clock) w1.auth_codes.codes req.code code
          (sym loads.0 ∙ is_there) in
      let gone = deleted_code w2 w4 u deleted in
      let (owner, redirect, verified, permitted, same5) =
        check_code-ok ext req client code w4 w5 v checked in
      record {
        authenticated = auth;
        stored = rw same1 at live.0;
        alive = rw same1 at live.1;
        owner = owner;
        redirect = redirect;
        verified =
            (verify_pkce_iff ext.sum256 code.code_challenge code.code_challenge_method
                req.code_verifier).0
              verified;
        permitted = (
          permitted.0,
          (validate_client_scope_iff ext.quote client code.scope permitted.0).0 permitted.1,
        );
        spent = rw same5 gone.0;
        same_tokens = rw (same5, gone.1, loads.1, same1) refl;
        same_clock = rw (same5, gone.2, loads.6, same1) refl;
        same_generator = rw (same5, gone.3, loads.3, same1) refl;
      }

  -- A successful exchange has selected a code and issued tokens for it.
  selected :
      (w w' : World) (resp : TokenResponse)
      → grant_authorization_code ext req w ≡ (ok resp, w')
      → (client : Client) × (code : AuthorizationCode) × (w5 : World) × IsSelected w w5 client code
        × (issue_for code w5 ≡ (ok resp, w'))
  unfolding grant_authorization_code redeem_code
  selected w w' resp h =
      then_ok (validate_and_authenticate req.client_id req.client_secret "authorization_code" w) _ h
        λ client w1 validated h1. then_ok (load_code ext req.code w1) _ h1 λ found w2 loaded h2.
          then_ok (or_fail (invalid_grant "authorization code not found or expired") found w2) _ h2
            λ code w3 present h3.
              then_ok (update_codes (λ s. Store.delete_code s req.code) w3) _ h3 λ u w4 deleted h4.
                then_ok (check_code ext req client code w4) _ h4 λ v w5 checked h5.
                  let (auth, same1) =
                    validate_and_authenticate-ok req.client_id req.client_secret
                      "authorization_code" w w1 client validated in
                  let (is_there, same3) = or_fail-ok _ found w2 w3 code present in
                  (
                    client,
                    code,
                    w5,
                    checked_code w w1 w2 w4 w5 client code found u v auth same1 loaded is_there
                        (rw same3 at deleted) checked,
                    h5,
                  )

  -- An exchange succeeds only for the client that authenticates with its secret and may use the
  -- grant, with a stored code that has not expired, was issued to this client for this redirect URI,
  -- and whose challenge the verifier meets. The tokens are issued for the client, the user and the
  -- scope of the code, and the code is gone.
  pub grant_authorization_code-IsExchanged :
      (w w' : World) (resp : TokenResponse)
      → grant_authorization_code ext req w ≡ (ok resp, w')
      → IsExchanged w w' resp
  grant_authorization_code-IsExchanged w w' resp h =
      let (client, code, w5, s, h5) = selected w w' resp h in
      let issued =
        issue_and_finish ext code.client_id code.user_id code.scope
          (λ x. should_include_id_token code.scope code.user_id x.user_store)
          (λ r. add_id_token ext r code.client_id code.user_id code.nonce code.auth_time code.scope)
          w5 w' resp
          (λ first x x' q.
            add_id_token-ok ext first resp code.client_id code.user_id code.nonce code.auth_time
              code.scope x x' q)
          h5 in
      record {
        client = client;
        code = code;
        authenticated = s.authenticated;
        stored = s.stored;
        alive = s.alive;
        owner = s.owner;
        redirect = s.redirect;
        verified = s.verified;
        permitted = s.permitted;
        scope_answered = issued.granted;
        accesses = λ t. rw (s.same_tokens, s.same_clock, s.same_generator) at (issued.accesses t);
        refreshes = λ t. rw (s.same_tokens, s.same_clock, s.same_generator) at (issued.refreshes t);
        spent = ap (λ (x : AuthCodeStore). Dict.get x.codes req.code) issued.codes ∙ s.spent;
      }
