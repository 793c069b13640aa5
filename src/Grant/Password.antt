-- ===== src/Grant/Password.antt =====
-- The password grant.
use oauth_2_0_and_open_id_co.Grant.Parts.{add_id_token-ok}
use oauth_2_0_and_open_id_co.Time.{unix}
use oauth_2_0_and_open_id_co.Scope.{should_include_id_token, validate_client_scope}
use oauth_2_0_and_open_id_co.Errors.{err_unauthorized_client, oauth}
use oauth_2_0_and_open_id_co.Grant.Issue.{issue_and_finish, IsIssued}
use oauth_2_0_and_open_id_co.Scope.Laws.{validate_client_scope_iff, Grants}
use oauth_2_0_and_open_id_co.Grant.Login.{validate_and_authenticate-ok, IsAuthenticated}
use oauth_2_0_and_open_id_co.Store.{Client}
use oauth_2_0_and_open_id_co.Base.{if◌then◌else◌, ℕ, ◌∙◌, sym, ap, some, ◌≡◌, String}
use oauth_2_0_and_open_id_co.Action.{
  pure, ◌>>=◌, lift-ok, or_fail-ok, lift, or_fail, read, then_ok, err, ok, Result,
}
use oauth_2_0_and_open_id_co.Server.{read_clock, World}
use oauth_2_0_and_open_id_co.Grant.{
  issue_token_pair, add_id_token, validate_and_authenticate, login_result, TokenResponse,
  grant_password, TokenRequest,
}
use oauth_2_0_and_open_id_co.External.{External}

module _ (ext : External) (req : TokenRequest) where
  -- What holds when a user's password was exchanged for tokens.
  pub record IsLoggedIn (w w' : World) (resp : TokenResponse) : Type 0 where
    pub client : Client
    pub handler : String → String → String → Result String
    pub user_id : String
    pub scope : String
    pub authenticated : IsAuthenticated req.client_id req.client_secret "password" w client
    pub configured : w.password_auth_func ≡ some handler
    pub login : handler req.client_id req.username req.password ≡ ok user_id
    pub granted : Grants client req.scope scope
    pub before : World
    pub issued : IsIssued ext req.client_id user_id scope before w' resp
    pub same_server : before.server ≡ w.server

  login_result-ok :
      (r : Result String) (user_id : String) → login_result r ≡ ok user_id → r ≡ ok user_id
  login_result-ok (ok u) user_id h = h
  login_result-ok (err e) user_id h = cc

  -- What follows the guards, in the world `before`.
  logged_in :
      (w before w' : World) (resp : TokenResponse) (client : Client)
      (handler : String → String → String → Result String) (user_id scope : String) (now : ℕ)
      → IsAuthenticated req.client_id req.client_secret "password" w client
      → w.password_auth_func ≡ some handler
      → handler req.client_id req.username req.password ≡ ok user_id
      → Grants client req.scope scope
      → before.server ≡ w.server
      → (issue_token_pair ext req.client_id user_id scope >>= λ first.
            read (λ x. should_include_id_token scope user_id x.user_store) >>= λ b.
            if b then add_id_token ext first req.client_id user_id "" now scope else pure first)
          before
        ≡ (ok resp, w')
      → IsLoggedIn w w' resp
  logged_in w before w' resp client handler user_id scope now auth configured login granted same h =
      record {
        client = client;
        handler = handler;
        user_id = user_id;
        scope = scope;
        authenticated = auth;
        configured = configured;
        login = login;
        granted = granted;
        before = before;
        issued =
            issue_and_finish ext req.client_id user_id scope
              (λ x. should_include_id_token scope user_id x.user_store)
              (λ r. add_id_token ext r req.client_id user_id "" now scope) before w' resp
              (λ first x x' q.
                add_id_token-ok ext first resp req.client_id user_id "" now scope x x' q)
              h;
        same_server = same;
      }

  -- Tokens for a password need the client's own credentials and right to the grant, a password
  -- function that accepts the user, and a scope that the client may have. They are for the user that
  -- the function names; nothing else is written before them.
  pub grant_password-IsLoggedIn :
      (w w' : World) (resp : TokenResponse)
      → grant_password ext req w ≡ (ok resp, w')
      → IsLoggedIn w w' resp
  unfolding grant_password
  grant_password-IsLoggedIn w w' resp h =
      then_ok (validate_and_authenticate req.client_id req.client_secret "password" w) _ h
        λ client w1 validated h1.
          then_ok (read (λ (x : World). x.password_auth_func) w1) _ h1 λ found w2 asked h2.
            then_ok
              (or_fail (oauth (err_unauthorized_client "password grant not configured")) found w2) _
              h2
              λ handler w3 present h3.
                then_ok (lift (validate_client_scope ext.quote client req.scope) w3) _ h3
                  λ scope w4 scoped h4.
                    then_ok
                      (lift (login_result (handler req.client_id req.username req.password)) w4) _
                      h4
                      λ user_id w5 login h5. then_ok (read_clock ext w5) _ h5 λ now w6 ticked h6.
                        let (auth, same1) =
                          validate_and_authenticate-ok req.client_id req.client_secret "password" w
                            w1 client validated in
                        let (there, same3) = or_fail-ok _ found w2 w3 handler present in
                        let (granted, same4) = lift-ok _ w3 w4 scope scoped in
                        let (accepted, same5) = lift-ok _ w4 w5 user_id login in
                        let same2 : w2 ≡ w1 = cc in
                        let is_found : found ≡ w1.password_auth_func = cc in
                        let same6 : w6.server ≡ w5.server = cc in
                        logged_in w w6 w' resp client handler user_id scope (unix now) auth
                          (ap (λ (x : World). x.password_auth_func) (sym same1)
                            ∙ sym is_found
                            ∙ there)
                          (login_result-ok _ user_id accepted)
                          ((validate_client_scope_iff ext.quote client req.scope scope).0 granted)
                          (same6
                            ∙ ap (λ (x : World). x.server) (same5 ∙ same4 ∙ same3 ∙ same2 ∙ same1))
                          h6
