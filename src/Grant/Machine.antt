-- ===== src/Grant/Machine.antt =====
-- The client_credentials grant, for a client with no user.
use oauth_2_0_and_open_id_co.Dict.{get-put}
use oauth_2_0_and_open_id_co.Time.{add}
use oauth_2_0_and_open_id_co.Dict
use oauth_2_0_and_open_id_co.Scope.{contains_scope, validate_client_scope, split_spaces}
use oauth_2_0_and_open_id_co.Scope.Laws.{contains_scope_iff, validate_client_scope_iff, Grants}
use oauth_2_0_and_open_id_co.Base.{ap, eq_refl, arith, ◌∙◌, false, String, some, Has, ◌≡◌}
use oauth_2_0_and_open_id_co.Grant.Login.{validate_and_authenticate-ok, IsAuthenticated}
use oauth_2_0_and_open_id_co.Store.{Client}
use oauth_2_0_and_open_id_co.Store
use oauth_2_0_and_open_id_co.Action.{lift-ok, lift, then_ok, ok, proceed}
use oauth_2_0_and_open_id_co.Server.{World}
use oauth_2_0_and_open_id_co.Grant.{
  issue_for_client, access_info, validate_and_authenticate, TokenResponse, grant_client_credentials,
  TokenRequest,
}
use oauth_2_0_and_open_id_co.External.{External}

module _ (ext : External) (req : TokenRequest) where
  -- What holds of an access token that a client got for itself.
  pub record IsForClient (w w' : World) (resp : TokenResponse) : Type 0 where
    pub client : Client
    pub authenticated :
        IsAuthenticated req.client_id req.client_secret "client_credentials" w client
    pub granted : Grants client req.scope resp.scope
    pub no_openid : Has "openid" (split_spaces resp.scope) → ⊥
    pub no_refresh : resp.refresh_token ≡ ""
    pub no_id_token : resp.id_token ≡ ""
    pub access :
        Dict.get w'.tokens.access_tokens resp.access_token
        ≡ some (
            access_info resp.access_token req.client_id "" resp.scope
              (add (ext.now w.clock) w.generator.access_expiry))
    pub refreshes : w'.tokens.refresh_tokens ≡ w.tokens.refresh_tokens
    pub codes : w'.auth_codes ≡ w.auth_codes

  last :
      (scope : String) (w w' : World) (resp : TokenResponse)
      → issue_for_client ext req.client_id scope w ≡ (ok resp, w')
      → (Dict.get w'.tokens.access_tokens resp.access_token
          ≡ some (
              access_info resp.access_token req.client_id "" scope
                (add (ext.now w.clock) w.generator.access_expiry)))
        × (w'.tokens.refresh_tokens ≡ w.tokens.refresh_tokens)
        × (w'.auth_codes ≡ w.auth_codes)
        × (contains_scope scope "openid" ≡ false)
        × (resp.scope ≡ scope)
        × (resp.refresh_token ≡ "")
        × (resp.id_token ≡ "")
  unfolding issue_for_client proceed Store.create_access_token
  last scope w w' resp h =
      let put =
        get-put w.tokens.access_tokens resp.access_token
          (access_info resp.access_token req.client_id "" scope
            (add (ext.now w.clock) w.generator.access_expiry))
          resp.access_token in
      ground (arith, put, eq_refl resp.access_token)

  -- A client_credentials grant gives no refresh token, no ID token and no openid scope, and stores an
  -- access token with no user; refresh tokens and codes stay as they were.
  pub grant_client_credentials-IsForClient :
      (w w' : World) (resp : TokenResponse)
      → grant_client_credentials ext req w ≡ (ok resp, w')
      → IsForClient w w' resp
  unfolding grant_client_credentials issue_for_client
  grant_client_credentials-IsForClient w w' resp h =
      then_ok (validate_and_authenticate req.client_id req.client_secret "client_credentials" w) _ h
        λ client w1 validated h1.
          then_ok (lift (validate_client_scope ext.quote client req.scope) w1) _ h1
            λ scope w2 scoped h2.
              let (auth, same1) =
                validate_and_authenticate-ok req.client_id req.client_secret "client_credentials" w
                  w1 client validated in
              let (granted, same2) = lift-ok _ w1 w2 scope scoped in
              let (stored, refreshes, codes, no_openid, s_eq, no_refresh, no_id) =
                last scope w2 w' resp h2 in
              let same : w2 ≡ w = same2 ∙ same1 in
              record {
                client = client;
                authenticated = auth;
                granted =
                    rw s_eq
                      ((validate_client_scope_iff ext.quote client req.scope scope).0 granted);
                no_openid =
                    λ m. cc (no_openid, (contains_scope_iff scope "openid").1 (rw s_eq at m));
                no_refresh = no_refresh;
                no_id_token = no_id;
                access = rw s_eq (rw same at stored);
                refreshes = refreshes ∙ ap (λ (x : World). x.tokens.refresh_tokens) same;
                codes = codes ∙ ap (λ (x : World). x.auth_codes) same;
              }
