-- ===== src/System/Flow.antt =====
-- The authorization code flow: what the authorization endpoint decides reaches the tokens.
use oauth_2_0_and_open_id_co.Time.{add}
use oauth_2_0_and_open_id_co.Grant.Exchange.{grant_authorization_code-IsExchanged}
use oauth_2_0_and_open_id_co.Authorize.Safety.{authorize_request-IsAuthorized}
use oauth_2_0_and_open_id_co.Pkce.{s256}
use oauth_2_0_and_open_id_co.Action.{ok}
use oauth_2_0_and_open_id_co.Base.{refl, inr, inl, eq_refl, suc, ap, ◌∙◌, sym, some, ◌≡◌}
use oauth_2_0_and_open_id_co.Store.{TokenInfo}
use oauth_2_0_and_open_id_co.Server.{World}
use oauth_2_0_and_open_id_co.Grant.{
  access_info, grant_authorization_code, TokenResponse, TokenRequest,
}
use oauth_2_0_and_open_id_co.Authorize.{
  issued_code, authorize_request, AuthorizeResult, AuthorizeRequest,
}
use oauth_2_0_and_open_id_co.External.{External}
use oauth_2_0_and_open_id_co.Dict
use mathlib.Core.Option.{some-injective}

module _ (ext : External) where
  -- The access token of a flow: for the user, the client and the redirect URI of the authorization
  -- request, and for a verifier that meets its challenge.
  pub record IsFlow (req : AuthorizeRequest) (t : TokenRequest) (w : World) (resp : TokenResponse)
      : Type 0 where
    pub info : TokenInfo
    pub stored : Dict.get w.tokens.access_tokens resp.access_token ≡ some info
    pub user : info.user_id ≡ req.user_id
    pub client : info.client_id ≡ req.client_id
    pub asked : t.client_id ≡ req.client_id
    pub redirect : t.redirect_uri ≡ req.redirect_uri
    pub verified : s256 ext.sum256 t.code_verifier ≡ req.code_challenge
    pub scope : info.scope ≡ resp.scope

  -- When the authorization endpoint has issued a code and a client exchanges that code, in any world
  -- that holds the same codes, the access token that is stored is for the user and the client of the
  -- authorization request. The client that exchanged it is that client, gave the same redirect URI, and
  -- gave a verifier whose S256 challenge is that of the request.
  pub authorize_request-IsFlow :
      (req : AuthorizeRequest) (t : TokenRequest) (w w1 later w2 : World) (res : AuthorizeResult)
      (resp : TokenResponse)
      → authorize_request ext req w ≡ (ok res, w1)
      → later.auth_codes ≡ w1.auth_codes
      → t.code ≡ res.code
      → grant_authorization_code ext t later ≡ (ok resp, w2)
      → IsFlow req t w2 resp
  authorize_request-IsFlow req t w w1 later w2 res resp issued same code exchanged =
      let a = authorize_request-IsAuthorized ext req w w1 res issued in
      let e = grant_authorization_code-IsExchanged ext t later w2 resp exchanged in
      let kept : e.code ≡ issued_code (record req { scope = a.scope }) res.code (ext.now w.clock) =
        some-injective _ _ (sym (rw (same, code) at e.stored) ∙ a.stored) in
      let client : e.code.client_id ≡ req.client_id = ap (λ c. c.client_id) kept in
      record {
        info =
            access_info resp.access_token e.code.client_id e.code.user_id e.code.scope
              (add (ext.now (suc later.clock)) later.generator.access_expiry);
        stored = e.accesses resp.access_token ∙ rw (eq_refl resp.access_token) refl;
        user = ap (λ c. c.user_id) kept;
        client = client;
        asked = sym e.owner ∙ client;
        redirect = sym e.redirect ∙ ap (λ c. c.redirect_uri) kept;
        verified = elim e.verified [
          | inl empty ↦ absurd (a.challenge (sym (ap (λ c. c.code_challenge) kept) ∙ empty))
          | inr (method, met) ↦ met ∙ ap (λ c. c.code_challenge) kept
        ];
        scope = sym e.scope_answered;
      }
