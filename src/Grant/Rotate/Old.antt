-- ===== src/Grant/Rotate/Old.antt =====
-- A refresh up to the deletion of the old tokens: what has been checked, and what is left.
use oauth_2_0_and_open_id_co.Scope.Laws.{validate_client_scope_iff}
use oauth_2_0_and_open_id_co.Expiry.Laws.{get-fetch_live}
use oauth_2_0_and_open_id_co.Grant.Parts.{check_refresh-ok}
use oauth_2_0_and_open_id_co.Server.Loads.{view-some, load_refresh_token-ok}
use oauth_2_0_and_open_id_co.Dict.{get-delete}
use oauth_2_0_and_open_id_co.Action.{or_fail-ok, or_fail, then_ok, ok}
use oauth_2_0_and_open_id_co.Grant.Login.{validate_and_authenticate-ok, IsAuthenticated}
use oauth_2_0_and_open_id_co.Dict
use oauth_2_0_and_open_id_co.Base.{
  suc, ap, ◌∙◌, sym, ◌≤◌, none, arith, ◌==◌, some, if◌then◌else◌, ◌≡◌, Option, String,
}
use oauth_2_0_and_open_id_co.Store.{token_expiry, Client, TokenInfo}
use oauth_2_0_and_open_id_co.Server.{load_refresh_token, update_tokens, World}
use oauth_2_0_and_open_id_co.Store
use oauth_2_0_and_open_id_co.Grant.{
  default_scope, check_refresh, invalid_grant, validate_and_authenticate, renew_tokens,
  TokenResponse, grant_refresh_token, TokenRequest,
}
use oauth_2_0_and_open_id_co.External.{External}
use oauth_2_0_and_open_id_co.Grant.NewScope.{IsNewScope}

module _ (ext : External) (req : TokenRequest) where
  -- What the two deletions leave.
  abbrev pub Retired : TokenInfo → World → World → Type 0
  Retired old w w' =
      ((t : String)
        → Dict.get w'.tokens.refresh_tokens t
          ≡ (if req.refresh_token == t then none else Dict.get w.tokens.refresh_tokens t))
      × ((t : String)
          → Dict.get w'.tokens.access_tokens t
            ≡ (if old.access_token == t then none else Dict.get w.tokens.access_tokens t))
      × (w'.clock ≡ suc w.clock)
      × (w'.generator ≡ w.generator)

  -- Every token is as it was, after one reading of the clock.
  abbrev SameTokens : World → World → Type 0
  SameTokens w w' =
      ((t : String) → Dict.get w'.tokens.refresh_tokens t ≡ Dict.get w.tokens.refresh_tokens t)
      × ((t : String) → Dict.get w'.tokens.access_tokens t ≡ Dict.get w.tokens.access_tokens t)
      × (w'.clock ≡ suc w.clock)
      × (w'.generator ≡ w.generator)

  retire :
      (old : TokenInfo) (base w w1 w2 : World) (u v : Unit)
      → SameTokens base w
      → update_tokens (λ s. Store.delete_refresh_token s req.refresh_token) w ≡ (ok u, w1)
      → update_tokens (λ s. Store.delete_access_token s old.access_token) w1 ≡ (ok v, w2)
      → Retired old base w2
  unfolding Store.delete_refresh_token Store.delete_access_token
  retire old base w w1 w2 u v same h k = (
    λ t. ground (arith, get-delete w.tokens.refresh_tokens req.refresh_token t, same.0 t),
    λ t. ground (arith, get-delete w.tokens.access_tokens old.access_token t, same.1 t),
    ground (arith, same.2),
    ground (arith, same.3),
  )

  found_live :
      (w w2 : World) (found : Option TokenInfo) (old : TokenInfo)
      → load_refresh_token ext req.refresh_token w ≡ (ok found, w2)
      → found ≡ some old
      → (Dict.get w.tokens.refresh_tokens req.refresh_token ≡ some old)
        × (ext.now w.clock ≤ old.expires_at)
        × SameTokens w w2
  found_live w w2 found old h there =
      let loads = load_refresh_token-ok ext req.refresh_token w w2 found h in
      let seen = sym loads.0 ∙ there in
      let live =
        view-some token_expiry (ext.now w.clock) w.tokens.refresh_tokens req.refresh_token old
          seen in
      (
        live.0,
        live.1,
        (
          λ t.
              ap (λ d. Dict.get d t) loads.8
              ∙ get-fetch_live token_expiry (ext.now w.clock) w.tokens.refresh_tokens
                  req.refresh_token t old seen,
          λ t. ap (λ d. Dict.get d t) loads.5,
          loads.6,
          loads.3,
        ),
      )

  -- What has been checked of a refresh token, and what is left, when the new tokens are issued in `w6`.
  pub record IsRetired (w w6 : World) (client : Client) (old : TokenInfo) (scope : String)
      : Type 0 where
    pub authenticated : IsAuthenticated req.client_id req.client_secret "refresh_token" w client
    pub stored : Dict.get w.tokens.refresh_tokens req.refresh_token ≡ some old
    pub alive : ext.now w.clock ≤ old.expires_at
    pub owner : old.client_id ≡ req.client_id
    pub new_scope : IsNewScope req client old scope
    pub retired : Retired old w w6

  checked_token :
      (w w2 w4 w5 w6 : World) (client : Client) (old : TokenInfo) (found : Option TokenInfo)
      (scope : String) (u v : Unit)
      → IsAuthenticated req.client_id req.client_secret "refresh_token" w client
      → load_refresh_token ext req.refresh_token w ≡ (ok found, w2)
      → found ≡ some old
      → check_refresh ext req client old w2 ≡ (ok scope, w4)
      → update_tokens (λ s. Store.delete_refresh_token s req.refresh_token) w4 ≡ (ok u, w5)
      → update_tokens (λ s. Store.delete_access_token s old.access_token) w5 ≡ (ok v, w6)
      → IsRetired w w6 client old scope
  checked_token w w2 w4 w5 w6 client old found scope u v auth loaded is_there checked refresh_gone
        access_gone =
      let (stored, alive, same2) = found_live w w2 found old loaded is_there in
      let (owner, granted, narrowed, same4) =
        check_refresh-ok ext req client old w2 w4 scope checked in
      let back : w2 ≡ w4 = sym same4 in
      record {
        authenticated = auth;
        stored = stored;
        alive = alive;
        owner = owner;
        new_scope = (
          (validate_client_scope_iff ext.quote client (default_scope req.scope old.scope) scope).0
              granted,
          narrowed,
        );
        retired = retire old w w4 w5 w6 u v (rw back at same2) refresh_gone access_gone;
      }

  -- A successful refresh has retired a refresh token and issued new ones.
  pub old_selected :
      (w w' : World) (resp : TokenResponse)
      → grant_refresh_token ext req w ≡ (ok resp, w')
      → (client : Client) × (old : TokenInfo) × (scope : String) × (w6 : World) × IsRetired w w6
          client old scope
        × (renew_tokens ext old scope w6 ≡ (ok resp, w'))
  unfolding grant_refresh_token
  old_selected w w' resp h =
      then_ok (validate_and_authenticate req.client_id req.client_secret "refresh_token" w) _ h
        λ client w1 validated h1.
          then_ok (load_refresh_token ext req.refresh_token w1) _ h1 λ found w2 loaded h2.
            then_ok (or_fail (invalid_grant "refresh token not found") found w2) _ h2
              λ old w3 present h3.
                then_ok (check_refresh ext req client old w3) _ h3 λ scope w4 checked h4.
                  then_ok (update_tokens (λ s. Store.delete_refresh_token s req.refresh_token) w4) _
                    h4
                    λ u w5 refresh_gone h5.
                      then_ok (update_tokens (λ s. Store.delete_access_token s old.access_token) w5)
                        _ h5
                        λ v w6 access_gone h6.
                          let (auth, same1) =
                            validate_and_authenticate-ok req.client_id req.client_secret
                              "refresh_token" w w1 client validated in
                          let (is_there, same3) = or_fail-ok _ found w2 w3 old present in
                          let done =
                            checked_token w w2 w4 w5 w6 client old found scope u v auth
                              (rw same1 at loaded) is_there (rw same3 at checked) refresh_gone
                              access_gone in
                          (client, old, scope, w6, done, h6)
