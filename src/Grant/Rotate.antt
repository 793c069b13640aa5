-- ===== src/Grant/Rotate.antt =====
-- The refresh of tokens: rotation, and the scope of the new tokens.
pub mod Old
use oauth_2_0_and_open_id_co.Scope.Laws.{validate_client_scope_iff}
use oauth_2_0_and_open_id_co.Scope.{should_include_id_token}
use oauth_2_0_and_open_id_co.Expiry.Laws.{get-fetch_live}
use oauth_2_0_and_open_id_co.Grant.Parts.{check_refresh-ok, add_id_token-ok, SameServer, Extends}
use oauth_2_0_and_open_id_co.Server.Loads.{view-some, load_refresh_token-ok}
use oauth_2_0_and_open_id_co.Time.{add, unix}
use oauth_2_0_and_open_id_co.Dict.{get-delete}
use oauth_2_0_and_open_id_co.Action.{or_fail-ok, or_fail, then_ok, ◌>>=◌, ok}
use oauth_2_0_and_open_id_co.Grant.Login.{validate_and_authenticate-ok, IsAuthenticated}
use oauth_2_0_and_open_id_co.Grant.Issue.{issue_and_finish}
use oauth_2_0_and_open_id_co.Dict
use oauth_2_0_and_open_id_co.Base.{
  suc, ap, ◌∙◌, sym, ◌≤◌, none, arith, ◌==◌, some, ◌≢◌, if◌then◌else◌, ◌≡◌, Option, String,
}
use oauth_2_0_and_open_id_co.Store.{token_expiry, Client, TokenInfo}
use oauth_2_0_and_open_id_co.Server.{read_clock, load_refresh_token, update_tokens, World}
use oauth_2_0_and_open_id_co.Store
use oauth_2_0_and_open_id_co.Grant.{
  refresh_info, access_info, default_scope, check_refresh, invalid_grant, validate_and_authenticate,
  add_id_token, renew_tokens, TokenResponse, grant_refresh_token, TokenRequest,
}
use oauth_2_0_and_open_id_co.External.{External}
use mathlib.Core.Option.{some-injective}
use oauth_2_0_and_open_id_co.Grant.NewScope.{IsNewScope, IsWithin, IsNewScope-IsWithin}
use oauth_2_0_and_open_id_co.Grant.Rotate.Old.{old_selected, Retired, IsRetired}

module _ (ext : External) (req : TokenRequest) where
  -- What holds when a refresh token was used. `w` is the world before, `w'` the world after.
  pub record IsRotated (w w' : World) (resp : TokenResponse) : Type 0 where
    pub client : Client
    pub old : TokenInfo
    pub authenticated : IsAuthenticated req.client_id req.client_secret "refresh_token" w client
    pub stored : Dict.get w.tokens.refresh_tokens req.refresh_token ≡ some old
    pub alive : ext.now w.clock ≤ old.expires_at
    pub owner : old.client_id ≡ req.client_id
    pub scope : String
    pub new_scope : IsNewScope req client old scope
    pub scope_answered : resp.scope ≡ scope
    pub accesses :
        (t : String)
        → Dict.get w'.tokens.access_tokens t ≡ (
            if resp.access_token == t
            then some (
                access_info resp.access_token old.client_id old.user_id scope
                  (add (ext.now (suc w.clock)) w.generator.access_expiry))
            else if old.access_token == t
            then none
            else Dict.get w.tokens.access_tokens t)
    pub refreshes :
        (t : String)
        → Dict.get w'.tokens.refresh_tokens t ≡ (
            if resp.refresh_token == t
            then some (
                refresh_info resp.access_token resp.refresh_token old.client_id old.user_id scope
                  (add (ext.now (suc (suc w.clock))) w.generator.refresh_expiry))
            else if req.refresh_token == t
            then none
            else Dict.get w.tokens.refresh_tokens t)

  later_id_token :
      (old : TokenInfo) (scope : String) (first resp : TokenResponse) (w w' : World)
      → (read_clock ext >>= λ now.
            add_id_token ext first old.client_id old.user_id "" (unix now) scope)
          w
        ≡ (ok resp, w')
      → Extends first resp × SameServer w w'
  later_id_token old scope first resp w w' h = then_ok (read_clock ext w) _ h λ now w1 read_at h1.
      let (ext_ok, same) =
        add_id_token-ok ext first resp old.client_id old.user_id "" (unix now) scope w1 w' h1 in
      (ext_ok, same ∙ (cc))

  -- A refresh succeeds only for the client that authenticates with its secret and may use the grant,
  -- with a stored refresh token of its own that has not expired. Both new tokens are for the old
  -- client and user; the old refresh token and its access token are gone, unless a new token is the
  -- same text; every other token stays.
  pub grant_refresh_token-IsRotated :
      (w w' : World) (resp : TokenResponse)
      → grant_refresh_token ext req w ≡ (ok resp, w')
      → IsRotated w w' resp
  unfolding renew_tokens
  grant_refresh_token-IsRotated w w' resp h =
      let (client, old, scope, w6, s, h6) = old_selected ext req w w' resp h in
      let (refreshes, accesses, same_clock, same_generator) = s.retired in
      let issued =
        issue_and_finish ext old.client_id old.user_id scope
          (λ x. should_include_id_token scope old.user_id x.user_store)
          (λ r. read_clock ext >>= λ now.
            add_id_token ext r old.client_id old.user_id "" (unix now) scope)
          w6 w' resp (λ first x x' q. later_id_token old scope first resp x x' q) h6 in
      record {
        client = client;
        old = old;
        authenticated = s.authenticated;
        stored = s.stored;
        alive = s.alive;
        owner = s.owner;
        scope = scope;
        new_scope = s.new_scope;
        scope_answered = issued.granted;
        accesses = λ t. rw (same_clock, same_generator, accesses t) at (issued.accesses t);
        refreshes = λ t. rw (same_clock, same_generator, refreshes t) at (issued.refreshes t);
      }

  -- The new scope holds no scope that the old one did not hold, if the old one is not empty.
  pub grant_refresh_token-IsWithin :
      (w w' : World) (resp : TokenResponse) (old : TokenInfo)
      → grant_refresh_token ext req w ≡ (ok resp, w')
      → Dict.get w.tokens.refresh_tokens req.refresh_token ≡ some old
      → old.scope ≢ ""
      → IsWithin resp.scope old.scope
  grant_refresh_token-IsWithin w w' resp old h stored full =
      let r = grant_refresh_token-IsRotated w w' resp h in
      let same : r.old ≡ old = some-injective _ _ (sym r.stored ∙ stored) in
      let within = IsNewScope-IsWithin req r.client r.old r.scope (rw same full) r.new_scope in
      rw r.scope_answered (rw same at within)
