-- ===== src/Tokens/Endpoints.antt =====
-- Every endpoint leaves the tokens sound.
use oauth_2_0_and_open_id_co.Scope.Laws.{validate_client_scope-Permits}
use oauth_2_0_and_open_id_co.Grant.Parts.{check_refresh-ok}
use oauth_2_0_and_open_id_co.Bearer.Kept.{Keeps-revoke_token, Keeps-validate_bearer_token}
use oauth_2_0_and_open_id_co.Time.{unix}
use oauth_2_0_and_open_id_co.Bearer.{revoke_token, validate_bearer_token}
use oauth_2_0_and_open_id_co.Base.{String, some, ◌≡◌, ◌==◌}
use oauth_2_0_and_open_id_co.Action.{◌>>◌, ◌>>=◌}
use oauth_2_0_and_open_id_co.Action.Frame.{
  Keeps-then, Keeps, Keeps-bind, Keeps-if, Keeps-fail, Keeps-read, Keeps-or_fail, Keeps-lift,
}
use oauth_2_0_and_open_id_co.External.{External}
use oauth_2_0_and_open_id_co.Store
use oauth_2_0_and_open_id_co.Store.{ClientStore, Client, TokenInfo}
use oauth_2_0_and_open_id_co.Server.{World, load_refresh_token, load_access_token, update_tokens}
use oauth_2_0_and_open_id_co.Grant.{
  TokenRequest, grant_password, grant_refresh_token, token, renew_tokens, check_refresh,
  default_scope,
}
use oauth_2_0_and_open_id_co.Tokens.Frame.{
  Keeps-read_clock, token_rules, Keeps-add_id_token, Keeps-proceed,
}
use oauth_2_0_and_open_id_co.Tokens.Sound.{
  IsPermitted, delete-IsSoundMap, fetch-IsSoundMap, access_name, refresh_name,
}
use oauth_2_0_and_open_id_co.Tokens.Issued.{IsSound, SoundFor, Keeps-issue_and_finish}
use oauth_2_0_and_open_id_co.Tokens.Grants.{
  ArePlain, Keeps-authenticated, Keeps-scoped, Keeps-grant_authorization_code,
  Keeps-grant_client_credentials,
}

module _ (ext : External) (known : ClientStore) where
  Keeps-delete_access :
      (key : String) → Keeps (IsSound known) (update_tokens (λ s. Store.delete_access_token s key))
  unfolding Store.delete_access_token
  Keeps-delete_access key = record {
    at =
        λ w h. ((delete-IsSoundMap access_name known w.tokens.access_tokens h.0.0 key, h.0.1), h.1);
  }

  Keeps-delete_refresh :
      (key : String) → Keeps (IsSound known) (update_tokens (λ s. Store.delete_refresh_token s key))
  unfolding Store.delete_refresh_token
  Keeps-delete_refresh key = record {
    at = λ w h.
        ((h.0.0, delete-IsSoundMap refresh_name known w.tokens.refresh_tokens h.0.1 key), h.1);
  }

  Keeps-load_access : (key : String) → Keeps (IsSound known) (load_access_token ext key)
  unfolding load_access_token Store.get_access_token
  Keeps-load_access key = record {
    at = λ w h. (
      (
        fetch-IsSoundMap access_name known w.tokens.access_tokens h.0.0 (ext.now w.clock) key,
        h.0.1,
      ),
      h.1,
    );
  }

  Keeps-load_refresh : (key : String) → Keeps (IsSound known) (load_refresh_token ext key)
  unfolding load_refresh_token Store.get_refresh_token
  Keeps-load_refresh key = record {
    at = λ w h. (
      (
        h.0.0,
        fetch-IsSoundMap refresh_name known w.tokens.refresh_tokens h.0.1 (ext.now w.clock) key,
      ),
      h.1,
    );
  }

  pub validate_bearer_token-IsSound :
      (header : String) → Keeps (IsSound known) (validate_bearer_token ext header)
  validate_bearer_token-IsSound =
      Keeps-validate_bearer_token ext (IsSound known) (Keeps-read_clock (SoundFor known) ext)
        Keeps-load_access Keeps-load_refresh Keeps-delete_access Keeps-delete_refresh

  pub revoke_token-IsSound :
      (key hint client_id : String) → Keeps (IsSound known) (revoke_token ext key hint client_id)
  revoke_token-IsSound =
      Keeps-revoke_token ext (IsSound known) (Keeps-read_clock (SoundFor known) ext)
        Keeps-load_access Keeps-load_refresh Keeps-delete_access Keeps-delete_refresh

module _ (ext : External) (known : ClientStore) (plain : ArePlain known) where
  Keeps-grant_password : (req : TokenRequest) → Keeps (IsSound known) (grant_password ext req)
  unfolding grant_password
  Keeps-grant_password req =
      Keeps-authenticated ext known plain req.client_id req.client_secret "password" _
        λ client registered.
          Keeps-bind _ _ (Keeps-read (λ (w : World). w.password_auth_func)) λ handler.
            Keeps-bind _ _ (Keeps-or_fail _ handler) λ authenticate.
              Keeps-scoped ext known plain req.client_id req.scope client _ registered
                λ scope permitted. Keeps-bind _ _ (Keeps-lift _) λ user_id.
                  Keeps-bind _ _ (Keeps-read_clock (SoundFor known) ext) λ now.
                    Keeps-issue_and_finish ext known req.client_id scope permitted user_id _ _
                      λ first.
                        Keeps-add_id_token (SoundFor known) ext first req.client_id user_id ""
                          (unix now) scope

  Keeps-renew_tokens :
      (old : TokenInfo) (scope : String)
      → IsPermitted known old.client_id scope
      → Keeps (IsSound known) (renew_tokens ext old scope)
  unfolding renew_tokens
  Keeps-renew_tokens old scope permitted =
      Keeps-issue_and_finish ext known old.client_id scope permitted old.user_id _ _ λ first.
        Keeps-bind _ _ (Keeps-read_clock (SoundFor known) ext) λ now.
          Keeps-add_id_token (SoundFor known) ext first old.client_id old.user_id "" (unix now)
            scope

  Keeps-check_refresh :
      (req : TokenRequest) (client : Client) (old : TokenInfo)
      → Keeps (IsSound known) (check_refresh ext req client old)
  unfolding check_refresh
  Keeps-check_refresh req client old = search token_rules depth 40

  Keeps-rotate :
      (req : TokenRequest) (client : Client) (old : TokenInfo)
      → Store.get_by_id known req.client_id ≡ some client
      → Keeps (IsSound known) (
          check_refresh ext req client old >>= λ scope.
          update_tokens (λ s. Store.delete_refresh_token s req.refresh_token)
          >> (update_tokens (λ s. Store.delete_access_token s old.access_token)
              >> renew_tokens ext old scope))
  Keeps-rotate req client old registered = record {
    at = λ w h.
        Keeps-proceed (check_refresh ext req client old w) _
          ((Keeps-check_refresh req client old).at w h)
          λ scope w1 checked h1.
            let (owner, granted, narrowed, same) =
              check_refresh-ok ext req client old w w1 scope checked in
            let permits =
              validate_client_scope-Permits ext.quote client (default_scope req.scope old.scope)
                scope (plain req.client_id client registered) granted in
            (Keeps-then _ _ (Keeps-delete_refresh ext known req.refresh_token) (
                Keeps-then _ _ (Keeps-delete_access ext known old.access_token)
                  (Keeps-renew_tokens old scope (client, rw owner registered, permits)))).at
              w1 h1;
  }

  Keeps-grant_refresh_token :
      (req : TokenRequest) → Keeps (IsSound known) (grant_refresh_token ext req)
  unfolding grant_refresh_token
  Keeps-grant_refresh_token req =
      Keeps-authenticated ext known plain req.client_id req.client_secret "refresh_token" _
        λ client registered.
          Keeps-bind _ _ (Keeps-load_refresh ext known req.refresh_token) λ found.
            Keeps-bind _ _ (Keeps-or_fail _ found) λ old. Keeps-rotate req client old registered

  pub token-IsSound : (req : TokenRequest) → Keeps (IsSound known) (token ext req)
  unfolding token
  token-IsSound req =
      Keeps-if (req.grant_type == "authorization_code") _ _
        (Keeps-grant_authorization_code ext known plain req)
        (Keeps-if (req.grant_type == "password") _ _ (Keeps-grant_password req) (
          Keeps-if (req.grant_type == "client_credentials") _ _
            (Keeps-grant_client_credentials ext known plain req)
            (Keeps-if (req.grant_type == "refresh_token") _ _ (Keeps-grant_refresh_token req)
              (Keeps-fail _))))
