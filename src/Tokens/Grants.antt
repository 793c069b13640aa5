-- ===== src/Tokens/Grants.antt =====
-- Every grant leaves the tokens sound.
use oauth_2_0_and_open_id_co.Base.{String, ◌≡◌, some, inl, inr}
use oauth_2_0_and_open_id_co.Action.{Action, ok, lift, lift-ok, ◌>>=◌}
use oauth_2_0_and_open_id_co.Action.Frame.{Keeps}
use oauth_2_0_and_open_id_co.External.{External}
use oauth_2_0_and_open_id_co.Scope.Laws.{
  Grants, Permits, HasPlainScopes, validate_client_scope-Permits, validate_client_scope_iff,
}
use oauth_2_0_and_open_id_co.Scope.{validate_client_scope, split_spaces}
use oauth_2_0_and_open_id_co.Store
use oauth_2_0_and_open_id_co.Store.{Client, ClientStore, TokenInfo, AuthorizationCode}
use oauth_2_0_and_open_id_co.Server.{World}
use oauth_2_0_and_open_id_co.Grant.{
  TokenRequest, validate_and_authenticate, redeem_code, check_code, grant_authorization_code,
  grant_client_credentials,
}
use oauth_2_0_and_open_id_co.Grant.Login.{validate_and_authenticate-ok}
use oauth_2_0_and_open_id_co.Grant.Parts.{check_code-ok}
use oauth_2_0_and_open_id_co.Tokens.Frame.{
  token_rules, Keeps-add_id_token, Keeps-check_code, Keeps-proceed, Keeps-validate_and_authenticate,
}
use oauth_2_0_and_open_id_co.Tokens.Sound.{IsPermitted}
use oauth_2_0_and_open_id_co.Tokens.Issued.{
  IsSound, SoundFor, Keeps-issue_and_finish, Keeps-issue_for_client,
}

-- No registered client has an empty scope or one with a space in its list.
abbrev pub ArePlain : ClientStore → Type 0
ArePlain clients =
    (id : String) (client : Client)
    → Store.get_by_id clients id ≡ some client
    → HasPlainScopes client

-- A scope that passes the check, whatever is granted for it, is permitted.
checked-Permits :
    (client : Client) (scope granted : String) → Grants client scope granted → Permits client scope
unfolding split_spaces
checked-Permits client scope granted (inl (none_listed, e)) = inl none_listed
checked-Permits client scope granted (inr (inl (listed, empty, e))) = inr (rw empty tt)
checked-Permits client scope granted (inr (inr (listed, named, all, e))) = inr all

module _ (ext : External) (known : ClientStore) (plain : ArePlain known) where
  -- The client of a successful authentication, among the known clients.
  authenticated :
      (id secret grant : String) (w w1 : World) (client : Client)
      → w.clients ≡ known
      → validate_and_authenticate id secret grant w ≡ (ok client, w1)
      → Store.get_by_id known id ≡ some client
  authenticated id secret grant w w1 client same h =
      rw same at (validate_and_authenticate-ok id secret grant w w1 client h).0.0

  -- An action after authentication, which may use that the client is registered.
  pub Keeps-authenticated :
      {B : Type 0} (id secret grant : String) (next : Client → Action World B)
      → ((client : Client)
          → Store.get_by_id known id ≡ some client
          → Keeps (IsSound known) (next client))
      → Keeps (IsSound known) (validate_and_authenticate id secret grant >>= next)
  Keeps-authenticated id secret grant next kept = record {
    at = λ w h.
        Keeps-proceed (validate_and_authenticate id secret grant w) next
          ((Keeps-validate_and_authenticate (SoundFor known) id secret grant).at w h)
          λ client w1 validated h1.
            (kept client (authenticated id secret grant w w1 client h.1 validated)).at w1 h1;
  }

  -- An action after the scope check, which may use that the granted scope is permitted.
  pub Keeps-scoped :
      {B : Type 0} (id requested : String) (client : Client) (next : String → Action World B)
      → Store.get_by_id known id ≡ some client
      → ((scope : String) → IsPermitted known id scope → Keeps (IsSound known) (next scope))
      → Keeps (IsSound known) (lift (validate_client_scope ext.quote client requested) >>= next)
  Keeps-scoped id requested client next registered kept = record {
    at = λ w h.
        Keeps-proceed (lift (validate_client_scope ext.quote client requested) w) next h
          λ scope w1 checked h1.
            let granted = (lift-ok _ w w1 scope checked).0 in
            let permits =
              validate_client_scope-Permits ext.quote client requested scope
                (plain id client registered) granted in
            (kept scope (client, registered, permits)).at w1 h1;
  }

  Keeps-redeem_code :
      (req : TokenRequest) (client : Client) (code : AuthorizationCode)
      → Store.get_by_id known req.client_id ≡ some client
      → Keeps (IsSound known) (redeem_code ext req client code)
  unfolding redeem_code
  Keeps-redeem_code req client code registered = record {
    at = λ w h.
        Keeps-proceed (check_code ext req client code w) _
          ((Keeps-check_code (SoundFor known) ext req client code).at w h)
          λ u w1 checked h1.
            let (owner, redirect, verified, granted, same) =
              check_code-ok ext req client code w w1 u checked in
            let permits =
              checked-Permits client code.scope granted.0
                ((validate_client_scope_iff ext.quote client code.scope granted.0).0 granted.1) in
            (Keeps-issue_and_finish ext known code.client_id code.scope
                (client, rw owner registered, permits) code.user_id _ _
                (λ first.
                  Keeps-add_id_token (SoundFor known) ext first code.client_id code.user_id
                    code.nonce code.auth_time code.scope)).at
              w1 h1;
  }

  pub Keeps-grant_authorization_code :
      (req : TokenRequest) → Keeps (IsSound known) (grant_authorization_code ext req)
  unfolding grant_authorization_code
  Keeps-grant_authorization_code req =
      Keeps-authenticated req.client_id req.client_secret "authorization_code" _
        λ client registered.
          let redeems =
            λ (code : AuthorizationCode). Keeps-redeem_code req client code registered in
          search (token_rules, redeems) depth 30

  pub Keeps-grant_client_credentials :
      (req : TokenRequest) → Keeps (IsSound known) (grant_client_credentials ext req)
  unfolding grant_client_credentials
  Keeps-grant_client_credentials req =
      Keeps-authenticated req.client_id req.client_secret "client_credentials" _
        λ client registered.
          Keeps-scoped req.client_id req.scope client _ registered
            λ scope permitted. Keeps-issue_for_client ext known req.client_id scope permitted
