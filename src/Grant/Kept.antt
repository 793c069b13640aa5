-- ===== src/Grant/Kept.antt =====
-- The token endpoint stores no code and changes no client: what holds of the codes and the clients,
-- and still holds when codes are lost, holds after any request.
use oauth_2_0_and_open_id_co.Action.{proceed}
use oauth_2_0_and_open_id_co.Grant.Frame.{
  Keeps-add_id_token, Keeps-issue_token_pair, Keeps-redeem_code, code_rules, OfCodes,
}
use oauth_2_0_and_open_id_co.Grant.{
  token, grant_refresh_token, renew_tokens, check_refresh, grant_client_credentials,
  issue_for_client, grant_password, TokenRequest, grant_authorization_code,
  validate_and_authenticate,
}
use oauth_2_0_and_open_id_co.Action.Frame.{Keeps-fail, Keeps-if, Keeps}
use oauth_2_0_and_open_id_co.Server.{load_refresh_token, update_codes, load_code}
use oauth_2_0_and_open_id_co.Expiry.Laws.{get-fetch}
use oauth_2_0_and_open_id_co.Dict.{get-retain, get-delete}
use oauth_2_0_and_open_id_co.Dict
use oauth_2_0_and_open_id_co.External.{External}
use oauth_2_0_and_open_id_co.Expiry.{sweep}
use oauth_2_0_and_open_id_co.Time.{after, Time}
use oauth_2_0_and_open_id_co.Base.{◌==◌, eq_iff, some, not, ◌≡◌, arith, String}
use oauth_2_0_and_open_id_co.Store.{
  TokenInfo, Client, code_expiry, AuthorizationCode, ClientStore, AuthCodeStore,
}
use oauth_2_0_and_open_id_co.Store

-- Every code of the second store is in the first.
abbrev pub Loses : AuthCodeStore → AuthCodeStore → Type 0
Loses s t =
    (key : String) (code : AuthorizationCode)
    → Dict.get t.codes key ≡ some code
    → Dict.get s.codes key ≡ some code

pub delete_code-Loses : (s : AuthCodeStore) (key : String) → Loses s (Store.delete_code s key)
unfolding Store.delete_code
delete_code-Loses s key k code h = ground (arith, get-delete s.codes key k)

pub get_code-Loses :
    (s : AuthCodeStore) (now : Time) (key : String) → Loses s (Store.get_code s now key).1
unfolding Store.get_code
get_code-Loses s now key k code h =
    ground (arith, get-fetch code_expiry now s.codes key k, eq_iff key k)

pub cleanup_codes-Loses : (s : AuthCodeStore) (now : Time) → Loses s (Store.cleanup_codes s now)
unfolding Store.cleanup_codes sweep
cleanup_codes-Loses s now k code h =
    ground (arith, get-retain (λ c. not (after now (code_expiry c))) s.codes k)

module _ (Q : AuthCodeStore → ClientStore → Type 0)
    (lose : (s t : AuthCodeStore) (clients : ClientStore) → Loses s t → Q s clients → Q t clients)
    (ext : External) where
  Keeps-load_code : (key : String) → Keeps (OfCodes Q) (load_code ext key)
  unfolding load_code
  Keeps-load_code key = record {
    at = λ w h. lose w.auth_codes _ w.clients (get_code-Loses w.auth_codes (ext.now w.clock) key) h;
  }

  Keeps-delete_code :
      (key : String) → Keeps (OfCodes Q) (update_codes (λ s. Store.delete_code s key))
  Keeps-delete_code key = record {
    at = λ w h. lose w.auth_codes _ w.clients (delete_code-Loses w.auth_codes key) h;
  }

  Keeps-validate_and_authenticate :
      (id secret grant : String) → Keeps (OfCodes Q) (validate_and_authenticate id secret grant)
  unfolding validate_and_authenticate proceed
  Keeps-validate_and_authenticate id secret grant = record { at = λ w h. ground arith }

  Keeps-grant_authorization_code :
      (req : TokenRequest) → Keeps (OfCodes Q) (grant_authorization_code ext req)
  unfolding grant_authorization_code
  Keeps-grant_authorization_code req =
      search
        (
          code_rules, Keeps-load_code, Keeps-delete_code, Keeps-validate_and_authenticate,
          Keeps-redeem_code,
        )
        depth 30

  ruleset kept_rules =
      (code_rules, Keeps-validate_and_authenticate, Keeps-issue_token_pair, Keeps-add_id_token)

  Keeps-grant_password : (req : TokenRequest) → Keeps (OfCodes Q) (grant_password ext req)
  unfolding grant_password
  Keeps-grant_password req = search kept_rules depth 40

  Keeps-issue_for_client :
      (client_id scope : String) → Keeps (OfCodes Q) (issue_for_client ext client_id scope)
  unfolding issue_for_client
  Keeps-issue_for_client client_id scope = search kept_rules depth 40

  Keeps-grant_client_credentials :
      (req : TokenRequest) → Keeps (OfCodes Q) (grant_client_credentials ext req)
  unfolding grant_client_credentials
  Keeps-grant_client_credentials req = search (kept_rules, Keeps-issue_for_client) depth 40

  Keeps-load_refresh_token : (key : String) → Keeps (OfCodes Q) (load_refresh_token ext key)
  unfolding load_refresh_token
  Keeps-load_refresh_token key = record { at = λ w h. h }

  Keeps-check_refresh :
      (req : TokenRequest) (client : Client) (old : TokenInfo)
      → Keeps (OfCodes Q) (check_refresh ext req client old)
  unfolding check_refresh
  Keeps-check_refresh req client old = search kept_rules depth 40

  Keeps-renew_tokens :
      (old : TokenInfo) (scope : String) → Keeps (OfCodes Q) (renew_tokens ext old scope)
  unfolding renew_tokens
  Keeps-renew_tokens old scope = search kept_rules depth 40

  Keeps-grant_refresh_token : (req : TokenRequest) → Keeps (OfCodes Q) (grant_refresh_token ext req)
  unfolding grant_refresh_token
  Keeps-grant_refresh_token req =
      search (kept_rules, Keeps-load_refresh_token, Keeps-check_refresh, Keeps-renew_tokens) depth
        40

  pub Keeps-token : (req : TokenRequest) → Keeps (OfCodes Q) (token ext req)
  unfolding token
  Keeps-token req =
      Keeps-if (req.grant_type == "authorization_code") _ _ (Keeps-grant_authorization_code req) (
        Keeps-if (req.grant_type == "password") _ _ (Keeps-grant_password req) (
          Keeps-if (req.grant_type == "client_credentials") _ _ (Keeps-grant_client_credentials req)
            (Keeps-if (req.grant_type == "refresh_token") _ _ (Keeps-grant_refresh_token req)
              (Keeps-fail _))))
