-- ===== src/Grant/SingleUse.antt =====
-- A code is good for one attempt.
use oauth_2_0_and_open_id_co.Server.Loads.{load_code-eq}
use oauth_2_0_and_open_id_co.Grant.Frame.{Keeps-redeem_code}
use oauth_2_0_and_open_id_co.Expiry.Laws.{fresh, view}
use oauth_2_0_and_open_id_co.Grant.Login.{validate_and_authenticate_of, IsAuthenticated}
use oauth_2_0_and_open_id_co.Dict.{get-delete}
use oauth_2_0_and_open_id_co.Errors.{Error}
use oauth_2_0_and_open_id_co.Store
use oauth_2_0_and_open_id_co.Server.{set_codes, load_code, World}
use oauth_2_0_and_open_id_co.Action.{proceed_of_ok, ok, err, proceed}
use oauth_2_0_and_open_id_co.Dict
use oauth_2_0_and_open_id_co.Store.{code_expiry, AuthorizationCode, Client, AuthCodeStore}
use oauth_2_0_and_open_id_co.Grant.{
  redeem_code, invalid_grant, grant_authorization_code, TokenRequest,
}
use oauth_2_0_and_open_id_co.Base.{refl, ap, Option, some, eq_refl, ◌∙◌, none, ◌≡◌, String}
use oauth_2_0_and_open_id_co.External.{External}

abbrev pub IsSpent : String → AuthCodeStore → Type 0
IsSpent code s = Dict.get s.codes code ≡ none

module _ (ext : External) where
  abbrev not_found : Error
  not_found = invalid_grant "authorization code not found or expired"

  deleted-IsSpent : (s : AuthCodeStore) (code : String) → IsSpent code (Store.delete_code s code)
  unfolding Store.delete_code
  deleted-IsSpent s code = get-delete s.codes code code ∙ rw (eq_refl code)

  abbrev pub after_load : TokenRequest → World → World
  after_load req w = (load_code ext req.code w).1

  pub loaded :
      (req : TokenRequest) (w : World) (found : Option AuthorizationCode)
      → view code_expiry (ext.now w.clock) w.auth_codes.codes req.code ≡ found
      → load_code ext req.code w ≡ (ok found, after_load req w)
  loaded req w found there = load_code-eq ext req.code w ∙ ap (λ o. (ok o, after_load req w)) there

  -- The grant deletes a code that it found before it looks at it.
  pub grant_found :
      (req : TokenRequest) (client : Client) (code : AuthorizationCode) (w : World)
      → IsAuthenticated req.client_id req.client_secret "authorization_code" w client
      → view code_expiry (ext.now w.clock) w.auth_codes.codes req.code ≡ some code
      → grant_authorization_code ext req w
        ≡ redeem_code ext req client code (
            set_codes (after_load req w) (Store.delete_code (after_load req w).auth_codes req.code))
  unfolding grant_authorization_code
  grant_found req client code w auth there =
      proceed_of_ok _ _ (
        validate_and_authenticate_of req.client_id req.client_secret "authorization_code" w client
          auth)
      ∙ proceed_of_ok _ _ (loaded req w (some code) there)
      ∙ (unfold proceed in refl)

  grant_missing :
      (req : TokenRequest) (client : Client) (w : World)
      → IsAuthenticated req.client_id req.client_secret "authorization_code" w client
      → view code_expiry (ext.now w.clock) w.auth_codes.codes req.code ≡ none
      → grant_authorization_code ext req w ≡ (err not_found, after_load req w)
  unfolding grant_authorization_code
  grant_missing req client w auth missing =
      proceed_of_ok _ _ (
        validate_and_authenticate_of req.client_id req.client_secret "authorization_code" w client
          auth)
      ∙ proceed_of_ok _ _ (loaded req w none missing)
      ∙ (unfold proceed in refl)

  -- An attempt by an authenticated client that finds the code spends it, whether it succeeds or fails.
  pub attempt-IsSpent :
      (req : TokenRequest) (client : Client) (code : AuthorizationCode) (w : World)
      → IsAuthenticated req.client_id req.client_secret "authorization_code" w client
      → view code_expiry (ext.now w.clock) w.auth_codes.codes req.code ≡ some code
      → IsSpent req.code (grant_authorization_code ext req w).1.auth_codes
  attempt-IsSpent req client code w auth there = rw (grant_found req client code w auth there) (
      (Keeps-redeem_code (λ s c. IsSpent req.code s) ext req client code).at _
        (deleted-IsSpent (after_load req w).auth_codes req.code))

  -- A code is good for one attempt: once an authenticated client has presented a live code, whatever
  -- came of it, any later attempt with that code, by whichever authenticated client, is answered with
  -- "authorization code not found or expired", until a code of that name is stored again. The later
  -- attempt comes in any world in which the codes are those that the first one left.
  pub exchange_once :
      (req again : TokenRequest) (client other : Client) (code : AuthorizationCode)
      (w later : World)
      → IsAuthenticated req.client_id req.client_secret "authorization_code" w client
      → view code_expiry (ext.now w.clock) w.auth_codes.codes req.code ≡ some code
      → later.auth_codes ≡ (grant_authorization_code ext req w).1.auth_codes
      → again.code ≡ req.code
      → IsAuthenticated again.client_id again.client_secret "authorization_code" later other
      → (grant_authorization_code ext again later).0 ≡ err not_found
  exchange_once req again client other code w later auth there codes same auth' =
      let spent : Dict.get later.auth_codes.codes again.code ≡ none =
        rw (codes, same) (attempt-IsSpent req client code w auth there) in
      ap (λ r. r.0)
        (grant_missing again other later auth' (ap (fresh code_expiry (ext.now later.clock)) spent))
