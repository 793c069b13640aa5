-- ===== src/Grant/Frame.antt =====
-- The steps that follow the deletion of a code leave the codes and the clients alone, whatever they return.
use oauth_2_0_and_open_id_co.Scope.{should_include_id_token}
use oauth_2_0_and_open_id_co.Action.{read, proceed}
use oauth_2_0_and_open_id_co.Base.{arith, ℕ, String}
use oauth_2_0_and_open_id_co.Grant.{
  redeem_code, TokenRequest, TokenResponse, check_code, add_id_token, issue_token_pair,
}
use oauth_2_0_and_open_id_co.Action.Frame.{
  Keeps-pure, Keeps-if, Keeps-read, Keeps-bind, Keeps, keeps_rules,
}
use oauth_2_0_and_open_id_co.External.{External}
use oauth_2_0_and_open_id_co.Server.{draw, wrapping, update_tokens, read_clock, World}
use oauth_2_0_and_open_id_co.Store.{
  ClientStore, AuthorizationCode, Client, TokenStore, AuthCodeStore,
}

module _ (Q : AuthCodeStore → ClientStore → Type 0) where
  abbrev pub OfCodes : World → Type 0
  OfCodes w = Q w.auth_codes w.clients

  pub Keeps-read_clock : (ext : External) → Keeps OfCodes (read_clock ext)
  Keeps-read_clock ext = record { at = λ w h. h }

  pub Keeps-draw :
      (ext : External) (text : String) (n : ℕ) → Keeps OfCodes (wrapping text (draw ext n))
  Keeps-draw ext text n = record { at = λ w h. h }

  pub Keeps-update_tokens : (f : TokenStore → TokenStore) → Keeps OfCodes (update_tokens f)
  Keeps-update_tokens f = record { at = λ w h. h }

  pub ruleset code_rules = (keeps_rules, Keeps-read_clock, Keeps-draw, Keeps-update_tokens)

  pub Keeps-issue_token_pair :
      (ext : External) (client_id user_id scope : String)
      → Keeps OfCodes (issue_token_pair ext client_id user_id scope)
  unfolding issue_token_pair proceed
  Keeps-issue_token_pair ext client_id user_id scope = search code_rules depth 30

  pub Keeps-add_id_token :
      (ext : External) (resp : TokenResponse) (client_id user_id nonce : String) (auth_time : ℕ)
      (scope : String)
      → Keeps OfCodes (add_id_token ext resp client_id user_id nonce auth_time scope)
  unfolding add_id_token
  Keeps-add_id_token ext resp client_id user_id nonce auth_time scope = search code_rules depth 30

  pub Keeps-check_code :
      (ext : External) (req : TokenRequest) (client : Client) (code : AuthorizationCode)
      → Keeps OfCodes (check_code ext req client code)
  unfolding check_code proceed
  Keeps-check_code ext req client code = record { at = λ w h. ground arith }

  pub Keeps-redeem_code :
      (ext : External) (req : TokenRequest) (client : Client) (code : AuthorizationCode)
      → Keeps OfCodes (redeem_code ext req client code)
  unfolding redeem_code
  Keeps-redeem_code ext req client code =
      Keeps-bind (check_code ext req client code) _ (Keeps-check_code ext req client code) λ u.
        Keeps-bind (issue_token_pair ext code.client_id code.user_id code.scope) _
          (Keeps-issue_token_pair ext code.client_id code.user_id code.scope)
          λ resp.
            Keeps-bind
              (read (λ (w : World). should_include_id_token code.scope code.user_id w.user_store)) _
              (Keeps-read _)
              λ b.
                Keeps-if b _ _
                  (Keeps-add_id_token ext resp code.client_id code.user_id code.nonce code.auth_time
                    code.scope)
                  (Keeps-pure resp)
