-- ===== src/Grant/Parts.antt =====
-- The steps that the grants share, after the tokens are issued and before.
-- `resp` with its ID token filled in or left empty.

use oauth_2_0_and_open_id_co.Scope.{is_scope_narrowed, validate_client_scope}
use oauth_2_0_and_open_id_co.Pkce.{verify_pkce}
use oauth_2_0_and_open_id_co.Generator.{generate_id_token}
use oauth_2_0_and_open_id_co.Store.{TokenInfo, AuthorizationCode, Client}
use oauth_2_0_and_open_id_co.Action.{Result-cases, err, ok, proceed, Result}
use oauth_2_0_and_open_id_co.Base.{◌⊎◌, inr, eq_iff, inl, arith, true, suc, refl, ℕ, String, ◌≡◌}
use oauth_2_0_and_open_id_co.External.{External}
use oauth_2_0_and_open_id_co.Server.{World}
use oauth_2_0_and_open_id_co.Grant.{
  default_scope, check_refresh, find_user, check_code, with_id_token, TokenRequest, add_id_token,
  TokenResponse,
}

abbrev pub Extends : TokenResponse → TokenResponse → Type 0
Extends resp resp' = resp' ≡ record resp { id_token = resp'.id_token }

-- Nothing but the clock has moved.
abbrev pub SameServer : World → World → Type 0
SameServer w w' = w'.server ≡ w.server

module _ (ext : External) where
  -- The ID token of a response: there is one only if it could be signed.
  pub add_id_token_of :
      (resp : TokenResponse) (client_id user_id nonce : String) (auth_time : ℕ) (scope : String)
      (w : World)
      → add_id_token ext resp client_id user_id nonce auth_time scope w ≡ (
        ok (
            with_id_token resp (
              generate_id_token ext w.generator
                (ext.now w.clock)
                client_id
                user_id
                nonce
                auth_time
                (find_user w.user_store user_id)
                scope)),
        record w { clock = suc w.clock },
      )
  unfolding add_id_token proceed
  add_id_token_of resp client_id user_id nonce auth_time scope w = refl

  with_id_token-Extends :
      (resp : TokenResponse) (r : Result String) → Extends resp (with_id_token resp r)
  with_id_token-Extends resp (ok t) = refl
  with_id_token-Extends resp (err e) = refl

  pub add_id_token-ok :
      (resp resp' : TokenResponse) (client_id user_id nonce : String) (auth_time : ℕ)
      (scope : String) (w w' : World)
      → add_id_token ext resp client_id user_id nonce auth_time scope w ≡ (ok resp', w')
      → Extends resp resp' × SameServer w w'
  unfolding add_id_token proceed
  add_id_token-ok resp resp' client_id user_id nonce auth_time scope w w' h =
      let r =
        generate_id_token ext w.generator (ext.now w.clock) client_id user_id nonce auth_time
          (find_user w.user_store user_id) scope in
      let filled = with_id_token-Extends resp r in ground (arith, filled)

  -- What a code passes before tokens are issued for it.
  pub check_code-ok :
      (req : TokenRequest) (client : Client) (code : AuthorizationCode) (w w' : World) (u : Unit)
      → check_code ext req client code w ≡ (ok u, w')
      → (code.client_id ≡ req.client_id)
        × (code.redirect_uri ≡ req.redirect_uri)
        × (verify_pkce ext.sum256 code.code_challenge code.code_challenge_method req.code_verifier
            ≡ true)
        × ((s : String) × (validate_client_scope ext.quote client code.scope ≡ ok s))
        × (w' ≡ w)
  unfolding check_code proceed
  check_code-ok req client code w w' u h =
      elim (Result-cases (validate_client_scope ext.quote client code.scope)) [
        | inl (s, granted) ↦
            let facts : (code.client_id ≡ req.client_id)
                × (code.redirect_uri ≡ req.redirect_uri)
                × (verify_pkce ext.sum256 code.code_challenge code.code_challenge_method
                      req.code_verifier
                    ≡ true)
                × (w' ≡ w) =
              ground (
                arith,
                eq_iff code.client_id req.client_id,
                eq_iff code.redirect_uri req.redirect_uri,
              ) in
            (facts.0, facts.1, facts.2, (s, granted), facts.3)
        | inr (e, refused) ↦ absurd (ground arith)
      ]

  -- What a refresh token passes before it is used, and the scope of the new tokens.
  pub check_refresh-ok :
      (req : TokenRequest) (client : Client) (old : TokenInfo) (w w' : World) (scope : String)
      → check_refresh ext req client old w ≡ (ok scope, w')
      → (old.client_id ≡ req.client_id)
        × (validate_client_scope ext.quote client (default_scope req.scope old.scope) ≡ ok scope)
        × ((req.scope ≡ "") ⊎ (is_scope_narrowed scope old.scope ≡ true))
        × (w' ≡ w)
  unfolding check_refresh proceed
  check_refresh-ok req client old w w' scope h =
      ground (arith, eq_iff old.client_id req.client_id, eq_iff req.scope "")
