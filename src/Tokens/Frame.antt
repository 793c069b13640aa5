-- ===== src/Tokens/Frame.antt =====
-- The steps that leave the tokens and the clients alone, whatever they return.
use oauth_2_0_and_open_id_co.Base.{refl, ◌≡◌, ℕ, String, arith}
use oauth_2_0_and_open_id_co.Action.{Result, ok, err, Action, proceed}
use oauth_2_0_and_open_id_co.Action.Frame.{Keeps, keeps_rules}
use oauth_2_0_and_open_id_co.External.{External}
use oauth_2_0_and_open_id_co.Store.{
  TokenStore, ClientStore, AuthCodeStore, AuthorizationCode, Client,
}
use oauth_2_0_and_open_id_co.Server.{World, read_clock, wrapping, draw, update_codes, load_code}
use oauth_2_0_and_open_id_co.Authorize.{
  AuthorizeRequest, authorize_code, known_client, granted_scope, authorize_request,
}
use oauth_2_0_and_open_id_co.Grant.{
  TokenRequest, TokenResponse, validate_and_authenticate, check_code, add_id_token,
}

module _ (R : TokenStore → ClientStore → Type 0) where
  abbrev pub OfTokens : World → Type 0
  OfTokens w = R w.tokens w.clients

  pub Keeps-read_clock : (ext : External) → Keeps OfTokens (read_clock ext)
  Keeps-read_clock ext = record { at = λ w h. h }

  pub Keeps-draw :
      (ext : External) (text : String) (n : ℕ) → Keeps OfTokens (wrapping text (draw ext n))
  Keeps-draw ext text n = record { at = λ w h. h }

  pub Keeps-update_codes : (f : AuthCodeStore → AuthCodeStore) → Keeps OfTokens (update_codes f)
  Keeps-update_codes f = record { at = λ w h. h }

  pub Keeps-load_code : (ext : External) (key : String) → Keeps OfTokens (load_code ext key)
  unfolding load_code
  Keeps-load_code ext key = record { at = λ w h. h }

  pub Keeps-validate_and_authenticate :
      (id secret grant : String) → Keeps OfTokens (validate_and_authenticate id secret grant)
  unfolding validate_and_authenticate proceed
  Keeps-validate_and_authenticate id secret grant = record { at = λ w h. ground arith }

  pub ruleset token_rules = (
    keeps_rules, Keeps-read_clock, Keeps-draw, Keeps-update_codes, Keeps-load_code,
    Keeps-validate_and_authenticate,
  )

  pub Keeps-add_id_token :
      (ext : External) (resp : TokenResponse) (client_id user_id nonce : String) (auth_time : ℕ)
      (scope : String)
      → Keeps OfTokens (add_id_token ext resp client_id user_id nonce auth_time scope)
  unfolding add_id_token
  Keeps-add_id_token ext resp client_id user_id nonce auth_time scope = search token_rules depth 30

  pub Keeps-check_code :
      (ext : External) (req : TokenRequest) (client : Client) (code : AuthorizationCode)
      → Keeps OfTokens (check_code ext req client code)
  unfolding check_code proceed
  Keeps-check_code ext req client code = record { at = λ w h. ground arith }

  Keeps-authorize_code :
      (ext : External) (req : AuthorizeRequest) → Keeps OfTokens (authorize_code ext req)
  unfolding authorize_code
  Keeps-authorize_code ext req = search token_rules depth 30

  Keeps-known_client :
      (ext : External) (req : AuthorizeRequest) → Keeps OfTokens (known_client ext req)
  unfolding known_client
  Keeps-known_client ext req = search token_rules depth 30

  Keeps-granted_scope :
      (ext : External) (req : AuthorizeRequest) (client : Client)
      → Keeps OfTokens (granted_scope ext req client)
  unfolding granted_scope
  Keeps-granted_scope ext req client = search token_rules depth 40

  pub Keeps-authorize_request :
      (ext : External) (req : AuthorizeRequest) → Keeps OfTokens (authorize_request ext req)
  unfolding authorize_request
  Keeps-authorize_request ext req =
      search (token_rules, Keeps-known_client, Keeps-granted_scope, Keeps-authorize_code) depth 30

-- What a sequence keeps, where the second part may use what the first has returned.
pub Keeps-proceed {ℓ} :
    {S A B : Type ℓ} {P : S → Type ℓ} (p : Result A × S) (f : A → Action S B)
    → P p.1
    → ((a : A) (s : S) → p ≡ (ok a, s) → P s → P (f a s).1)
    → P (proceed p f).1
unfolding proceed
Keeps-proceed (ok a, s) f here next = next a s refl here
Keeps-proceed (err e, s) f here next = here
