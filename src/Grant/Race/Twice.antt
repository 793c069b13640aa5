-- ===== src/Grant/Race/Twice.antt =====
-- Calls that hold the same code, since each got it from the store before one of them deleted it.
use oauth_2_0_and_open_id_co.Scope.Laws.{validate_client_scope_iff, Grants}
use oauth_2_0_and_open_id_co.Pkce.{verify_pkce}
use oauth_2_0_and_open_id_co.Base.{ℕ, ◌≤◌, String, true, ◌≡◌, List, ◌++◌}
use oauth_2_0_and_open_id_co.Action.{ok}
use oauth_2_0_and_open_id_co.External.{External, PrivateKey, JwtToken, value}
use oauth_2_0_and_open_id_co.Encoding.{Bytes}
use oauth_2_0_and_open_id_co.Store.{Client, AuthorizationCode}
use oauth_2_0_and_open_id_co.Grant.{TokenRequest, TokenResponse}
use oauth_2_0_and_open_id_co.Grant.Complete.{check_code_of}
use oauth_2_0_and_open_id_co.Turns.{Race, run, run-append, times}
use oauth_2_0_and_open_id_co.Grant.Race.{Exchange, holding, finished, step}
use oauth_2_0_and_open_id_co.Grant.Race.Held.{holding_succeeds}

module _ (ext : External) where
  -- What the exchange asks of a code that it got from the store, for the client of the request.
  pub record IsRedeemable (req : TokenRequest) (client : Client) (code : AuthorizationCode)
      : Type 0 where
    pub owner : code.client_id ≡ req.client_id
    pub redirect : code.redirect_uri ≡ req.redirect_uri
    pub verified :
        verify_pkce ext.sum256 code.code_challenge code.code_challenge_method req.code_verifier
        ≡ true
    pub scope : String
    pub permitted : Grants client code.scope scope

  module _
      (signs : (token : JwtToken) (key : PrivateKey)
        → (jwt : String) × (ext.signed_string token key ≡ value jwt))
      (draws : (n count : ℕ) → (b : Bytes) × (ext.rand_read n count ≡ value b)) where
    -- A call that holds a code after some turns succeeds with two turns more.
    held_succeeds :
        (r : Race Exchange) (before after : List ℕ) (i : ℕ) (req : TokenRequest) (client : Client)
        (code : AuthorizationCode)
        → (run (step ext) before r).calls i ≡ holding req client code
        → IsRedeemable req client code
        → 2 ≤ times i after
        → (resp : TokenResponse) × ((run (step ext) (before ++ after) r).calls i
            ≡ finished (ok resp))
    held_succeeds r before after i req client code held may enough =
        rw (run-append (step ext) before after r) (
          holding_succeeds ext signs draws req client code after (run (step ext) before r) i held
            (λ w.
              check_code_of ext req client code may.scope w may.owner may.redirect may.verified
                ((validate_client_scope_iff ext.quote client code.scope may.scope).1 may.permitted))
            enough)

    -- If, at some moment of a run, two calls hold the same code, each since it got it from the store
    -- and before it deletes it, then both succeed: the code is redeemed twice. This holds for any turns
    -- of all calls before that moment and after it, in which each of the two has the two turns that it
    -- still needs, also where one of the two, or another call, deletes the code in between. The
    -- requests may differ; for each, the code meets every condition of the exchange, and the signer
    -- and the random source always deliver.
    pub run_twice :
        (r : Race Exchange) (before after : List ℕ) (i j : ℕ) (req req' : TokenRequest)
        (client client' : Client) (code : AuthorizationCode)
        → (run (step ext) before r).calls i ≡ holding req client code
        → (run (step ext) before r).calls j ≡ holding req' client' code
        → IsRedeemable req client code
        → IsRedeemable req' client' code
        → 2 ≤ times i after
        → 2 ≤ times j after
        → let both = run (step ext) (before ++ after) r in
          ((resp : TokenResponse) × (both.calls i ≡ finished (ok resp)))
          × ((resp : TokenResponse) × (both.calls j ≡ finished (ok resp)))
    run_twice r before after i j req req' client client' code held_i held_j may_i may_j many more =
        (
          held_succeeds r before after i req client code held_i may_i many,
          held_succeeds r before after j req' client' code held_j may_j more,
        )
