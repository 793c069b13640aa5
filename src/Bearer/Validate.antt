-- ===== src/Bearer/Validate.antt =====
-- What an accepted bearer token is, and that a token that is gone is refused.
use oauth_2_0_and_open_id_co.Server.Loads.{view-some, load_access_token-ok}
use oauth_2_0_and_open_id_co.Errors.{Error}
use oauth_2_0_and_open_id_co.Generator.{validate_access_token}
use oauth_2_0_and_open_id_co.Action.{
  or_fail-ok, lift-ok, lift, read, Result-cases, then_ok, err, ok, Result,
}
use oauth_2_0_and_open_id_co.Store.{token_expiry, TokenInfo}
use oauth_2_0_and_open_id_co.Dict
use oauth_2_0_and_open_id_co.Bearer.{claims_result, bearer_of, validate_bearer_token}
use oauth_2_0_and_open_id_co.Server.{load_access_token, read_clock, World}
use oauth_2_0_and_open_id_co.Base.{◌∙◌, sym, inr, inl, ◌≤◌, suc, some, none, ◌≡◌, String}
use oauth_2_0_and_open_id_co.External.{MapClaims, External}

module _ (ext : External) (header : String) where
  -- The token verifies, and is stored and alive. `w` is the world before the call.
  pub record IsBearer (w : World) (info : TokenInfo) : Type 0 where
    pub claims : MapClaims
    pub verified :
        validate_access_token ext w.generator (ext.now w.clock) (bearer_of header) ≡ ok claims
    pub stored : Dict.get w.tokens.access_tokens (bearer_of header) ≡ some info
    pub alive : ext.now (suc w.clock) ≤ info.expires_at

  claims_result-ok : (r : Result MapClaims) (c : MapClaims) → claims_result r ≡ ok c → r ≡ ok c
  claims_result-ok (ok d) c h = h
  claims_result-ok (err e) c h = cc

  -- A token is accepted only if the JWT package verifies it, with the method and the key of the
  -- server, and if it is stored and has not expired; the answer is what is stored.
  pub validate_bearer_token-IsBearer :
      (w w' : World) (info : TokenInfo)
      → validate_bearer_token ext header w ≡ (ok info, w')
      → IsBearer w info
  unfolding validate_bearer_token
  validate_bearer_token-IsBearer w w' info h = then_ok (read_clock ext w) _ h λ now w1 ticked h1.
      then_ok (read (λ (x : World). x.generator) w1) _ h1 λ g w2 asked h2.
        then_ok (lift (claims_result (validate_access_token ext g now (bearer_of header))) w2) _ h2
          λ claims w3 checked h3.
            then_ok (load_access_token ext (bearer_of header) w3) _ h3 λ found w4 loaded h4.
              let (valid, same3) = lift-ok _ w2 w3 claims checked in
              let (there, same4) = or_fail-ok _ found w4 w' info h4 in
              let start : w3 ≡ record w { clock = suc w.clock } = cc in
              let loads = load_access_token-ok ext (bearer_of header) w3 w4 found loaded in
              let live =
                view-some token_expiry (ext.now w3.clock) w3.tokens.access_tokens (bearer_of header)
                  info (sym loads.0 ∙ there) in
              let g_eq : g ≡ w.generator = cc in
              let n_eq : now ≡ ext.now w.clock = cc in
              record {
                claims = claims;
                verified = rw (← g_eq, ← n_eq) (claims_result-ok _ claims valid);
                stored = rw start at live.0;
                alive = rw start at live.1;
              }

  -- A token that is not stored, because it was revoked, rotated or never issued, is refused also
  -- where its signature verifies.
  pub validate_bearer_token_gone :
      (w : World)
      → Dict.get w.tokens.access_tokens (bearer_of header) ≡ none
      → (e : Error) × ((validate_bearer_token ext header w).0 ≡ err e)
  validate_bearer_token_gone w gone = elim (Result-cases (validate_bearer_token ext header w).0) [
    | inl (info, accepted) ↦
        let after = (validate_bearer_token ext header w).1 in
        let v = validate_bearer_token-IsBearer w after info (λ i. (accepted i, after)) in
        absurd (cc (gone, v.stored))
    | inr refused ↦ refused
  ]
