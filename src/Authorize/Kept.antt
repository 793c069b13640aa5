-- ===== src/Authorize/Kept.antt =====
-- What the authorization endpoint leaves of the codes: those that were there, and one for a request
-- that it accepts.
use oauth_2_0_and_open_id_co.Redirect.{validate_redirect_uri_iff}
use oauth_2_0_and_open_id_co.Authorize.Safety.{refusal, granted_scope-ok, known_client-ok}
use oauth_2_0_and_open_id_co.Generator.{authorization_code_bytes, random_string}
use oauth_2_0_and_open_id_co.Grant.Frame.{OfCodes}
use oauth_2_0_and_open_id_co.Server.{World}
use oauth_2_0_and_open_id_co.Action.{proceed-ok, ok, err, Result, Result-cases, proceed}
use oauth_2_0_and_open_id_co.Action.Frame.{Keeps}
use oauth_2_0_and_open_id_co.External.{External}
use oauth_2_0_and_open_id_co.Store
use oauth_2_0_and_open_id_co.Time.{Time}
use oauth_2_0_and_open_id_co.Base.{ap, sym, ◌∙◌, inr, inl, refl, Has, some, ◌≡◌, String, ◌≢◌}
use oauth_2_0_and_open_id_co.Authorize.{
  granted_scope, known_client, AuthorizeResult, authorize_request, authorize_code, issued_code,
  AuthorizeRequest,
}
use oauth_2_0_and_open_id_co.Store.{Client, AuthCodeStore, ClientStore}

-- The request names a registered client and a redirect URI of its list, and has an S256 challenge.
abbrev pub IsAccepted : ClientStore → AuthorizeRequest → Type 0
IsAccepted clients req =
    (req.code_challenge ≢ "")
    × (req.code_challenge_method ≡ "S256")
    × (client : Client) × (Store.get_by_id clients req.client_id ≡ some client)
    × Has req.redirect_uri client.redirect_uris

module _ (Q : AuthCodeStore → ClientStore → Type 0)
    (store : (s : AuthCodeStore) (clients : ClientStore) (req : AuthorizeRequest) (code : String)
        (now : Time)
      → IsAccepted clients req
      → Q s clients
      → Q (Store.create_code s (issued_code req code now)) clients)
    (ext : External) where
  authorize_code-Keeps :
      (req : AuthorizeRequest) (w : World)
      → IsAccepted w.clients req
      → OfCodes Q w
      → OfCodes Q (authorize_code ext req w).1
  unfolding authorize_code proceed
  authorize_code-Keeps req w accepted h =
      elim (Result-cases (random_string (ext.rand_read w.draws authorization_code_bytes))) [
        | inl (code, drawn) ↦
            rw drawn (store w.auth_codes w.clients req code (ext.now w.clock) accepted h)
        | inr (e, failed) ↦ rw failed h
      ]

  stored_after :
      (req : AuthorizeRequest) (w w' : World) (result : Result AuthorizeResult)
      → authorize_request ext req w ≡ (result, w')
      → OfCodes Q w
      → OfCodes Q w'
  unfolding authorize_request
  stored_after req w w' (err e) answered h = rw (refusal ext req w w' e answered).0 h
  stored_after req w w' (ok res) answered h =
      let (client, w1, known, h1) = proceed-ok (known_client ext req w) _ answered in
      let (scope, w2, granted, h2) = proceed-ok (granted_scope ext req client w1) _ h1 in
      let (registered, listed, same) = known_client-ok ext req w w1 client known in
      let (allowed, challenge, method, response, same') =
        granted_scope-ok ext req client w1 w2 scope granted in
      let here : w2 ≡ w = same' ∙ same in
      let has = ((validate_redirect_uri_iff client.redirect_uris req.redirect_uri).0 listed).1 in
      let after =
        authorize_code-Keeps (record req { scope = scope }) w
          (challenge, method, client, registered, has) h in
      let answer : authorize_code ext (record req { scope = scope }) w ≡ (ok res, w') =
        rw (sym here) h2 in
      rw (ap (λ p. p.1) (sym answer)) after

  pub Keeps-authorize_request :
      (req : AuthorizeRequest) → Keeps (OfCodes Q) (authorize_request ext req)
  Keeps-authorize_request req = record {
    at = λ w h.
        let answer = authorize_request ext req w in stored_after req w answer.1 answer.0 refl h;
  }
