-- ===== src/Authorize/Complete.antt =====
-- A request that meets every condition of the authorization endpoint is answered with a code.
use oauth_2_0_and_open_id_co.Redirect.{validate_redirect_uri_iff}
use oauth_2_0_and_open_id_co.Action.{proceed_of_ok, ok, proceed}
use oauth_2_0_and_open_id_co.Authorize.{
  String, World, authorize_code, granted_scope, known_client, AuthorizeRequest, authorize_request,
}
use oauth_2_0_and_open_id_co.External.{value, External}
use oauth_2_0_and_open_id_co.Base.{◌∙◌, eq_iff, arith, Has, some, ◌≢◌, ◌≡◌}
use oauth_2_0_and_open_id_co.Encoding.{Bytes, raw_url_encode}
use oauth_2_0_and_open_id_co.Generator.{random_string, authorization_code_bytes}
use oauth_2_0_and_open_id_co.Store
use oauth_2_0_and_open_id_co.Store.{Client}
use oauth_2_0_and_open_id_co.Scope.Laws.{validate_client_scope_iff, Grants}

module _ (ext : External) (req : AuthorizeRequest) where
  known_client_of :
      (client : Client) (w : World)
      → Store.get_by_id w.clients req.client_id ≡ some client
      → req.redirect_uri ≢ ""
      → Has req.redirect_uri client.redirect_uris
      → known_client ext req w ≡ (ok client, w)
  unfolding known_client proceed
  known_client_of client w found full listed = ground (
    arith,
    eq_iff req.redirect_uri "",
    (validate_redirect_uri_iff client.redirect_uris req.redirect_uri).1 (full, listed),
  )

  granted_scope_of :
      (client : Client) (w : World) (scope : String)
      → Grants client req.scope scope
      → req.code_challenge ≢ ""
      → req.code_challenge_method ≡ "S256"
      → req.response_type ≡ "code"
      → granted_scope ext req client w ≡ (ok scope, w)
  unfolding granted_scope proceed
  granted_scope_of client w scope granted challenge method response =
      let valid = (validate_client_scope_iff ext.quote client req.scope scope).1 granted in
      ground (
        arith,
        valid,
        eq_iff req.code_challenge "",
        eq_iff req.code_challenge_method "S256",
        eq_iff req.response_type "code",
      )

  authorize_code_of :
      (w : World) (b : Bytes)
      → ext.rand_read w.draws authorization_code_bytes ≡ value b
      → (w' : World) × (authorize_code ext req w ≡ (
        ok (record { redirect_uri = req.redirect_uri; code = raw_url_encode b; state = req.state }),
        w',
      ))
  unfolding authorize_code proceed random_string
  authorize_code_of w b drawn = ((authorize_code ext req w).1, ground (arith, drawn))

-- A request of a registered client, to a redirect URI of its list, for scopes that it may have, with
-- an S256 challenge and the response type "code", is answered with the code drawn from the random
-- source, the redirect URI and the state, if the random source delivers.
pub authorize_request_complete :
    (ext : External) (req : AuthorizeRequest) (client : Client) (w : World) (scope : String)
    (b : Bytes)
    → Store.get_by_id w.clients req.client_id ≡ some client
    → req.redirect_uri ≢ ""
    → Has req.redirect_uri client.redirect_uris
    → Grants client req.scope scope
    → req.code_challenge ≢ ""
    → req.code_challenge_method ≡ "S256"
    → req.response_type ≡ "code"
    → ext.rand_read w.draws authorization_code_bytes ≡ value b
    → (w' : World) × (authorize_request ext req w ≡ (
      ok (record { redirect_uri = req.redirect_uri; code = raw_url_encode b; state = req.state }),
      w',
    ))
unfolding authorize_request
authorize_request_complete ext req client w scope b found full listed granted challenge method
      response drawn =
    let (w', done) = authorize_code_of ext (record req { scope = scope }) w b drawn in
    (
      w',
      proceed_of_ok _ _ (known_client_of ext req client w found full listed)
          ∙ proceed_of_ok _ _
              (granted_scope_of ext req client w scope granted challenge method response)
          ∙ done,
    )
