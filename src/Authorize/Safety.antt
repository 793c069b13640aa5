-- ===== src/Authorize/Safety.antt =====
-- What the authorization endpoint has checked when it issues a code, and where its errors go.
use oauth_2_0_and_open_id_co.Generator.{random_string}
use oauth_2_0_and_open_id_co.Errors.{err_server_error, AuthorizeError, as_authorize}
use oauth_2_0_and_open_id_co.Scope.Laws.{validate_client_scope_iff, Grants}
use oauth_2_0_and_open_id_co.Dict.{get-put}
use oauth_2_0_and_open_id_co.Base.{
  inr, ap, inl, ◌⊎◌, ◌∙◌, none, eq_refl, String, ◌≡◌, ◌≢◌, some, true, arith, eq_iff, Has,
}
use oauth_2_0_and_open_id_co.Dict
use oauth_2_0_and_open_id_co.Action.{proceed-err, proceed-ok, ok, err, proceed}
use oauth_2_0_and_open_id_co.External.{External}
use oauth_2_0_and_open_id_co.Store
use oauth_2_0_and_open_id_co.Store.{Client}
use oauth_2_0_and_open_id_co.Server.{World}
use oauth_2_0_and_open_id_co.Redirect.{validate_redirect_uri, validate_redirect_uri_iff}
use oauth_2_0_and_open_id_co.Authorize.{
  Error, authorization_code_bytes, draw, wrapping, validate_client_scope, AuthorizeRequest,
  AuthorizeResult, known_client, granted_scope, authorize_code, authorize_request, issued_code,
}

abbrev no_error : AuthorizeError
no_error = record { oauth_error = err_server_error ""; redirect_uri = ""; state = "" }

module _ (ext : External) (req : AuthorizeRequest) where
  authorize_code-ok :
      (w w' : World) (res : AuthorizeResult)
      → authorize_code ext req w ≡ (ok res, w')
      → (res.redirect_uri ≡ req.redirect_uri)
        × (res.state ≡ req.state)
        × (Dict.get w'.auth_codes.codes res.code
            ≡ some (issued_code req res.code (ext.now w.clock)))
        × (w'.tokens ≡ w.tokens)
  unfolding authorize_code proceed Store.create_code
  authorize_code-ok w w' res h =
      let (code, s, drawn, rest) =
        proceed-ok
          (wrapping {A = String} "server_error: failed to generate authorization code: "
            (draw ext authorization_code_bytes) w)
          _ h in
      ground (
        arith,
        get-put w.auth_codes.codes code (issued_code req code (ext.now w.clock)) code,
        eq_refl code,
      )

  authorize_code-err :
      (w w' : World) (e : Error)
      → authorize_code ext req w ≡ (err e, w')
      → (w'.server ≡ w.server) × (as_authorize e ≡ none)
  unfolding authorize_code proceed as_authorize random_string
  authorize_code-err w w' e h = ground arith

module _ (ext : External) (req : AuthorizeRequest) where
  pub known_client-ok :
      (w w' : World) (client : Client)
      → known_client ext req w ≡ (ok client, w')
      → (Store.get_by_id w.clients req.client_id ≡ some client)
        × (validate_redirect_uri client.redirect_uris req.redirect_uri ≡ true)
        × (w' ≡ w)
  unfolding known_client proceed
  known_client-ok w w' client h = ground arith

  pub granted_scope-ok :
      (client : Client) (w w' : World) (scope : String)
      → granted_scope ext req client w ≡ (ok scope, w')
      → (validate_client_scope ext.quote client req.scope ≡ ok scope)
        × (req.code_challenge ≢ "")
        × (req.code_challenge_method ≡ "S256")
        × (req.response_type ≡ "code")
        × (w' ≡ w)
  unfolding granted_scope proceed
  granted_scope-ok client w w' scope h = ground (
    arith,
    eq_iff req.code_challenge "",
    eq_iff req.code_challenge_method "S256",
    eq_iff req.response_type "code",
  )

  -- What holds when the endpoint has issued a code.
  pub record IsAuthorized (w w' : World) (res : AuthorizeResult) : Type 0 where
    pub client : Client
    pub scope : String
    pub registered : Store.get_by_id w.clients req.client_id ≡ some client
    pub redirect : Has req.redirect_uri client.redirect_uris
    pub granted : Grants client req.scope scope
    pub challenge : req.code_challenge ≢ ""
    pub method : req.code_challenge_method ≡ "S256"
    pub response : req.response_type ≡ "code"
    pub target : res.redirect_uri ≡ req.redirect_uri
    pub state : res.state ≡ req.state
    pub stored :
        Dict.get w'.auth_codes.codes res.code
        ≡ some (issued_code (record req { scope = scope }) res.code (ext.now w.clock))
    pub tokens : w'.tokens ≡ w.tokens

  known_client-err :
      (w w' : World) (e : Error) (a : AuthorizeError)
      → known_client ext req w ≡ (err e, w')
      → (w' ≡ w) × (as_authorize e ≡ some a → a.redirect_uri ≡ "")
  unfolding known_client proceed as_authorize
  known_client-err w w' e a h = ground arith

  granted_scope-err :
      (client : Client) (w w' : World) (e : Error) (a : AuthorizeError)
      → granted_scope ext req client w ≡ (err e, w')
      → (w' ≡ w)
        × (as_authorize e ≡ some a → (a.redirect_uri ≡ req.redirect_uri) × (a.state ≡ req.state))
  unfolding granted_scope proceed as_authorize
  granted_scope-err client w w' e a h = ground arith

  -- An issued code means that the client is registered with the redirect URI, that its scopes allow
  -- the granted scope, and that the request is for a code with an S256 challenge. The code is stored
  -- with the request's client, user, redirect URI and challenge and with the granted scope, and the
  -- answer goes to the request's redirect URI with its state. No token is touched.
  pub authorize_request-IsAuthorized :
      (w w' : World) (res : AuthorizeResult)
      → authorize_request ext req w ≡ (ok res, w')
      → IsAuthorized w w' res
  unfolding authorize_request
  authorize_request-IsAuthorized w w' res h =
      let (client, w1, known, h1) = proceed-ok (known_client ext req w) _ h in
      let (scope, w2, granted, h2) = proceed-ok (granted_scope ext req client w1) _ h1 in
      let (registered, listed, same) = known_client-ok w w1 client known in
      let (allowed, challenge, method, response, same') =
        granted_scope-ok client w1 w2 scope granted in
      let (target, state, stored, tokens) =
        authorize_code-ok ext (record req { scope = scope }) w2 w' res h2 in
      let here : w2 ≡ w = same' ∙ same in
      record {
        client = client;
        scope = scope;
        registered = registered;
        redirect = ((validate_redirect_uri_iff client.redirect_uris req.redirect_uri).0 listed).1;
        granted = (validate_client_scope_iff ext.quote client req.scope scope).0 allowed;
        challenge = challenge;
        method = method;
        response = response;
        target = target;
        state = state;
        stored =
            stored
            ∙ ap
                (λ (v : World).
                  some (issued_code (record req { scope = scope }) res.code (ext.now v.clock)))
                here;
        tokens = tokens ∙ ap (λ (v : World). v.tokens) here;
      }

  -- The redirect URI of an error is empty, or one that the client of the request has registered.
  abbrev pub IsSafeTarget : World → AuthorizeError → Type 0
  IsSafeTarget w a =
      (a.redirect_uri ≡ "")
      ⊎ ((client : Client) × (Store.get_by_id w.clients req.client_id ≡ some client)
          × Has a.redirect_uri client.redirect_uris
          × (a.redirect_uri ≡ req.redirect_uri)
          × (a.state ≡ req.state))

  abbrev IsRefusal : World → World → Error → Type 0
  IsRefusal w w' e =
      (w'.server ≡ w.server) × ((a : AuthorizeError) → as_authorize e ≡ some a → IsSafeTarget w a)

  late_refusal :
      (client : Client) (w w' : World) (e : Error)
      → Store.get_by_id w.clients req.client_id ≡ some client
      → Has req.redirect_uri client.redirect_uris
      → proceed
          (granted_scope ext req client w)
          (λ scope. authorize_code ext (record req { scope = scope }))
        ≡ (err e, w')
      → IsRefusal w w' e
  late_refusal client w w' e registered listed h =
      elim (proceed-err (granted_scope ext req client w) _ h) [
        | inl early ↦ (
          ap (λ (v : World). v.server) (granted_scope-err client w w' e no_error early).0,
          λ a q.
              let (target, state) = (granted_scope-err client w w' e a early).1 q in
              inr (client, registered, rw target listed, target, state),
        )
        | inr (scope, w1, granted, h1) ↦
            let same = granted_scope-ok client w w1 scope granted in
            let code = authorize_code-err ext (record req { scope = scope }) w1 w' e h1 in
            (code.0 ∙ ap (λ (v : World). v.server) same.4, λ a q. cc (q, code.1))
      ]

  pub refusal :
      (w w' : World) (e : Error) → authorize_request ext req w ≡ (err e, w') → IsRefusal w w' e
  unfolding authorize_request
  refusal w w' e h = elim (proceed-err (known_client ext req w) _ h) [
    | inl early ↦ (
      ap (λ (v : World). v.server) (known_client-err w w' e no_error early).0,
      λ a q. inl ((known_client-err w w' e a early).1 q),
    )
    | inr (client, w1, known, h1) ↦
        let (registered, listed, same) = known_client-ok w w1 client known in
        late_refusal client w w' e registered
          ((validate_redirect_uri_iff client.redirect_uris req.redirect_uri).0 listed).1
          (rw same at h1)
  ]

  -- The redirect URI of an authorization error is empty or one that is registered for the client of
  -- the request; in the second case it is the request's, and the error carries the request's state.
  -- The server is as it was before the request.
  pub authorize_request-IsSafeTarget :
      (w w' : World) (e : Error) (a : AuthorizeError)
      → authorize_request ext req w ≡ (err e, w')
      → as_authorize e ≡ some a
      → (w'.server ≡ w.server) × IsSafeTarget w a
  authorize_request-IsSafeTarget w w' e a h q = ((refusal w w' e h).0, (refusal w w' e h).1 a q)
