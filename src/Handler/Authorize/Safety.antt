-- ===== src/Handler/Authorize/Safety.antt =====
-- The authorization handler: where its answers lead, and what it does without a login.
use oauth_2_0_and_open_id_co.Authorize.Safety.{
  authorize_request-IsSafeTarget, authorize_request-IsAuthorized,
}
use oauth_2_0_and_open_id_co.Handler.{read_session_data}
use oauth_2_0_and_open_id_co.Service.Session.{get_authorize_session_check, SessionData}
use oauth_2_0_and_open_id_co.Store
use oauth_2_0_and_open_id_co.Dict.{get-put}
use oauth_2_0_and_open_id_co.Store.{Client}
use oauth_2_0_and_open_id_co.Action.{err, Result, ok}
use oauth_2_0_and_open_id_co.Dict
use oauth_2_0_and_open_id_co.Base.{
  sym, ne-of-==, inr, inl, ◌==◌, Bool-cases, refl, none, Option, Has, ◌≢◌, arith, some, ◌⊎◌, ◌≡◌,
  String,
}
use oauth_2_0_and_open_id_co.Authorize.{AuthorizeRequest, authorize_request, AuthorizeResult}
use oauth_2_0_and_open_id_co.Errors.{as_authorize, AuthorizeError}
use oauth_2_0_and_open_id_co.Server.{World}
use oauth_2_0_and_open_id_co.Handler.Authorize.{
  authorize_request_of, authorize_handler, authorize_user, to_code_uri, to_error_uri, code_query,
  error_query, authorize_result_response, authorize_error_response,
}
use oauth_2_0_and_open_id_co.Http.{Visit, with_header, redirect, HttpRequest}
use oauth_2_0_and_open_id_co.Uri.{get_value, Query, Parsed, ParseUri}
use oauth_2_0_and_open_id_co.External.{External}

module _ (ext : External) (parse : ParseUri) where
  -- A location is the login page, or prints this redirect URI, with a query, where the client has
  -- registered it.
  abbrev pub IsOwnLocation : String → String → World → String → Type 0
  IsOwnLocation client_id redirect_uri w location =
      (location ≡ "/login")
      ⊎ ((client : Client) × (uri : Parsed) × (q : Query) × (Store.get_by_id w.clients client_id
            ≡ some client)
          × Has redirect_uri client.redirect_uris
          × (parse redirect_uri ≡ some uri)
          × (location ≡ uri.render q))

  redirect-Location :
      (to location : String)
      → Dict.get (redirect to).headers "Location" ≡ some location
      → location ≡ to
  unfolding redirect with_header
  redirect-Location to location h =
      ground (arith, get-put (Dict.empty {V = String}) "Location" to "Location")

  to_error_uri-Location :
      (e : AuthorizeError) (found : Option Parsed) (location : String)
      → Dict.get (to_error_uri e found).headers "Location" ≡ some location
      → (uri : Parsed) × (found ≡ some uri) × (location ≡ uri.render (error_query e uri.query))
  unfolding Dict.get Dict.empty
  to_error_uri-Location e none location h = cc
  to_error_uri-Location e (some uri) location h =
      (uri, refl, redirect-Location (uri.render (error_query e uri.query)) location h)

  to_code_uri-Location :
      (res : AuthorizeResult) (found : Option Parsed) (location : String)
      → Dict.get (to_code_uri res found).headers "Location" ≡ some location
      → (uri : Parsed) × (found ≡ some uri) × (location ≡ uri.render (code_query res uri.query))
  unfolding Dict.get Dict.empty
  to_code_uri-Location res none location h = cc
  to_code_uri-Location res (some uri) location h =
      (uri, refl, redirect-Location (uri.render (code_query res uri.query)) location h)

  error_location :
      (e : Option AuthorizeError) (location : String)
      → Dict.get (authorize_error_response parse e).headers "Location" ≡ some location
      → (a : AuthorizeError) × (uri : Parsed) × (e ≡ some a)
        × (a.redirect_uri ≢ "")
        × (parse a.redirect_uri ≡ some uri)
        × (location ≡ uri.render (error_query a uri.query))
  unfolding authorize_error_response Dict.get Dict.empty
  error_location none location h = cc
  error_location (some e) location h = elim (Bool-cases (e.redirect_uri == "")) [
    | inl p ↦ cc (rw p at h)
    | inr n ↦
        let (uri, parsed, led) =
          to_error_uri-Location e (parse e.redirect_uri) location (rw n at h) in
        (e, uri, refl, ne-of-== e.redirect_uri "" n, parsed, led)
  ]

  result_location :
      (req : AuthorizeRequest) (w w' : World) (result : Result AuthorizeResult) (location : String)
      → authorize_request ext req w ≡ (result, w')
      → Dict.get (authorize_result_response parse result).headers "Location" ≡ some location
      → IsOwnLocation req.client_id req.redirect_uri w location
  unfolding authorize_result_response
  result_location req w w' (ok res) location answered h =
      let issued = authorize_request-IsAuthorized ext req w w' res answered in
      let (uri, parsed, led) = to_code_uri-Location res (parse res.redirect_uri) location h in
      inr (
        issued.client,
        uri,
        code_query res uri.query,
        issued.registered,
        issued.redirect,
        rw (sym issued.target) parsed,
        led,
      )
  result_location req w w' (err e) location answered h =
      let (a, uri, carried, sent, parsed, led) = error_location (as_authorize e) location h in
      elim (authorize_request-IsSafeTarget ext req w w' e a answered carried).1 [
        | inl empty ↦ absurd (sent empty)
        | inr (client, registered, listed, same, state) ↦ inr (
          client,
          uri,
          error_query a uri.query,
          registered,
          rw (sym same) listed,
          rw (sym same) parsed,
          led,
        )
      ]

  user_location :
      (r : HttpRequest) (data_of : SessionData) (v : Visit) (location : String)
      → Dict.get (authorize_user ext parse r data_of v).0.headers "Location" ≡ some location
      → IsOwnLocation
          (get_value r.query "client_id")
          (get_value r.query "redirect_uri")
          v.world
          location
  unfolding authorize_user authorize_request_of
  user_location r data_of v location h =
      let answer = authorize_request ext (authorize_request_of r data_of) v.world in
      result_location (authorize_request_of r data_of) v.world answer.1 answer.0 location refl h

  -- Whatever the handler answers, a redirect leads to the login page or to the redirect URI of the
  -- request, with a query of the handler's, where that URI is one that the client of the request
  -- has registered.
  pub authorize_handler-IsOwnLocation :
      (r : HttpRequest) (v : Visit) (location : String)
      → Dict.get (authorize_handler ext parse r v).0.headers "Location" ≡ some location
      → IsOwnLocation
          (get_value r.query "client_id")
          (get_value r.query "redirect_uri")
          v.world
          location
  unfolding authorize_handler Dict.get Dict.empty authorize_user authorize_request_of
  authorize_handler-IsOwnLocation r v location h =
      let data_of = read_session_data v.session in
      let checked = get_authorize_session_check data_of in
      elim (Bool-cases r.starts) [
        | inl p ↦ elim (Bool-cases checked.1) [
          | inl q ↦ inl (redirect-Location "/login" location (rw (p, q) at h))
          | inr q ↦
              user_location r (record data_of { logged_in_user_id = checked.0 }) v location
                (rw (p, q) at h)
        ]
        | inr p ↦ cc (rw p at h)
      ]
