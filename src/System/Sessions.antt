-- ===== src/System/Sessions.antt =====
-- Who a session is logged in as: which requests change it, and what a logout does.
use oauth_2_0_and_open_id_co.Limiter.{allow, RateLimiter}
use oauth_2_0_and_open_id_co.Middleware.{is_options, cors, rate_limit}
use oauth_2_0_and_open_id_co.Service.Session.{process_logout}
use oauth_2_0_and_open_id_co.Handler.Logout.{logout_session, logout_handler, delete_keys}
use oauth_2_0_and_open_id_co.Handler.Authorize.{authorize_user, authorize_handler}
use oauth_2_0_and_open_id_co.Dict
use oauth_2_0_and_open_id_co.Handler.{as_string}
use oauth_2_0_and_open_id_co.Service.{authenticate}
use oauth_2_0_and_open_id_co.Base.{
  true, sym, Bool-cases, none, arith, ◌∙◌, ap, Option, refl, inr, inl, some, ℕ, ◌⊎◌, String, ◌≡◌,
}
use oauth_2_0_and_open_id_co.Handler.Authorize.Login.{authorize_handler_login, user_of}
use oauth_2_0_and_open_id_co.Dict.{get-delete, get-put, Dict}
use oauth_2_0_and_open_id_co.Handler.Session.{
  is_get, auth_handler, login_handler, bind_login, login_user, login_bound, logged_in,
}
use oauth_2_0_and_open_id_co.Http.{
  redirect, int64, str, LoginRequest, SessionValue, Visit, HttpRequest,
}
use oauth_2_0_and_open_id_co.Router.{
  find_route, is_token, Route, serve_request, run_found, limited, run_route, Site,
}
use oauth_2_0_and_open_id_co.Uri.{ParseUri}
use oauth_2_0_and_open_id_co.External.{External}

module _ (ext : External) (parse : ParseUri) (site : Site) where
  -- The user of the second session is that of the first, or nobody, or the user whose name and
  -- password the request gives, by the hash of bcrypt.
  abbrev pub IsSameUser : HttpRequest → Visit → Visit → Type 0
  IsSameUser r v v' =
      (user_of v' ≡ user_of v)
      ⊎ (user_of v' ≡ "")
      ⊎ ((req : LoginRequest) × (r.login_json ≡ some req)
          × (authenticate ext site.users req.username req.password ≡ some (user_of v')))

  logged_in_lem :
      (sess : Dict SessionValue) (user_id username : String) (now : ℕ)
      → as_string (Dict.get (logged_in sess user_id username now) "LoggedInUserID") ≡ user_id
  unfolding logged_in
  logged_in_lem sess user_id username now =
      let first = Dict.put sess "LoggedInUserID" (str user_id) in
      let second = Dict.put first "LoggedInUsername" (str username) in
      ap as_string (
        get-put second "AuthTime" (int64 now) "LoggedInUserID"
        ∙ get-put first "LoggedInUsername" (str username) "LoggedInUserID"
        ∙ get-put sess "LoggedInUserID" (str user_id) "LoggedInUserID")

  login_user-IsSameUser :
      (r : HttpRequest) (req : LoginRequest) (v : Visit) (o : Option String)
      → r.login_json ≡ some req
      → authenticate ext site.users req.username req.password ≡ o
      → IsSameUser r v (login_user ext site.users req v o).1
  unfolding login_user
  login_user-IsSameUser r req v none h a = inl refl
  login_user-IsSameUser r req v (some user_id) h a =
      inr (inr (req, h, a ∙ ap some (sym (logged_in_lem v.session user_id req.username _))))

  bound_login :
      (o : Option LoginRequest) (req : LoginRequest) → bind_login o ≡ some req → o ≡ some req
  unfolding bind_login
  bound_login none req h = cc
  bound_login (some given) req h = ground arith

  login_bound-IsSameUser :
      (r : HttpRequest) (v : Visit) (o : Option LoginRequest)
      → bind_login r.login_json ≡ o
      → IsSameUser r v (login_bound ext site.users o v).1
  unfolding login_bound
  login_bound-IsSameUser r v none h = inl refl
  login_bound-IsSameUser r v (some req) h =
      login_user-IsSameUser r req v _ (bound_login r.login_json req h) refl

  login_handler-IsSameUser :
      (r : HttpRequest) (v : Visit) → IsSameUser r v (login_handler ext site.users r v).1
  unfolding login_handler
  login_handler-IsSameUser r v = elim (Bool-cases r.starts) [
    | inl p ↦ elim (Bool-cases (is_get r.method)) [
      | inl q ↦ rw (p, q) (inl refl)
      | inr q ↦ rw (p, q) (login_bound-IsSameUser r v (bind_login r.login_json) refl)
    ]
    | inr p ↦ rw p (inl refl)
  ]

  authorize_handler-user :
      (r : HttpRequest) (v : Visit) → user_of (authorize_handler ext parse r v).1 ≡ user_of v
  unfolding authorize_handler authorize_user
  authorize_handler-user r v =
      let returning = get-put v.session "ReturnURI" (str r.request_uri) "LoggedInUserID" in
      ground (arith, returning)

  auth_handler-user : (r : HttpRequest) (v : Visit) → user_of (auth_handler parse r v).1 ≡ user_of v
  unfolding auth_handler
  auth_handler-user r v = ground arith

-- After the keys of a logout are deleted, the session has no user.
logged_out :
    (sess : Dict SessionValue)
    → as_string (Dict.get (delete_keys sess process_logout) "LoggedInUserID") ≡ ""
unfolding delete_keys
logged_out sess =
    let first = Dict.delete sess "LoggedInUserID" in
    let second = Dict.delete first "LoggedInUsername" in
    let third = Dict.delete second "ReturnURI" in
    ap as_string (
      get-delete third "Nonce" "LoggedInUserID"
      ∙ get-delete second "ReturnURI" "LoggedInUserID"
      ∙ get-delete first "LoggedInUsername" "LoggedInUserID"
      ∙ get-delete sess "LoggedInUserID" "LoggedInUserID")

logout_handler-user :
    (r : HttpRequest) (v : Visit) → r.starts ≡ true → user_of (logout_handler r v).1 ≡ ""
unfolding logout_handler logout_session
logout_handler-user r v p = rw p (logged_out v.session)

module _ (ext : External) (parse : ParseUri) (site : Site) where
  abbrev IsSame : HttpRequest → Visit → Visit → Type 0
  IsSame = IsSameUser ext parse site

  logout_handler-IsSame : (r : HttpRequest) (v : Visit) → IsSame r v (logout_handler r v).1
  unfolding logout_handler logout_session
  logout_handler-IsSame r v = elim (Bool-cases r.starts) [
    | inl p ↦ inr (inl (rw p (logged_out v.session)))
    | inr p ↦ inl (rw p refl)
  ]

  run_route-IsSame :
      (route : Route) (r : HttpRequest) (v : Visit)
      → IsSame r v (run_route ext parse site route r v).1
  unfolding run_route
  run_route-IsSame Route.root r v = inl refl
  run_route-IsSame Route.login r v = login_handler-IsSameUser ext parse site r v
  run_route-IsSame Route.auth r v = inl (auth_handler-user ext parse site r v)
  run_route-IsSame Route.authorize r v = inl (authorize_handler-user ext parse site r v)
  run_route-IsSame Route.token r v = inl refl
  run_route-IsSame Route.revoke r v = inl refl
  run_route-IsSame Route.user_info r v = inl refl
  run_route-IsSame Route.discovery r v = inl refl
  run_route-IsSame Route.jwks r v = inl refl
  run_route-IsSame Route.token_test r v = inl refl
  run_route-IsSame Route.logout r v = logout_handler-IsSame r v

  limited-IsSame :
      (r : HttpRequest) (s : RateLimiter × Visit) → IsSame r s.1 (limited ext parse site r s).1.1
  unfolding limited rate_limit run_route
  limited-IsSame r (rl, v) = elim (Bool-cases (allow rl (ext.now v.world.clock) r.client_ip).0) [
    | inl p ↦ inl (rw p refl)
    | inr p ↦ inl (rw p refl)
  ]

  run_found-IsSame :
      (o : Option Route) (r : HttpRequest) (s : RateLimiter × Visit)
      → IsSame r s.1 (run_found ext parse site o r s).1.1
  unfolding run_found
  run_found-IsSame none r s = inl refl
  run_found-IsSame (some route) r s = elim (Bool-cases (is_token route)) [
    | inl p ↦ rw p (limited-IsSame r s)
    | inr p ↦ rw p (run_route-IsSame route r s.1)
  ]

  -- Whatever a request does, by whatever route, the user of its session is afterwards the same, or
  -- nobody, or the user of the name and password that the request gives and that bcrypt accepts.
  pub serve_request-IsSameUser :
      (r : HttpRequest) (s : RateLimiter × Visit)
      → IsSameUser ext parse site r s.1 (serve_request ext parse site r s).1.1
  unfolding serve_request cors
  serve_request-IsSameUser r s = elim (Bool-cases (is_options r.method)) [
    | inl p ↦ inl (rw p refl)
    | inr p ↦ rw p (run_found-IsSame (find_route r.method r.path) r s)
  ]

module _ (ext : External) (parse : ParseUri) where
  -- After a logout for which session.Start delivers the session, the authorization endpoint answers the
  -- next request of the browser for which it delivers the session with the login page, and issues no
  -- code.
  pub logout_handler-login :
      (r next : HttpRequest) (v : Visit)
      → r.starts ≡ true
      → next.starts ≡ true
      → ((authorize_handler ext parse next (logout_handler r v).1).0 ≡ redirect "/login")
        × ((authorize_handler ext parse next (logout_handler r v).1).1.world ≡ v.world)
  unfolding logout_handler
  logout_handler-login r next v here there =
      let out = logout_handler-user r v here in
      let asked = authorize_handler_login ext parse next (logout_handler r v).1 there out in
      (ap (λ a. a.0) asked, ap (λ a. a.1.world) asked)
