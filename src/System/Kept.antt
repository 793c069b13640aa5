-- ===== src/System/Kept.antt =====
-- A request changes the world only as the endpoints of the server do: what they keep, and what does
-- not depend on the clock, every request keeps.
use oauth_2_0_and_open_id_co.Bearer.{validate_bearer_token, revoke_token}
use oauth_2_0_and_open_id_co.Grant.{token}
use oauth_2_0_and_open_id_co.Grant.Info.{TokenRequest}
use oauth_2_0_and_open_id_co.Server.{World, validate_client}
use oauth_2_0_and_open_id_co.Handler.{read_session_data, request_client}
use oauth_2_0_and_open_id_co.Service.Session.{get_authorize_session_check}
use oauth_2_0_and_open_id_co.Limiter.{allow, RateLimiter}
use oauth_2_0_and_open_id_co.Handler.Logout.{logout_handler}
use oauth_2_0_and_open_id_co.Middleware.{is_options, rate_limit, cors}
use oauth_2_0_and_open_id_co.Model.{UserStore}
use oauth_2_0_and_open_id_co.Action.Frame.{keeps_rules, Keeps}
use oauth_2_0_and_open_id_co.Handler.Bearer.{token_test_handler, user_info_handler}
use oauth_2_0_and_open_id_co.Service.{authenticate, process_token, get_user_info, validate_bearer}
use oauth_2_0_and_open_id_co.Handler.Token.{
  token_request, revoke_handler, token_handler, run_revoke, run_token,
}
use oauth_2_0_and_open_id_co.Handler.Session.{
  bind_login, is_get, login_user, auth_handler, login_handler, login_bound,
}
use oauth_2_0_and_open_id_co.Handler.Authorize.{authorize_user, authorize_handler}
use oauth_2_0_and_open_id_co.Http.{LoginRequest, HttpRequest, Answer, Visit}
use oauth_2_0_and_open_id_co.Router.{
  is_token, find_route, Route, on_world, limited, serve_request, run_found, run_route, Site,
}
use oauth_2_0_and_open_id_co.Uri.{get_value, ParseUri}
use oauth_2_0_and_open_id_co.External.{External}
use oauth_2_0_and_open_id_co.Base.{
  none, suc, inr, Option-cases, ◌==◌, some, inl, arith, Option, Bool-cases, String,
}
use oauth_2_0_and_open_id_co.Authorize.{authorize_request, AuthorizeRequest}

module _ (ext : External) (P : World → Type 0)
    (authorizes : (req : AuthorizeRequest) → Keeps P (authorize_request ext req))
    (grants : (req : TokenRequest) → Keeps P (token ext req))
    (revokes : (text hint client_id : String) → Keeps P (revoke_token ext text hint client_id))
    (validates : (header : String) → Keeps P (validate_bearer_token ext header))
    (ticks : (w : World) → P w → P (record w { clock = suc w.clock })) (parse : ParseUri)
    (site : Site) where
  -- A handler keeps what holds of the world.
  abbrev IsKept : (Visit → Answer) → Type 0
  IsKept f = (v : Visit) → P v.world → P (f v).1.world

  authorize_handler-IsKept : (r : HttpRequest) → IsKept (authorize_handler ext parse r)
  unfolding authorize_handler authorize_user
  authorize_handler-IsKept r v h = elim (Bool-cases r.starts) [
    | inl p ↦ elim (Bool-cases (get_authorize_session_check (read_session_data v.session)).1) [
      | inl q ↦ rw (p, q) h
      | inr q ↦ rw (p, q) ((authorizes _).at v.world h)
    ]
    | inr p ↦ rw p h
  ]

  login_bound-IsKept : (o : Option LoginRequest) → IsKept (login_bound ext site.users o)
  unfolding login_bound login_user
  login_bound-IsKept none v h = h
  login_bound-IsKept (some req) v h =
      elim (Option-cases (authenticate ext site.users req.username req.password)) [
        | inl p ↦ rw p h
        | inr (user_id, p) ↦ rw p (ticks v.world h)
      ]

  login_handler-IsKept : (r : HttpRequest) → IsKept (login_handler ext site.users r)
  unfolding login_handler
  login_handler-IsKept r v h = elim (Bool-cases r.starts) [
    | inl p ↦ elim (Bool-cases (is_get r.method)) [
      | inl q ↦ rw (p, q) h
      | inr q ↦ rw (p, q) (login_bound-IsKept (bind_login r.login_json) v h)
    ]
    | inr p ↦ rw p h
  ]

  auth_handler-IsKept : (r : HttpRequest) → IsKept (auth_handler parse r)
  unfolding auth_handler
  auth_handler-IsKept r v h = ground arith

  token_handler-IsKept :
      (r : HttpRequest) (o : Option (String × String)) → IsKept (on_world (run_token ext r o))
  unfolding run_token process_token
  token_handler-IsKept r none v h = h
  token_handler-IsKept r (some (id, secret)) v h = (grants (token_request r id secret)).at v.world h

  revoke_handler-IsKept :
      (r : HttpRequest) (o : Option (String × String)) → IsKept (on_world (run_revoke ext r o))
  unfolding run_revoke
  revoke_handler-IsKept r none v h = h
  revoke_handler-IsKept r (some (id, secret)) v h =
      let token = get_value r.form "token" in
      let kept = (revokes token (get_value r.form "token_type_hint") id).at v.world h in
      elim (Bool-cases (validate_client v.world.server id secret)) [
        | inl p ↦ elim (Bool-cases (token == "")) [ inl q ↦ rw (p, q) h | inr q ↦ rw (p, q) kept ]
        | inr p ↦ rw p h
      ]

  Keeps-validate_bearer : (header : String) → Keeps P (validate_bearer ext header)
  unfolding validate_bearer
  Keeps-validate_bearer header = record { at = λ w h. (validates header).at w h }

  Keeps-get_user_info :
      (users : UserStore) (header : String) → Keeps P (get_user_info ext users header)
  unfolding get_user_info
  Keeps-get_user_info users header = search (keeps_rules, Keeps-validate_bearer) depth 30

  user_info_handler-IsKept :
      (r : HttpRequest) → IsKept (on_world (user_info_handler ext site.users r))
  unfolding user_info_handler
  user_info_handler-IsKept r v h = elim (Bool-cases (r.authorization == "")) [
    | inl p ↦ rw p h
    | inr p ↦ rw p ((Keeps-get_user_info site.users r.authorization).at v.world h)
  ]

  token_test_handler-IsKept : (r : HttpRequest) → IsKept (on_world (token_test_handler ext r))
  unfolding token_test_handler
  token_test_handler-IsKept r v h = elim (Bool-cases (r.authorization == "")) [
    | inl p ↦ rw p h
    | inr p ↦ rw p ((Keeps-validate_bearer r.authorization).at v.world h)
  ]

  run_route-IsKept : (route : Route) (r : HttpRequest) → IsKept (run_route ext parse site route r)
  unfolding run_route token_handler revoke_handler logout_handler
  run_route-IsKept Route.root r v h = h
  run_route-IsKept Route.login r v h = login_handler-IsKept r v h
  run_route-IsKept Route.auth r v h = auth_handler-IsKept r v h
  run_route-IsKept Route.authorize r v h = authorize_handler-IsKept r v h
  run_route-IsKept Route.token r v h = token_handler-IsKept r (request_client r) v h
  run_route-IsKept Route.revoke r v h = revoke_handler-IsKept r (request_client r) v h
  run_route-IsKept Route.user_info r v h = user_info_handler-IsKept r v h
  run_route-IsKept Route.discovery r v h = h
  run_route-IsKept Route.jwks r v h = h
  run_route-IsKept Route.token_test r v h = token_test_handler-IsKept r v h
  run_route-IsKept Route.logout r v h = h

  limited-IsKept :
      (r : HttpRequest) (s : RateLimiter × Visit)
      → P s.1.world
      → P (limited ext parse site r s).1.1.world
  unfolding limited rate_limit
  limited-IsKept r (rl, v) h =
      let later : Visit = record v { world = record v.world { clock = suc v.world.clock } } in
      elim (Bool-cases (allow rl (ext.now v.world.clock) r.client_ip).0) [
        | inl p ↦ rw p (run_route-IsKept Route.token r later (ticks v.world h))
        | inr p ↦ rw p (ticks v.world h)
      ]

  run_found-IsKept :
      (o : Option Route) (r : HttpRequest) (s : RateLimiter × Visit)
      → P s.1.world
      → P (run_found ext parse site o r s).1.1.world
  unfolding run_found
  run_found-IsKept none r s h = h
  run_found-IsKept (some route) r s h = elim (Bool-cases (is_token route)) [
    | inl p ↦ rw p (limited-IsKept r s h)
    | inr p ↦ rw p (run_route-IsKept route r s.1 h)
  ]

  pub serve_request-IsKept :
      (r : HttpRequest) (s : RateLimiter × Visit)
      → P s.1.world
      → P (serve_request ext parse site r s).1.1.world
  unfolding serve_request cors
  serve_request-IsKept r s h = elim (Bool-cases (is_options r.method)) [
    | inl p ↦ rw p h
    | inr p ↦ rw p (run_found-IsKept (find_route r.method r.path) r s h)
  ]
