-- ===== src/Router.antt =====
-- internal/router/router.go: the routes with their handlers. What gin does of itself, the redirect of
-- a path with a slash too many or too few and the recovery from a panic, is not modelled.
pub mod Setup
use text.Mathlib.Text.{starts_with}
use oauth_2_0_and_open_id_co.Handler.Logout.{logout_handler}
use oauth_2_0_and_open_id_co.Handler.Bearer.{
  token_test_handler, jwks_handler, discovery_handler, user_info_handler,
}
use oauth_2_0_and_open_id_co.Handler.Token.{revoke_handler, token_handler}
use oauth_2_0_and_open_id_co.Handler.Authorize.{authorize_handler}
use oauth_2_0_and_open_id_co.Middleware.{cors, rate_limit}
use oauth_2_0_and_open_id_co.Handler.Session.{is_get, auth_handler, login_handler}
use oauth_2_0_and_open_id_co.Limiter.{RateLimiter}
use oauth_2_0_and_open_id_co.Dict.Assoc.{lookup}
use oauth_2_0_and_open_id_co.Model.{UserStore}
use oauth_2_0_and_open_id_co.Uri.{ParseUri}
use oauth_2_0_and_open_id_co.Time.{minute, Duration}
use oauth_2_0_and_open_id_co.External.{External}
use oauth_2_0_and_open_id_co.Server.{World}
use oauth_2_0_and_open_id_co.Oidc.{JwksBuilder, AppConfig}
use oauth_2_0_and_open_id_co.Http.{redirect, HttpRequest, Answer, Visit, Response, Method}
use oauth_2_0_and_open_id_co.Base.{
  concat, ◌==◌, ◌&&◌, if◌then◌else◌, suc, some, false, none, true, [], Bool, Option, ◌∷◌, String,
  List, ◌*◌, ℕ,
}

pub data Route : Type 0 where
  root login auth authorize token revoke user_info discovery jwks token_test logout : Route

pub record RouterConfig : Type 0 where
  pub token_rate_limit : ℕ
  pub token_rate_window : Duration
  pub web_dist_dir : String

unfoldable pub default_config : RouterConfig
default_config = record {
  token_rate_limit = 10;
  token_rate_window = 1 * minute;
  web_dist_dir = "./web/dist";
}

-- The GET routes of Setup.
abbrev pub get_routes : List (String × Route)
get_routes =
    ("/", root)
    ∷ ("/api/login", login)
    ∷ ("/api/auth", auth)
    ∷ ("/oauth/authorize", authorize)
    ∷ ("/userinfo", user_info)
    ∷ ("/.well-known/openid-configuration", discovery)
    ∷ ("/.well-known/jwks.json", jwks)
    ∷ ("/api/test", token_test)
    ∷ ("/logout", logout)
    ∷ []

-- The POST routes of Setup.
abbrev pub post_routes : List (String × Route)
post_routes =
    ("/api/login", login)
    ∷ ("/api/auth", auth)
    ∷ ("/oauth/authorize", authorize)
    ∷ ("/oauth/token", token)
    ∷ ("/oauth/revoke", revoke)
    ∷ ("/userinfo", user_info)
    ∷ []

unfoldable pub find_route : Method → String → Option Route
find_route Method.get path = lookup path get_routes
find_route Method.post path = lookup path post_routes
find_route Method.options path = none

-- The handlers of other packages: swagger's at a path, a directory's files at a path, one file, and
-- gin's answer where there is no handler.
pub record WebFiles : Type 0 where
  pub swagger : String → Response
  pub static : String → String → Response
  pub file : String → Response
  pub not_found : Response

-- What the handlers are built from.
pub record Site : Type 0 where
  pub web : WebFiles
  pub web_dist_dir : String
  pub config : AppConfig
  pub jwks_builder : JwksBuilder
  pub users : UserStore

-- A handler that looks at the server only.
abbrev pub on_world : (World → Response × World) → Visit → Answer
on_world f v = ((f v.world).0, record v { world = (f v.world).1 })

-- What the routes after the handlers' answer: the files of swagger, the assets, and the web client.
-- engine.Static and c.File serve HEAD requests too, which no `Method` is.
unfoldable pub static_response : WebFiles → String → Method → String → Response
static_response web dist_dir method path =
    if is_get method && starts_with path "/swagger/"
    then web.swagger path
    else if dist_dir == ""
    then web.not_found
    else if is_get method && starts_with path "/assets/"
    then web.static (concat (dist_dir ∷ "/assets" ∷ [])) path
    else web.file (concat (dist_dir ∷ "/index.html" ∷ []))

abbrev pub is_token : Route → Bool
is_token token = true
is_token _ = false

module _ (ext : External) (parse : ParseUri) (site : Site) where
  unfoldable pub run_route : Route → HttpRequest → Visit → Answer
  run_route root r v = (redirect "/login", v)
  run_route login r v = login_handler ext site.users r v
  run_route auth r v = auth_handler parse r v
  run_route authorize r v = authorize_handler ext parse r v
  run_route token r v = on_world (token_handler ext r) v
  run_route revoke r v = on_world (revoke_handler ext r) v
  run_route user_info r v = on_world (user_info_handler ext site.users r) v
  run_route discovery r v = (discovery_handler site.config, v)
  run_route jwks r v = (jwks_handler site.jwks_builder, v)
  run_route token_test r v = on_world (token_test_handler ext r) v
  run_route logout r v = logout_handler r v

  -- A route without a middleware of its own.
  abbrev pub unlimited : (Visit → Answer) → RateLimiter × Visit → Response × (RateLimiter × Visit)
  unlimited f (rl, v) = ((f v).0, (rl, (f v).1))

  -- The token route with its rate limit, which reads the clock.
  unfoldable pub limited : HttpRequest → RateLimiter × Visit → Response × (RateLimiter × Visit)
  limited r (rl, v) =
      rate_limit (ext.now v.world.clock) r.client_ip (run_route token r)
        (rl, record v { world = record v.world { clock = suc v.world.clock } })

  unfoldable pub run_found :
      Option Route → HttpRequest → RateLimiter × Visit → Response × (RateLimiter × Visit)
  run_found none r s = (static_response site.web site.web_dist_dir r.method r.path, s)
  run_found (some route) r s =
      if is_token route then limited r s else unlimited (run_route route r) s

  -- A request through CORS to its route.
  unfoldable pub serve_request :
      HttpRequest → RateLimiter × Visit → Response × (RateLimiter × Visit)
  serve_request r s = cors r (run_found (find_route r.method r.path) r) s
