-- ===== src/Tests/Services.antt =====
-- The theorems on the services and the rate limiter, at concrete inputs.
use oauth_2_0_and_open_id_co.Uri.{ParseUri}
use oauth_2_0_and_open_id_co.Uri.{get_value}
use oauth_2_0_and_open_id_co.Service.Session.{SessionData}
use oauth_2_0_and_open_id_co.Grant.Issue.{IsIssued}
use oauth_2_0_and_open_id_co.Service.Login.{grant_password-IsUser}
use oauth_2_0_and_open_id_co.Action.{ok}
use oauth_2_0_and_open_id_co.Time.{add, Time}
use oauth_2_0_and_open_id_co.Limiter.Window.{
  passed-eq, asked, at_most, cleans_up, Event, requests, passed, IsUntil, IsNew,
}
use oauth_2_0_and_open_id_co.Base.{
  none, ◌==◌, if◌then◌else◌, ◌-◌, [], String, suc, true, refl, ◌∷◌, arith, some, ◌≡◌, false, List,
}
use oauth_2_0_and_open_id_co.Limiter.{new_rate_limiter, RateLimiter}
use oauth_2_0_and_open_id_co.Grant.{grant_password, TokenRequest}
use oauth_2_0_and_open_id_co.Service.UserInfo.{get_user_info-IsDisclosed, IsDisclosed}
use oauth_2_0_and_open_id_co.Server.{set_password_auth_handler, validate_client, World}
use oauth_2_0_and_open_id_co.Service.{
  check_password, user_info, setup_password_auth, validate_bearer, extract_oauth_error,
  authenticate, get_user_info, UserInfoResponse,
}
use oauth_2_0_and_open_id_co.Tests.Runs.{answered, signed_world, read_req, running}
use oauth_2_0_and_open_id_co.Model.{User, UserStore}
use oauth_2_0_and_open_id_co.Tests.Sample.{ext, server, world}
use oauth_2_0_and_open_id_co.Model
use oauth_2_0_and_open_id_co.Dict

abbrev users : UserStore
users = Model.new_user_store (λ p. p)

abbrev admin : User
admin = record {
  id = "1";
  username = "admin";
  password = "admin";
  email = "admin@example.com";
  name = "Admin User";
  avatar = "";
}

serving : Unit {0}
unfolding running Model.new_user_store Model.set Model.get_by_id Model.get_by_username Dict.empty
    get_user_info validate_bearer user_info authenticate check_password setup_password_auth
    set_password_auth_handler new_rate_limiter
serving = tt

abbrev disclosed : UserInfoResponse
disclosed = record { sub = "1"; name = ""; email = ""; email_verified = false }

abbrev after_info : World
after_info = (get_user_info ext users "Bearer jwt" signed_world).1

info_run : get_user_info ext users "Bearer jwt" signed_world ≡ (ok disclosed, after_info)
unfolding serving
info_run = refl

get_user_info-IsDisclosed_example : IsDisclosed ext users "Bearer jwt" signed_world disclosed
get_user_info-IsDisclosed_example =
    get_user_info-IsDisclosed ext users "Bearer jwt" signed_world after_info disclosed info_run

abbrev demo_world : World
demo_world = record world { server = setup_password_auth ext users server }

abbrev demo_req : TokenRequest
demo_req = record read_req { password = "admin" }

abbrev after_demo : World
after_demo = (grant_password ext demo_req demo_world).1

demo_run : grant_password ext demo_req demo_world ≡ (ok (answered "ACAA" "read"), after_demo)
unfolding serving
demo_run = refl

grant_password-IsUser_example :
    (user : User) × (Model.get_by_username users "admin" ≡ some user)
    × (ext.compare_hash_and_password user.password "admin" ≡ true)
    × ((scope : String) × (before : World) × IsIssued ext "app" user.id scope before after_demo
          (answered "ACAA" "read"))
grant_password-IsUser_example =
    grant_password-IsUser ext users server demo_req demo_world after_demo (answered "ACAA" "read")
      refl demo_run

wrong_is_refused : validate_client server "app" "guess" ≡ false
unfolding serving
wrong_is_refused = refl

-- An internal failure of the random source is reported as an invalid request.
server_error_run :
    extract_oauth_error "server_error: failed to generate refresh token: no entropy"
    ≡ "invalid_request"
unfolding extract_oauth_error native.Mathlib.Decide.ℕ_discrete
server_error_run = refl

abbrev limiter : RateLimiter
limiter = new_rate_limiter 2 60

abbrev visits : List (Time × Event)
visits = (11, requests "b") ∷ (12, requests "a") ∷ (13, cleans_up) ∷ (14, requests "a") ∷ []

visitor-IsNew : IsNew limiter 10 "a"
unfolding serving
visitor-IsNew = refl

visits-IsUntil : IsUntil (add 10 limiter.window) visits
unfolding serving
visits-IsUntil = ground arith

passed-eq_example :
    passed "a" limiter ((10, requests "a") ∷ visits)
    ≡ suc (at_most (asked "a" visits) (limiter.limit - 1))
passed-eq_example = passed-eq limiter 10 "a" visits visitor-IsNew visits-IsUntil

-- A URI package that knows one URI and prints no query.
abbrev parse : ParseUri
parse s = if s == "/go" then some (record { query = Dict.empty; render = λ q. "/go?" }) else none

abbrev session : SessionData
session = record {
  logged_in_user_id = "1";
  logged_in_username = "admin";
  return_uri = "/go";
  auth_time = 0;
}

no_state : get_value (Dict.empty {V = List String}) "state" ≡ ""
unfolding serving get_value
no_state = refl
