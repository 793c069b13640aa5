-- ===== src/Tests/Requests.antt =====
-- The theorems on the authorization endpoint, the bearer check and revocation, at the requests of
-- Tests/Sample.
use oauth_2_0_and_open_id_co.Authorize.Complete.{authorize_request_complete}
use oauth_2_0_and_open_id_co.Bearer.Effect.{revoke_token_wrong_hint, revoke_token-IsDone}
use oauth_2_0_and_open_id_co.Encoding.{raw_url_encode}
use oauth_2_0_and_open_id_co.Action.{err, ok}
use oauth_2_0_and_open_id_co.Store.{token_expiry}
use oauth_2_0_and_open_id_co.Expiry.Laws.{view}
use oauth_2_0_and_open_id_co.Scope.Laws.{Grants}
use oauth_2_0_and_open_id_co.Base.{ne-of-==, [], ◌∷◌, arith, inl, refl, none, inr, some, ◌≡◌}
use oauth_2_0_and_open_id_co.Tests.Sample.{access, other, client, authorize_req, world, ext}
use oauth_2_0_and_open_id_co.Dict
use oauth_2_0_and_open_id_co.Store
use oauth_2_0_and_open_id_co.Bearer.{bearer_of, validate_bearer_token, revoke_token}
use oauth_2_0_and_open_id_co.Bearer.Revoke.{revoke_token-IsKept, IsUnlinked, IsKept}
use oauth_2_0_and_open_id_co.Bearer.Validate.{validate_bearer_token-IsBearer, IsBearer}
use oauth_2_0_and_open_id_co.Tests.Runs.{
  bearer_run, authorized, signed_world, authorize_run, running,
}
use oauth_2_0_and_open_id_co.Errors.{
  authorize, err_unsupported_response_type, as_authorize, AuthorizeError,
}
use oauth_2_0_and_open_id_co.Authorize.{authorize_request, AuthorizeRequest}
use oauth_2_0_and_open_id_co.Authorize.Safety.{authorize_request-IsAuthorized, IsAuthorized}
use oauth_2_0_and_open_id_co.Server.{World}

abbrev after_request : World
after_request = (authorize_request ext authorize_req world).1

authorize_request-IsAuthorized_example :
    IsAuthorized ext authorize_req world after_request authorized
authorize_request-IsAuthorized_example =
    authorize_request-IsAuthorized ext authorize_req world after_request authorized authorize_run

-- The sample's request for the implicit flow.
abbrev implicit_req : AuthorizeRequest
implicit_req = record authorize_req { response_type = "token" }

abbrev unsupported : AuthorizeError
unsupported = record {
  oauth_error =
      err_unsupported_response_type "token (implicit and hybrid flows are removed per OAuth 2.1)";
  redirect_uri = "https://app/cb";
  state = "xyz";
}

implicit_run : authorize_request ext implicit_req world ≡ (err (authorize unsupported), world)
unfolding running
implicit_run = refl

is_authorize : as_authorize (authorize unsupported) ≡ some unsupported
unfolding as_authorize
is_authorize = refl

sample_is_known : Store.get_by_id world.clients "app" ≡ some client
unfolding running
sample_is_known = refl

pub sample-Grants : Grants client "openid read" "openid read"
unfolding running
sample-Grants = inr (
    inr ((λ e. cc e), ne-of-== "openid read" "" refl, (inl refl, (inr (inr (inl refl)), tt)), refl))

authorize_request_complete_example :
    (w : World) × (authorize_request ext authorize_req world ≡ (
      ok (record {
        redirect_uri = "https://app/cb";
        code = raw_url_encode (0 ∷ 24 ∷ 0 ∷ []);
        state = "xyz";
      }),
      w,
    ))
authorize_request_complete_example =
    authorize_request_complete ext authorize_req client world "openid read" (0 ∷ 24 ∷ 0 ∷ [])
      sample_is_known (ne-of-== "https://app/cb" "" refl) (inl refl) sample-Grants
      (ne-of-== "dg" "" refl) refl refl refl

abbrev after_bearer : World
after_bearer = (validate_bearer_token ext "Bearer jwt" signed_world).1

validate_bearer_token-IsBearer_example : IsBearer ext "Bearer jwt" signed_world access
validate_bearer_token-IsBearer_example =
    validate_bearer_token-IsBearer ext "Bearer jwt" signed_world after_bearer access bearer_run

jwt_is_gone : Dict.get world.tokens.access_tokens (bearer_of "Bearer jwt") ≡ none
unfolding running
jwt_is_gone = refl

other-IsKept : IsKept ext "old" "app" "theirs" other world
unfolding running
other-IsKept = refl

old-IsUnlinked :
    IsUnlinked ext "old" "app" "theirs" other (Dict.get world.tokens.refresh_tokens "old")
unfolding running
old-IsUnlinked found e = cc e

revoke_token-IsKept_example :
    IsKept ext "old" "app" "theirs" other (revoke_token ext "old" "" "app" world).1
revoke_token-IsKept_example =
    revoke_token-IsKept ext "old" "app" "theirs" other world other-IsKept (ground arith)
      (ne-of-== "web" "app" refl) old-IsUnlinked ""

old_is_live : view token_expiry (ext.now 5) world.tokens.access_tokens "old" ≡ some access
unfolding running
old_is_live = refl

revoke_token-IsDone_example :
    ((revoke_token ext "old" "" "app" world).0 ≡ ok tt)
    × (Dict.get (revoke_token ext "old" "" "app" world).1.tokens.access_tokens "old" ≡ none)
revoke_token-IsDone_example =
    revoke_token-IsDone ext "old" "" "app" world client access sample_is_known refl old_is_live
      (ne-of-== "" "refresh_token" refl)

no_refresh_old : Dict.get world.tokens.refresh_tokens "old" ≡ none
unfolding running
no_refresh_old = refl

old_is_stored : Dict.get world.tokens.access_tokens "old" ≡ some access
unfolding running
old_is_stored = refl

revoke_token_wrong_hint_example :
    ((revoke_token ext "old" "refresh_token" "app" world).0 ≡ ok tt)
    × (Dict.get (revoke_token ext "old" "refresh_token" "app" world).1.tokens.access_tokens "old"
        ≡ some access)
revoke_token_wrong_hint_example =
    revoke_token_wrong_hint ext "old" "refresh_token" "app" world client access sample_is_known refl
      refl no_refresh_old old_is_stored
