-- ===== src/Tests/Consent.antt =====
-- The theorem on a refusal of consent, at the request of Tests/Handlers.
use oauth_2_0_and_open_id_co.Handler.Authorize.Login.{authorize_handler-denied, return_uri_of}
use oauth_2_0_and_open_id_co.Tests.Sample.{ext, world}
use oauth_2_0_and_open_id_co.Handler.Authorize.{authorize_handler}
use oauth_2_0_and_open_id_co.Handler.Session.{auth_handler}
use oauth_2_0_and_open_id_co.Dict
use oauth_2_0_and_open_id_co.Base.{
  refl, ne-of-==, true, ◌≡◌, [], false, ◌∷◌, some, String, ◌==◌, if◌then◌else◌,
}
use oauth_2_0_and_open_id_co.Service.Session.{with_state, denied}
use oauth_2_0_and_open_id_co.Http.{redirect_body, json, str, Method, Visit, HttpRequest}
use oauth_2_0_and_open_id_co.Uri.{get_value, ParseUri, Query}
use oauth_2_0_and_open_id_co.Tests.Handlers.{handling, authorize_get, authorize_query, printing}

-- net/url on the request's URI, and on the one that a refusal makes of it.
abbrev refused_query : Query
refused_query = with_state (denied authorize_query)

abbrev refusing : ParseUri
refusing s =
    if s == "/oauth/authorize?refused"
    then some (record { query = refused_query; render = λ q. s })
    else if s == "/oauth/authorize?client_id=app"
    then some (record {
      query = authorize_query;
      render = λ q. if get_value q "error" == "" then s else "/oauth/authorize?refused";
    })
    else printing s

abbrev refusal : HttpRequest
refusal = record authorize_get {
  method = Method.post;
  path = "/auth";
  query = Dict.empty;
  decision_json = some (record { authorize = false; deny = true });
}

abbrev deciding : Visit
deciding = record {
  world = world;
  session = record {
    entries =
        ("LoggedInUserID", str "1") ∷ ("ReturnURI", str "/oauth/authorize?client_id=app") ∷ [];
  };
}

authorize_handler-denied_example :
    (there : String) × (auth_handler refusing refusal deciding
      ≡ (json 200 (redirect_body there), deciding))
    × (refusing there
        ≡ some (record { query = refused_query; render = λ q. "/oauth/authorize?refused" }))
    × (get_value refused_query "error" ≡ "access_denied")
    × (authorize_handler ext refusing
          (record authorize_get { query = refused_query; request_uri = there })
          deciding
        ≡ authorize_handler ext refusing
            (record authorize_get { query = authorize_query; request_uri = return_uri_of deciding })
            deciding)
unfolding handling denied with_state
authorize_handler-denied_example =
    authorize_handler-denied ext refusing refusal authorize_get deciding
      (record {
        query = authorize_query;
        render = λ q.
            if get_value q "error" == ""
            then "/oauth/authorize?client_id=app"
            else "/oauth/authorize?refused";
      })
      (record { query = refused_query; render = λ q. "/oauth/authorize?refused" }) false refl refl
      refl (ne-of-== "1" "" refl) (ne-of-== "/oauth/authorize?client_id=app" "" refl) refl refl
      (λ k. refl)
