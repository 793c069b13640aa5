-- ===== src/Service/UserInfo.antt =====
-- What the user info endpoint gives away, and to whom.
use oauth_2_0_and_open_id_co.Bearer.{validate_bearer_token}
use oauth_2_0_and_open_id_co.Scope.Laws.{contains_scope_iff}
use oauth_2_0_and_open_id_co.Model
use oauth_2_0_and_open_id_co.Scope.{contains_scope, split_spaces}
use oauth_2_0_and_open_id_co.Bearer.Validate.{validate_bearer_token-IsBearer, IsBearer}
use oauth_2_0_and_open_id_co.Store.{TokenInfo}
use oauth_2_0_and_open_id_co.Action.{check-ok, or_fail-ok, or_fail, check, then_ok, err, ok, Result}
use oauth_2_0_and_open_id_co.Service.{
  bearer_result, validate_bearer, UserInfoResponse, get_user_info, user_info,
}
use oauth_2_0_and_open_id_co.Server.{World}
use oauth_2_0_and_open_id_co.Base.{ap, ◌==◌, some, not, Has, arith, false, ◌⊎◌, ◌≡◌, String}
use oauth_2_0_and_open_id_co.Model.{User, UserStore}
use oauth_2_0_and_open_id_co.External.{External}

module _ (ext : External) (users : UserStore) (header : String) where
  -- What holds when the endpoint has answered. `w` is the world before the call.
  pub record IsDisclosed (w : World) (resp : UserInfoResponse) : Type 0 where
    pub info : TokenInfo
    pub user : User
    pub bearer : IsBearer ext header w info
    pub openid : Has "openid" (split_spaces info.scope)
    pub found : Model.get_by_id users info.user_id ≡ some user
    pub sub : resp.sub ≡ info.user_id
    pub name :
        (resp.name ≡ "") ⊎ (Has "profile" (split_spaces info.scope) × (resp.name ≡ user.name))
    pub email :
        ((resp.email ≡ "") × (resp.email_verified ≡ false))
        ⊎ (Has "email" (split_spaces info.scope)
            × (resp.email ≡ user.email)
            × (resp.email_verified ≡ not (user.email == "")))

  bearer_result-ok :
      (r : Result TokenInfo) (info : TokenInfo) → bearer_result r ≡ ok info → r ≡ ok info
  bearer_result-ok (ok i) info h = h
  bearer_result-ok (err e) info h = cc

  user_info-name :
      (info : TokenInfo) (user : User)
      → ((user_info info user).name ≡ "")
        ⊎ (Has "profile" (split_spaces info.scope) × ((user_info info user).name ≡ user.name))
  unfolding user_info
  user_info-name info user = ground (arith, contains_scope_iff info.scope "profile")

  user_info-email :
      (info : TokenInfo) (user : User)
      → (((user_info info user).email ≡ "") × ((user_info info user).email_verified ≡ false))
        ⊎ (Has "email" (split_spaces info.scope)
            × ((user_info info user).email ≡ user.email)
            × ((user_info info user).email_verified ≡ not (user.email == "")))
  unfolding user_info
  user_info-email info user = ground (arith, contains_scope_iff info.scope "email")

  user_info-sub : (info : TokenInfo) (user : User) → (user_info info user).sub ≡ info.user_id
  unfolding user_info
  user_info-sub info user = ground arith

  -- The endpoint answers only to a bearer token that is accepted and has the openid scope. It answers
  -- about the token's user, with the name only if the token has the profile scope, and with the
  -- email address only if it has the email scope.
  pub get_user_info-IsDisclosed :
      (w w' : World) (resp : UserInfoResponse)
      → get_user_info ext users header w ≡ (ok resp, w')
      → IsDisclosed w resp
  unfolding get_user_info validate_bearer
  get_user_info-IsDisclosed w w' resp h =
      then_ok (validate_bearer ext header w) _ h λ info w1 accepted h1.
        then_ok (check (contains_scope info.scope "openid") _ w1) _ h1 λ u w2 checked h2.
          then_ok (or_fail _ (Model.get_by_id users info.user_id) w2) _ h2 λ user w3 there h3.
            let valid : (validate_bearer_token ext header w).0 ≡ ok info =
              bearer_result-ok _ info (ap (λ r. r.0) accepted) in
            let after = (validate_bearer_token ext header w).1 in
            let found = (or_fail-ok _ (Model.get_by_id users info.user_id) w2 w3 user there).0 in
            let answer : resp ≡ user_info info user = cc in
            record {
              info = info;
              user = user;
              bearer =
                  validate_bearer_token-IsBearer ext header w after info (λ i. (valid i, after));
              openid =
                  (contains_scope_iff info.scope "openid").0
                    (check-ok (contains_scope info.scope "openid") _ w1 w2 u checked);
              found = found;
              sub = rw answer (user_info-sub info user);
              name = rw answer (user_info-name info user);
              email = rw answer (user_info-email info user);
            }
