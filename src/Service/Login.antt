-- ===== src/Service/Login.antt =====
-- Logging in with a password, and the password grant with the function that the server installs.
use oauth_2_0_and_open_id_co.Grant.Password.{grant_password-IsLoggedIn}
use oauth_2_0_and_open_id_co.Grant.Issue.{IsIssued}
use oauth_2_0_and_open_id_co.Grant.{grant_password, TokenResponse, TokenRequest}
use oauth_2_0_and_open_id_co.Action.{ok}
use oauth_2_0_and_open_id_co.Server.{World, Server, set_password_auth_handler}
use mathlib.Core.Option.{some-injective}
use oauth_2_0_and_open_id_co.Model
use oauth_2_0_and_open_id_co.Base.{
  none, Option, ap, ◌∙◌, sym, inr, arith, inl, Option-cases, true, ◌↔◌, some, ◌≡◌, String,
}
use oauth_2_0_and_open_id_co.Model.{User, UserStore}
use oauth_2_0_and_open_id_co.External.{External}
use oauth_2_0_and_open_id_co.Service.{
  credentials_result, setup_password_auth, check_password, authenticate,
}

-- Credentials are accepted exactly when a user of that name has a password hash that bcrypt finds to
-- be the hash of the password; the answer is that user's id.
pub authenticate_iff :
    (ext : External) (users : UserStore) (username password id : String)
    → (authenticate ext users username password ≡ some id) ↔ (
        (user : User) × (Model.get_by_username users username ≡ some user)
        × (ext.compare_hash_and_password user.password password ≡ true)
        × (user.id ≡ id))
unfolding authenticate check_password
authenticate_iff ext users username password id =
    elim (Option-cases (Model.get_by_username users username)) [
      | inl missing ↦ (λ h. absurd (ground arith), λ (u, there, good, same). absurd (cc))
      | inr (user, found) ↦ (
        λ h. (user, found, ground arith, ground arith),
        λ (u, there, good, same).
            let e : u ≡ user = some-injective _ _ (sym there ∙ found) in
            rw found (rw (rw e at good) (ap some (rw e at same))),
      )
    ]

credentials_result-ok :
    (ext : External) (o : Option String) (user_id : String)
    → credentials_result ext o ≡ ok user_id
    → o ≡ some user_id
credentials_result-ok ext none user_id h = cc
credentials_result-ok ext (some u) user_id h = ap some (cc)

IsIssued-user :
    (ext : External) (client_id user_id same_id scope : String) (w w' : World)
    (resp : TokenResponse)
    → user_id ≡ same_id
    → IsIssued ext client_id same_id scope w w' resp
    → IsIssued ext client_id user_id scope w w' resp
IsIssued-user ext client_id user_id same_id scope w w' resp e h = rw e h

-- With the password function that the server installs, the password grant issues tokens only to the
-- user whose stored hash bcrypt finds to be that of the password.
pub grant_password-IsUser :
    (ext : External) (users : UserStore) (s : Server) (req : TokenRequest) (w w' : World)
    (resp : TokenResponse)
    → w.server ≡ setup_password_auth ext users s
    → grant_password ext req w ≡ (ok resp, w')
    → (user : User) × (Model.get_by_username users req.username ≡ some user)
      × (ext.compare_hash_and_password user.password req.password ≡ true)
      × ((scope : String) × (before : World) × IsIssued ext req.client_id user.id scope before w'
            resp)
unfolding setup_password_auth set_password_auth_handler
grant_password-IsUser ext users s req w w' resp installed h =
    let l = grant_password-IsLoggedIn ext req w w' resp h in
    let handler : l.handler ≡ (λ client_id username password.
      credentials_result ext (authenticate ext users username password)) =
      some-injective _ _ (sym l.configured ∙ ap (λ (x : Server). x.password_auth_func) installed) in
    let accepted : authenticate ext users req.username req.password ≡ some l.user_id =
      credentials_result-ok ext _ l.user_id (rw handler at l.login) in
    let (user, there, good, same) =
      (authenticate_iff ext users req.username req.password l.user_id).0 accepted in
    (
      user,
      there,
      good,
      (
        l.scope,
        l.before,
        IsIssued-user ext req.client_id user.id l.user_id l.scope l.before w' resp same l.issued,
      ),
    )
