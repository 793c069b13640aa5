-- ===== src/Model.antt =====
-- internal/model/model.go: the users and their store. Its lock makes each method one step; the
-- response types belong to the handlers.
use oauth_2_0_and_open_id_co.Base.{String, Option}
use oauth_2_0_and_open_id_co.Dict
use oauth_2_0_and_open_id_co.Dict.{Dict}

pub record User : Type 0 where
  pub id : String
  pub username : String
  pub password : String
  pub email : String
  pub name : String
  pub avatar : String

pub record UserStore : Type 0 where
  pub by_id : Dict User
  pub by_username : Dict User

unfoldable pub set : UserStore → User → UserStore
set s u = record {
  by_id = Dict.put s.by_id u.id u;
  by_username = Dict.put s.by_username u.username u;
}

unfoldable pub get_by_username : UserStore → String → Option User
get_by_username s username = Dict.get s.by_username username

unfoldable pub get_by_id : UserStore → String → Option User
get_by_id s id = Dict.get s.by_id id

abbrev no_users : UserStore
no_users = record { by_id = Dict.empty; by_username = Dict.empty }

-- The two demonstration users; `hash` is bcrypt.GenerateFromPassword at the default cost.
unfoldable pub new_user_store : (String → String) → UserStore
unfolding set
new_user_store hash =
    let admin : User = record {
      id = "1";
      username = "admin";
      password = hash "admin";
      email = "admin@example.com";
      name = "Admin User";
      avatar = "";
    } in
    let test : User = record {
      id = "2";
      username = "test";
      password = hash "test";
      email = "test@example.com";
      name = "Test User";
      avatar = "";
    } in
    set (set no_users admin) test
