-- ===== src/Server.antt =====
-- internal/server/server.go: the server's state, client registration and authentication, and the
-- calls that read the clock, the random source and the stores. A `World` is the server with the
-- numbers of readings of the clock and of the random source so far; a store call takes a reading
-- also where it finds nothing, where Go takes none, and nothing depends on that.
pub mod Loads
use oauth_2_0_and_open_id_co.Oidc.{AppConfig}
use oauth_2_0_and_open_id_co.Base.{ℕ, suc, String, Bool, false, Option, none, some, List}
use oauth_2_0_and_open_id_co.Errors.{Error, wrapped}
use oauth_2_0_and_open_id_co.Action.{Result, ok, err, Action, ◌>>=◌}
use oauth_2_0_and_open_id_co.Time.{Time}
use oauth_2_0_and_open_id_co.External.{PrivateKey, External}
use oauth_2_0_and_open_id_co.Model.{UserStore}
use oauth_2_0_and_open_id_co.Store
use oauth_2_0_and_open_id_co.Store.{
  Client, AuthorizationCode, TokenInfo, ClientStore, AuthCodeStore, TokenStore,
}
use oauth_2_0_and_open_id_co.Pkce.{constant_time_equal}
use oauth_2_0_and_open_id_co.Generator.{new_token_generator, TokenGenerator, random_string}

pub record Server : Type 0 where
  pub clients : ClientStore
  pub auth_codes : AuthCodeStore
  pub tokens : TokenStore
  pub generator : TokenGenerator
  pub user_store : Option UserStore
  -- the client id, the user name and the password; none before SetPasswordAuthHandler
  pub password_auth_func : Option (String → String → String → Result String)

abbrev pub server_for : AppConfig → Option UserStore → PrivateKey → Server
server_for cfg user_store key =
    let generator = new_token_generator cfg.issuer key cfg.key_id "RS256" in
    record {
      clients = Store.new_client_store;
      auth_codes = Store.new_auth_code_store;
      tokens = Store.new_token_store;
      generator = generator;
      user_store = user_store;
      password_auth_func = none;
    }

abbrev server_of_key : AppConfig → Option UserStore → Option PrivateKey → Option Server
server_of_key cfg user_store none = none
server_of_key cfg user_store (some key) = some (server_for cfg user_store key)

-- None where the configuration has no private key: Go keeps the nil pointer, and the generator panics
-- when it first uses it.
unfoldable pub new_server : AppConfig → Option UserStore → Option Server
new_server cfg user_store = server_of_key cfg user_store cfg.rsa_private_key

unfoldable pub register_client :
    Server → String → String → List String → List String → List String → Server
register_client s id secret redirect_uris scopes allowed_grant_types = record s {
  clients = Store.set s.clients (record {
    id = id;
    secret = secret;
    redirect_uris = redirect_uris;
    scopes = scopes;
    allowed_grant_types = allowed_grant_types;
  });
}

unfoldable pub set_password_auth_handler :
    Server → (String → String → String → Result String) → Server
set_password_auth_handler s fn = record s { password_auth_func = some fn }

abbrev secret_matches : Option Client → String → Bool
secret_matches none secret = false
secret_matches (some client) secret = constant_time_equal client.secret secret

unfoldable pub validate_client : Server → String → String → Bool
validate_client s id secret = secret_matches (Store.get_by_id s.clients id) secret

close_stores : Server → Option AuthCodeStore → Option TokenStore → Option Server
close_stores s (some codes) (some tokens) = some (record s { auth_codes = codes; tokens = tokens })
close_stores s (some codes) none = none
close_stores s none tokens = none

-- None where a channel is closed twice, which panics.
unfoldable pub close : Server → Option Server
unfolding close_stores
close s = close_stores s (Store.close_codes s.auth_codes) (Store.close_tokens s.tokens)

pub record World : Type 0 where
  pub server : Server
  pub open server use *
  pub clock : ℕ
  pub draws : ℕ

abbrev pub set_codes : World → AuthCodeStore → World
set_codes w s = record w { server = record w.server { auth_codes = s } }

abbrev pub set_tokens : World → TokenStore → World
set_tokens w s = record w { server = record w.server { tokens = s } }

abbrev pub update_codes : (AuthCodeStore → AuthCodeStore) → Action World Unit
update_codes f w = (ok tt, set_codes w (f w.auth_codes))

abbrev pub update_tokens : (TokenStore → TokenStore) → Action World Unit
update_tokens f w = (ok tt, set_tokens w (f w.tokens))

-- fmt.Errorf("...: %w", err) on an error
abbrev pub wrap_result {ℓ} : {A : Type ℓ} → String → Result A → Result A
wrap_result s (ok a) = ok a
wrap_result s (err e) = err (wrapped s e)

abbrev pub wrapping {ℓ} : {S A : Type ℓ} → String → Action S A → Action S A
wrapping text m s = (wrap_result text (m s).0, (m s).1)

module _ (ext : External) where
  -- time.Now()
  abbrev pub read_clock : Action World Time
  read_clock w = (ok (ext.now w.clock), record w { clock = suc w.clock })

  -- generateRandomString(n)
  abbrev pub draw : ℕ → Action World String
  draw n w = (random_string (ext.rand_read w.draws n), record w { draws = suc w.draws })

  -- s.AuthCodes.Get(code)
  unfoldable pub load_code : String → Action World (Option AuthorizationCode)
  load_code code w =
      let (found, codes) = Store.get_code w.auth_codes (ext.now w.clock) code in
      (ok found, set_codes (record w { clock = suc w.clock }) codes)

  -- s.Tokens.GetAccessToken(token)
  unfoldable pub load_access_token : String → Action World (Option TokenInfo)
  load_access_token token w =
      let (found, tokens) = Store.get_access_token w.tokens (ext.now w.clock) token in
      (ok found, set_tokens (record w { clock = suc w.clock }) tokens)

  -- s.Tokens.GetRefreshToken(token)
  unfoldable pub load_refresh_token : String → Action World (Option TokenInfo)
  load_refresh_token token w =
      let (found, tokens) = Store.get_refresh_token w.tokens (ext.now w.clock) token in
      (ok found, set_tokens (record w { clock = suc w.clock }) tokens)
