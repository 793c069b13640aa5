-- ===== src/Store.antt =====
-- internal/server/store.go, lines 14-222: what the server stores, and the three stores. Each method
-- is one step on its `sync.Map`; the moment that it reads from the clock is an argument. `close` is
-- `none` where Go panics, on a channel that is closed already.
use oauth_2_0_and_open_id_co.Base.{
  ℕ, String, Bool, true, false, Option, none, some, List, if◌then◌else◌, contains,
}
use oauth_2_0_and_open_id_co.Dict
use oauth_2_0_and_open_id_co.Dict.{Dict}
use oauth_2_0_and_open_id_co.Expiry
use oauth_2_0_and_open_id_co.Time.{Time}

pub record Client : Type 0 where
  pub id : String
  pub secret : String
  pub redirect_uris : List String
  pub scopes : List String
  pub allowed_grant_types : List String

unfoldable pub is_grant_type_allowed : Client → String → Bool
unfolding contains
is_grant_type_allowed c grant_type = contains c.allowed_grant_types grant_type

pub record AuthorizationCode : Type 0 where
  pub code : String
  pub client_id : String
  pub user_id : String
  pub redirect_uri : String
  pub scope : String
  pub nonce : String
  pub response_type : String
  pub code_challenge : String
  pub code_challenge_method : String
  pub auth_time : ℕ
  pub expires_at : Time

pub record TokenInfo : Type 0 where
  pub access_token : String
  pub token_type : String
  pub refresh_token : String
  pub scope : String
  pub user_id : String
  pub client_id : String
  pub expires_at : Time

pub record ClientStore : Type 0 where
  pub clients : Dict Client

pub record AuthCodeStore : Type 0 where
  pub codes : Dict AuthorizationCode
  pub stopped : Bool

pub record TokenStore : Type 0 where
  pub access_tokens : Dict TokenInfo
  pub refresh_tokens : Dict TokenInfo
  pub stopped : Bool

unfoldable pub new_client_store : ClientStore
new_client_store = record { clients = Dict.empty }

unfoldable pub new_auth_code_store : AuthCodeStore
new_auth_code_store = record { codes = Dict.empty; stopped = false }

unfoldable pub new_token_store : TokenStore
new_token_store = record {
  access_tokens = Dict.empty;
  refresh_tokens = Dict.empty;
  stopped = false;
}

module _ (s : ClientStore) where
  unfoldable pub get_by_id : String → Option Client
  get_by_id id = Dict.get s.clients id

  unfoldable pub set : Client → ClientStore
  set client = record { clients = Dict.put s.clients client.id client }

abbrev pub code_expiry : AuthorizationCode → Time
code_expiry c = c.expires_at

abbrev pub token_expiry : TokenInfo → Time
token_expiry t = t.expires_at

-- The methods of AuthCodeStore.
module _ (s : AuthCodeStore) where
  unfoldable pub create_code : AuthorizationCode → AuthCodeStore
  create_code code = record s { codes = Dict.put s.codes code.code code }

  unfoldable pub get_code : Time → String → Option AuthorizationCode × AuthCodeStore
  get_code now code =
      let (found, codes) = Expiry.fetch code_expiry now s.codes code in
      (found, record s { codes = codes })

  unfoldable pub delete_code : String → AuthCodeStore
  delete_code code = record s { codes = Dict.delete s.codes code }

  -- One tick of `cleanupLoop`, which ends when the store is closed.
  unfoldable pub cleanup_codes : Time → AuthCodeStore
  cleanup_codes now =
      if s.stopped then s else record s { codes = Expiry.sweep code_expiry now s.codes }

  unfoldable pub close_codes : Option AuthCodeStore
  close_codes = if s.stopped then none else some (record s { stopped = true })

-- The methods of TokenStore.
module _ (s : TokenStore) where
  unfoldable pub create_access_token : TokenInfo → TokenStore
  create_access_token token = record s {
    access_tokens = Dict.put s.access_tokens token.access_token token;
  }

  unfoldable pub get_access_token : Time → String → Option TokenInfo × TokenStore
  get_access_token now token =
      let (found, tokens) = Expiry.fetch token_expiry now s.access_tokens token in
      (found, record s { access_tokens = tokens })

  unfoldable pub delete_access_token : String → TokenStore
  delete_access_token token = record s { access_tokens = Dict.delete s.access_tokens token }

  unfoldable pub create_refresh_token : String → TokenInfo → TokenStore
  create_refresh_token token info = record s {
    refresh_tokens = Dict.put s.refresh_tokens token info;
  }

  unfoldable pub get_refresh_token : Time → String → Option TokenInfo × TokenStore
  get_refresh_token now token =
      let (found, tokens) = Expiry.fetch token_expiry now s.refresh_tokens token in
      (found, record s { refresh_tokens = tokens })

  unfoldable pub delete_refresh_token : String → TokenStore
  delete_refresh_token token = record s { refresh_tokens = Dict.delete s.refresh_tokens token }

  unfoldable pub cleanup_tokens : Time → TokenStore
  cleanup_tokens now = if s.stopped then s else record s {
    access_tokens = Expiry.sweep token_expiry now s.access_tokens;
    refresh_tokens = Expiry.sweep token_expiry now s.refresh_tokens;
  }

  unfoldable pub close_tokens : Option TokenStore
  close_tokens = if s.stopped then none else some (record s { stopped = true })
