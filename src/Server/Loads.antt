-- ===== src/Server/Loads.antt =====
-- What a load from a store answers, and what it leaves in the world.
use oauth_2_0_and_open_id_co.Expiry.{fetch}
use oauth_2_0_and_open_id_co.Action.{ok}
use oauth_2_0_and_open_id_co.Store.{
  TokenStore, AuthCodeStore, token_expiry, code_expiry, TokenInfo, AuthorizationCode,
}
use oauth_2_0_and_open_id_co.Store
use oauth_2_0_and_open_id_co.Expiry.Laws.{fetch-eq-view, view}
use oauth_2_0_and_open_id_co.Server.{
  set_tokens, set_codes, update_tokens, update_codes, load_refresh_token, load_access_token,
  load_code, World,
}
use oauth_2_0_and_open_id_co.Base.{suc, arith, ◌≤◌, Option, some, ◌≡◌, String}
use oauth_2_0_and_open_id_co.Dict
use oauth_2_0_and_open_id_co.Time.{Time}
use oauth_2_0_and_open_id_co.External.{External}

module _ (ext : External) (key : String) (w : World) where
  pub load_code-ok :
      (w' : World) (found : Option AuthorizationCode)
      → load_code ext key w ≡ (ok found, w')
      → (found ≡ view code_expiry (ext.now w.clock) w.auth_codes.codes key)
        × (w'.tokens ≡ w.tokens)
        × (w'.clients ≡ w.clients)
        × (w'.generator ≡ w.generator)
        × (w'.user_store ≡ w.user_store)
        × (w'.password_auth_func ≡ w.password_auth_func)
        × (w'.clock ≡ suc w.clock)
        × (w'.draws ≡ w.draws)
  unfolding load_code Store.get_code
  load_code-ok w' found h =
      ground (arith, fetch-eq-view code_expiry (ext.now w.clock) w.auth_codes.codes key)

  pub load_access_token-ok :
      (w' : World) (found : Option TokenInfo)
      → load_access_token ext key w ≡ (ok found, w')
      → (found ≡ view token_expiry (ext.now w.clock) w.tokens.access_tokens key)
        × (w'.auth_codes ≡ w.auth_codes)
        × (w'.clients ≡ w.clients)
        × (w'.generator ≡ w.generator)
        × (w'.tokens.refresh_tokens ≡ w.tokens.refresh_tokens)
        × (w'.clock ≡ suc w.clock)
        × (w'.tokens.access_tokens
            ≡ (fetch token_expiry (ext.now w.clock) w.tokens.access_tokens key).1)
  unfolding load_access_token Store.get_access_token
  load_access_token-ok w' found h =
      ground (arith, fetch-eq-view token_expiry (ext.now w.clock) w.tokens.access_tokens key)

  pub load_refresh_token-ok :
      (w' : World) (found : Option TokenInfo)
      → load_refresh_token ext key w ≡ (ok found, w')
      → (found ≡ view token_expiry (ext.now w.clock) w.tokens.refresh_tokens key)
        × (w'.auth_codes ≡ w.auth_codes)
        × (w'.clients ≡ w.clients)
        × (w'.generator ≡ w.generator)
        × (w'.user_store ≡ w.user_store)
        × (w'.tokens.access_tokens ≡ w.tokens.access_tokens)
        × (w'.clock ≡ suc w.clock)
        × (w'.draws ≡ w.draws)
        × (w'.tokens.refresh_tokens
            ≡ (fetch token_expiry (ext.now w.clock) w.tokens.refresh_tokens key).1)
  unfolding load_refresh_token Store.get_refresh_token
  load_refresh_token-ok w' found h =
      ground (arith, fetch-eq-view token_expiry (ext.now w.clock) w.tokens.refresh_tokens key)

-- An entry that a load answers is stored, and has not expired.
pub view-some :
    {V : Type 0} (expires_at : V → Time) (now : Time) (d : Dict.Dict V) (key : String) (v : V)
    → view expires_at now d key ≡ some v
    → (Dict.get d key ≡ some v) × (now ≤ expires_at v)
view-some expires_at now d key v h = ground arith

pub update_codes-ok :
    (f : AuthCodeStore → AuthCodeStore) (w w' : World) (u : Unit)
    → update_codes f w ≡ (ok u, w')
    → w' ≡ set_codes w (f w.auth_codes)
update_codes-ok f w w' u h = cc

pub update_tokens-ok :
    (f : TokenStore → TokenStore) (w w' : World) (u : Unit)
    → update_tokens f w ≡ (ok u, w')
    → w' ≡ set_tokens w (f w.tokens)
update_tokens-ok f w w' u h = cc

-- The answers of the loads, as equations.
module _ (ext : External) (key : String) (w : World) where
  pub load_code-eq :
      load_code ext key w
      ≡ (ok (view code_expiry (ext.now w.clock) w.auth_codes.codes key), (load_code ext key w).1)
  unfolding load_code Store.get_code
  load_code-eq = ground (arith, fetch-eq-view code_expiry (ext.now w.clock) w.auth_codes.codes key)

  pub load_access_token-eq : load_access_token ext key w ≡ (
    ok (view token_expiry (ext.now w.clock) w.tokens.access_tokens key),
    (load_access_token ext key w).1,
  )
  unfolding load_access_token Store.get_access_token
  load_access_token-eq =
      ground (arith, fetch-eq-view token_expiry (ext.now w.clock) w.tokens.access_tokens key)

  pub load_refresh_token-eq : load_refresh_token ext key w ≡ (
    ok (view token_expiry (ext.now w.clock) w.tokens.refresh_tokens key),
    (load_refresh_token ext key w).1,
  )
  unfolding load_refresh_token Store.get_refresh_token
  load_refresh_token-eq =
      ground (arith, fetch-eq-view token_expiry (ext.now w.clock) w.tokens.refresh_tokens key)
