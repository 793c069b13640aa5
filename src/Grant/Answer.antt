-- ===== src/Grant/Answer.antt =====
-- internal/server/grant.go: the tokens of an answer, which `issueTokenPair` makes, and its ID token.
use oauth_2_0_and_open_id_co.Grant.Info.{TokenResponse, access_info, refresh_info}
use oauth_2_0_and_open_id_co.Base.{ℕ, String, Option, none, some}
use oauth_2_0_and_open_id_co.Action.{Result, ok, err, Action, pure, lift, read, ◌>>=◌, ◌>>◌}
use oauth_2_0_and_open_id_co.Time.{add, whole_seconds}
use oauth_2_0_and_open_id_co.External.{External}
use oauth_2_0_and_open_id_co.Model
use oauth_2_0_and_open_id_co.Model.{User, UserStore}
use oauth_2_0_and_open_id_co.Store
use oauth_2_0_and_open_id_co.Store.{Client, AuthorizationCode, TokenInfo}
use oauth_2_0_and_open_id_co.Generator.{sign_access_token, generate_id_token, refresh_token_bytes}
use oauth_2_0_and_open_id_co.Server.{World, read_clock, draw, update_tokens, wrapping}

-- s.UserStore.GetByID, where the store is known to be there
abbrev pub find_user : Option UserStore → String → Option User
find_user none id = none
find_user (some users) id = Model.get_by_id users id

-- if err == nil { resp.IDToken = idToken }
abbrev pub with_id_token : TokenResponse → Result String → TokenResponse
with_id_token resp (ok t) = record resp { id_token = t }
with_id_token resp (err e) = resp

module _ (ext : External) where
  unfoldable pub issue_token_pair : String → String → String → Action World TokenResponse
  issue_token_pair client_id user_id scope = do
    g ← read (λ w. w.generator)
    now ← read_clock ext
    access_token ← lift (sign_access_token ext g now client_id user_id scope)
    refresh_token ←
        wrapping "server_error: failed to generate refresh token: " (draw ext refresh_token_bytes)
    later ← read_clock ext
    update_tokens (λ s.
        Store.create_access_token s
          (access_info access_token client_id user_id scope (add now g.access_expiry)))
    update_tokens (λ s. Store.create_refresh_token s refresh_token (
        refresh_info access_token refresh_token client_id user_id scope
          (add later g.refresh_expiry)))
    pure (record {
      access_token = access_token;
      token_type = "Bearer";
      expires_in = whole_seconds g.access_expiry;
      refresh_token = refresh_token;
      scope = scope;
      id_token = "";
    })

  -- The body of `if ShouldIncludeIDToken(...)`: a failure to sign leaves the response without one.
  unfoldable pub add_id_token :
      TokenResponse → String → String → String → ℕ → String → Action World TokenResponse
  add_id_token resp client_id user_id nonce auth_time scope = do
    user ← read (λ w. find_user w.user_store user_id)
    g ← read (λ w. w.generator)
    now ← read_clock ext
    pure (
        with_id_token resp
          (generate_id_token ext g now client_id user_id nonce auth_time user scope))
