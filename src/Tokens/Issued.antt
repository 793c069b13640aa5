-- ===== src/Tokens/Issued.antt =====
-- Tokens that are issued for a registered client and a scope that it may have are sound.
use oauth_2_0_and_open_id_co.Base.{◌≡◌, String, Bool, refl, if◌then◌else◌}
use oauth_2_0_and_open_id_co.Action.{read, pure, Action, ◌>>=◌}
use oauth_2_0_and_open_id_co.Action.Frame.{Keeps, Keeps-bind, Keeps-if, Keeps-read, Keeps-pure}
use oauth_2_0_and_open_id_co.External.{External}
use oauth_2_0_and_open_id_co.Store
use oauth_2_0_and_open_id_co.Store.{TokenStore, ClientStore, TokenInfo}
use oauth_2_0_and_open_id_co.Server.{World, update_tokens}
use oauth_2_0_and_open_id_co.Time.{Time}
use oauth_2_0_and_open_id_co.Grant.{
  TokenResponse, access_info, refresh_info, issue_token_pair, issue_for_client,
}
use oauth_2_0_and_open_id_co.Tokens.Frame.{OfTokens, token_rules}
use oauth_2_0_and_open_id_co.Tokens.Sound.{
  IsPermitted, HasSoundTokens, access_name, refresh_name, put-IsSoundMap,
}

-- The tokens are sound for these clients, and these are the clients.
abbrev pub SoundFor : ClientStore → TokenStore → ClientStore → Type 0
SoundFor known s clients = HasSoundTokens s known × (clients ≡ known)

abbrev pub IsSound : ClientStore → World → Type 0
IsSound known = OfTokens (SoundFor known)

module _ (ext : External) (known : ClientStore) (client_id scope : String)
    (permitted : IsPermitted known client_id scope) where
  Keeps-create_access :
      (token user_id : String) (expires_at : Time)
      → Keeps (IsSound known) (
          update_tokens (λ s.
            Store.create_access_token s (access_info token client_id user_id scope expires_at)))
  unfolding Store.create_access_token
  Keeps-create_access token user_id expires_at = record {
    at = λ w h. (
      (put-IsSoundMap access_name known w.tokens.access_tokens h.0.0 token _ refl permitted, h.0.1),
      h.1,
    );
  }

  Keeps-create_refresh :
      (access refresh user_id : String) (expires_at : Time)
      → Keeps (IsSound known) (
          update_tokens (λ s.
            Store.create_refresh_token s refresh
              (refresh_info access refresh client_id user_id scope expires_at)))
  unfolding Store.create_refresh_token
  Keeps-create_refresh access refresh user_id expires_at = record {
    at = λ w h. (
      (
        h.0.0,
        put-IsSoundMap refresh_name known w.tokens.refresh_tokens h.0.1 refresh _ refl permitted,
      ),
      h.1,
    );
  }

  ruleset issue_rules = (token_rules, Keeps-create_access, Keeps-create_refresh)

  pub Keeps-issue_token_pair :
      (user_id : String) → Keeps (IsSound known) (issue_token_pair ext client_id user_id scope)
  unfolding issue_token_pair
  Keeps-issue_token_pair user_id = search issue_rules depth 30

  pub Keeps-issue_for_client : Keeps (IsSound known) (issue_for_client ext client_id scope)
  unfolding issue_for_client
  Keeps-issue_for_client = search issue_rules depth 30

  -- The tokens are issued, and an ID token is added to the answer if a test asks for it.
  pub Keeps-issue_and_finish :
      (user_id : String) (include : World → Bool)
      (extra : TokenResponse → Action World TokenResponse)
      → ((first : TokenResponse) → Keeps (IsSound known) (extra first))
      → Keeps (IsSound known) (
          issue_token_pair ext client_id user_id scope >>= λ first.
          read include >>= λ b. if b then extra first else pure first)
  Keeps-issue_and_finish user_id include extra kept =
      Keeps-bind (issue_token_pair ext client_id user_id scope) _ (Keeps-issue_token_pair user_id)
        λ first.
          Keeps-bind (read include) _ (Keeps-read include)
            λ b. Keeps-if b _ _ (kept first) (Keeps-pure first)
