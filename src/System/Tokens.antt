-- ===== src/System/Tokens.antt =====
-- The tokens of a server that has been started and has served any requests.
use oauth_2_0_and_open_id_co.Service.{setup_password_auth}
use oauth_2_0_and_open_id_co.Base.{
  eq_iff, [], ◌∷◌, ◌≡◌, String, ℕ, inl, inr, arith, refl, Bool-cases, ◌==◌,
}
use oauth_2_0_and_open_id_co.Action.{ok, Result-cases}
use oauth_2_0_and_open_id_co.Dict.{get-empty, get-put}
use oauth_2_0_and_open_id_co.External.{External}
use oauth_2_0_and_open_id_co.Http.{HttpRequest, Visit}
use oauth_2_0_and_open_id_co.Limiter.{RateLimiter}
use oauth_2_0_and_open_id_co.Router.{Site, serve_request}
use oauth_2_0_and_open_id_co.Scope.Laws.{HasPlainScopes}
use oauth_2_0_and_open_id_co.Server.{new_server, register_client, set_password_auth_handler, World}
use oauth_2_0_and_open_id_co.Startup.{
  with_key, all_grants, Platform, Started, start, start_with, private_key, configured,
}
use oauth_2_0_and_open_id_co.Store
use oauth_2_0_and_open_id_co.Store.{Client, ClientStore, TokenInfo, TokenStore}
use oauth_2_0_and_open_id_co.System.{readings, Step, Reach, served, codes_cleaned, tokens_cleaned}
use oauth_2_0_and_open_id_co.System.Kept.{serve_request-IsKept}
use oauth_2_0_and_open_id_co.System.Started.{first}
use oauth_2_0_and_open_id_co.Time.{Time}
use oauth_2_0_and_open_id_co.Tokens.Endpoints.{
  token-IsSound, revoke_token-IsSound, validate_bearer_token-IsSound,
}
use oauth_2_0_and_open_id_co.Tokens.Frame.{Keeps-authorize_request}
use oauth_2_0_and_open_id_co.Tokens.Grants.{ArePlain}
use oauth_2_0_and_open_id_co.Tokens.Issued.{SoundFor, IsSound}
use oauth_2_0_and_open_id_co.Tokens.Sound.{
  HasSoundTokens, sweep-IsSoundMap, access_name, refresh_name,
}
use oauth_2_0_and_open_id_co.Uri.{ParseUri}

cleanup-HasSoundTokens :
    (known : ClientStore) (s : TokenStore) (now : Time)
    → HasSoundTokens s known
    → HasSoundTokens (Store.cleanup_tokens s now) known
unfolding Store.cleanup_tokens
cleanup-HasSoundTokens known s now sound = elim (Bool-cases s.stopped) [
  | inl p ↦ rw p sound
  | inr p ↦ rw p (
    sweep-IsSoundMap access_name known s.access_tokens sound.0 now,
    sweep-IsSoundMap refresh_name known s.refresh_tokens sound.1 now,
  )
]

module _ (ext : External) (parse : ParseUri) (site : Site) (known : ClientStore)
    (plain : ArePlain known) where
  served-IsSound :
      (r : HttpRequest) (s : RateLimiter × Visit)
      → IsSound known s.1.world
      → IsSound known (serve_request ext parse site r s).1.1.world
  served-IsSound =
      serve_request-IsKept ext (IsSound known) (Keeps-authorize_request (SoundFor known) ext)
        (token-IsSound ext known plain) (revoke_token-IsSound ext known)
        (validate_bearer_token-IsSound ext known) (λ w h. h) parse site

  Step-IsSound : (w w' : World) → Step ext parse site w w' → IsSound known w → IsSound known w'
  Step-IsSound w w' (served r session rl e) h =
      rw e (served-IsSound r (rl, record { world = w; session = session }) h)
  Step-IsSound w w' (codes_cleaned now e) h = rw e h
  Step-IsSound w w' (readings clock draws e) h = rw e h
  Step-IsSound w w' (tokens_cleaned now e) h =
      rw e (cleanup-HasSoundTokens known w.tokens now h.0, h.1)

  Reach-IsSoundFor : (w w' : World) → Reach ext parse site w w' → IsSound known w → IsSound known w'
  Reach-IsSoundFor w _ Reach.here h = h
  Reach-IsSoundFor w w' (Reach.next {w = w1} before step) h =
      Step-IsSound w1 w' step (Reach-IsSoundFor w w1 before h)

set-ArePlain :
    (s : ClientStore) (client : Client)
    → HasPlainScopes client
    → ArePlain s
    → ArePlain (Store.set s client)
unfolding Store.set Store.get_by_id
set-ArePlain s new plain others id client there = elim (Bool-cases (new.id == id)) [
  | inl p ↦
      let same : client ≡ new = ground (arith, get-put s.clients new.id new id) in rw same plain
  | inr p ↦ others id client (ground (arith, get-put s.clients new.id new id))
]

none-ArePlain : ArePlain Store.new_client_store
unfolding Store.new_client_store Store.get_by_id
none-ArePlain id client there = ground (arith, get-empty {V = Client} id)

abbrev demo_client : String → String → Client
demo_client id secret = record {
  id = id;
  secret = secret;
  redirect_uris = "http://localhost:9094" ∷ [];
  scopes = "openid" ∷ "profile" ∷ "email" ∷ [];
  allowed_grant_types = all_grants;
}

demo_client-HasPlainScopes : (id secret : String) → HasPlainScopes (demo_client id secret)
demo_client-HasPlainScopes id secret =
    ground (arith, eq_iff "openid" "", eq_iff "profile" "", eq_iff "email" "")

module _ (ext : External) (p : Platform) (parse : ParseUri) where
  start-clients :
      (st : Started)
      → start ext p ≡ ok st
      → (st.server.clients
          ≡ Store.set
              (Store.set Store.new_client_store (demo_client "000000" "999999"))
              (demo_client "111111" "11111111"))
        × (st.server.tokens ≡ Store.new_token_store)
  unfolding start start_with setup_password_auth set_password_auth_handler register_client
      new_server with_key
  start-clients st h = elim (Result-cases (private_key p (configured p))) [
    | inl (key, q) ↦ ground arith
    | inr (e, q) ↦ cc (rw q at h)
  ]

  new_tokens-HasSoundTokens : (known : ClientStore) → HasSoundTokens Store.new_token_store known
  unfolding Store.new_token_store
  new_tokens-HasSoundTokens known = (
    λ key info there. ground (arith, get-empty {V = TokenInfo} key),
    λ key info there. ground (arith, get-empty {V = TokenInfo} key),
  )

  -- Every access and refresh token that a started server holds, after any requests of any browsers and
  -- any clean-up rounds, stands under its own text and is for a registered client and for scopes of that
  -- client's list.
  pub Reach-HasSoundTokens :
      (st : Started) (clock draws : ℕ) (w : World)
      → start ext p ≡ ok st
      → Reach ext parse st.site (first st clock draws) w
      → HasSoundTokens w.tokens w.clients
  Reach-HasSoundTokens st clock draws w started reached =
      let (clients, tokens) = start-clients st started in
      let known = st.server.clients in
      let plain : ArePlain known = rw clients (
        set-ArePlain _ (demo_client "111111" "11111111")
          (demo_client-HasPlainScopes "111111" "11111111")
          (set-ArePlain _ (demo_client "000000" "999999")
            (demo_client-HasPlainScopes "000000" "999999") none-ArePlain)) in
      let sound =
        Reach-IsSoundFor ext parse st.site known plain (first st clock draws) w reached
          (rw tokens (new_tokens-HasSoundTokens known), refl) in
      rw sound.1 sound.0
