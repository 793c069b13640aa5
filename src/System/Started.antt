-- ===== src/System/Started.antt =====
-- The server that cmd/server/main.go starts, after any requests and clean-up rounds.
use oauth_2_0_and_open_id_co.Grant.Exchange.{grant_authorization_code-IsExchanged}
use oauth_2_0_and_open_id_co.Pkce.{s256}
use oauth_2_0_and_open_id_co.Dict
use oauth_2_0_and_open_id_co.Dict.{get-empty, Dict}
use oauth_2_0_and_open_id_co.Store
use oauth_2_0_and_open_id_co.Store.{ClientStore, AuthorizationCode}
use oauth_2_0_and_open_id_co.System.{Reach}
use oauth_2_0_and_open_id_co.Action.{Result-cases, ok}
use oauth_2_0_and_open_id_co.Base.{◌≢◌, some, arith, inr, inl, ◌≡◌, ℕ}
use oauth_2_0_and_open_id_co.Service.{setup_password_auth}
use oauth_2_0_and_open_id_co.Grant.{grant_authorization_code, TokenResponse, TokenRequest}
use oauth_2_0_and_open_id_co.System.Codes.{Reach-HasSoundCodes, HasSoundCodes}
use oauth_2_0_and_open_id_co.Server.{new_server, register_client, set_password_auth_handler, World}
use oauth_2_0_and_open_id_co.Uri.{ParseUri}
use oauth_2_0_and_open_id_co.Startup.{
  with_key, configured, private_key, Started, start_with, start, Platform,
}
use oauth_2_0_and_open_id_co.External.{External}

-- The server as it was started, whenever the clock and the random source are first read.
abbrev pub first : Started → ℕ → ℕ → World
first st clock draws = record { server = st.server; clock = clock; draws = draws }

module _ (ext : External) (p : Platform) (parse : ParseUri) where
  start-new_codes :
      (st : Started) → start ext p ≡ ok st → st.server.auth_codes ≡ Store.new_auth_code_store
  unfolding start start_with setup_password_auth set_password_auth_handler register_client
      new_server with_key
  start-new_codes st h = elim (Result-cases (private_key p (configured p))) [
    | inl (key, q) ↦ ground arith
    | inr (e, q) ↦ cc (rw q at h)
  ]

  new_codes-HasSoundCodes :
      (clients : ClientStore) → HasSoundCodes Store.new_auth_code_store clients
  unfolding Store.new_auth_code_store
  new_codes-HasSoundCodes clients key code there =
      ground (arith, get-empty {V = AuthorizationCode} key)

  -- Every code that a started server holds, after any requests of any browsers, each through the
  -- router, and any clean-up rounds, stands under its own text, has a non-empty S256 challenge, and
  -- is for a registered client and a redirect URI of its list.
  pub Reach-IsSound :
      (st : Started) (clock draws : ℕ) (w : World)
      → start ext p ≡ ok st
      → Reach ext parse st.site (first st clock draws) w
      → HasSoundCodes w.auth_codes w.clients
  Reach-IsSound st clock draws w started reached =
      Reach-HasSoundCodes ext parse st.site (first st clock draws) w reached
        (rw (start-new_codes st started) (new_codes-HasSoundCodes st.server.clients))

  -- In such a server, an exchange of a code that succeeds has verified PKCE: the challenge of the
  -- stored code is not empty, and it is the S256 challenge of the verifier.
  pub Reach-verified :
      (st : Started) (clock draws : ℕ) (w w' : World) (req : TokenRequest) (resp : TokenResponse)
      → start ext p ≡ ok st
      → Reach ext parse st.site (first st clock draws) w
      → grant_authorization_code ext req w ≡ (ok resp, w')
      → (code : AuthorizationCode) × (Dict.get w.auth_codes.codes req.code ≡ some code)
        × (code.code_challenge ≢ "")
        × (s256 ext.sum256 req.code_verifier ≡ code.code_challenge)
  Reach-verified st clock draws w w' req resp started reached h =
      let done = grant_authorization_code-IsExchanged ext req w w' resp h in
      let sound = Reach-IsSound st clock draws w started reached req.code done.code done.stored in
      elim done.verified [
        | inl empty ↦ absurd (sound.challenge empty)
        | inr (method, verified) ↦ (done.code, done.stored, sound.challenge, verified)
      ]
