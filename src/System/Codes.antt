-- ===== src/System/Codes.antt =====
-- The codes of a server that has been started and has served any requests.
use oauth_2_0_and_open_id_co.Bearer.Kept.{revoke_token-OfCodes, validate_bearer_token-OfCodes}
use oauth_2_0_and_open_id_co.Limiter.{RateLimiter}
use oauth_2_0_and_open_id_co.Http.{Visit, HttpRequest}
use oauth_2_0_and_open_id_co.Dict.{get-put}
use oauth_2_0_and_open_id_co.System.Kept.{serve_request-IsKept}
use oauth_2_0_and_open_id_co.Grant.Frame.{OfCodes}
use oauth_2_0_and_open_id_co.System.{readings, tokens_cleaned, codes_cleaned, served, Reach, Step}
use oauth_2_0_and_open_id_co.Server.{World}
use oauth_2_0_and_open_id_co.Authorize.Kept.{Keeps-authorize_request, IsAccepted}
use oauth_2_0_and_open_id_co.Dict
use oauth_2_0_and_open_id_co.Router.{serve_request, Site}
use oauth_2_0_and_open_id_co.Time.{Time}
use oauth_2_0_and_open_id_co.Uri.{ParseUri}
use oauth_2_0_and_open_id_co.Authorize.{issued_code, AuthorizeRequest}
use oauth_2_0_and_open_id_co.Grant.Kept.{Keeps-token, cleanup_codes-Loses, Loses}
use oauth_2_0_and_open_id_co.Base.{
  arith, inr, eq-of-==, inl, ◌==◌, Has, Bool-cases, some, ◌≢◌, ◌≡◌, String,
}
use oauth_2_0_and_open_id_co.External.{External}
use oauth_2_0_and_open_id_co.Store.{Client, AuthorizationCode, AuthCodeStore, ClientStore}
use oauth_2_0_and_open_id_co.Store

-- A stored code has an S256 challenge, and is for a registered client and a redirect URI of its list.
pub record IsSoundCode (clients : ClientStore) (key : String) (code : AuthorizationCode)
    : Type 0 where
  pub named : code.code ≡ key
  pub challenge : code.code_challenge ≢ ""
  pub method : code.code_challenge_method ≡ "S256"
  pub client : Client
  pub registered : Store.get_by_id clients code.client_id ≡ some client
  pub redirect : Has code.redirect_uri client.redirect_uris

abbrev pub HasSoundCodes : AuthCodeStore → ClientStore → Type 0
HasSoundCodes s clients =
    (key : String) (code : AuthorizationCode)
    → Dict.get s.codes key ≡ some code
    → IsSoundCode clients key code

Loses-HasSoundCodes :
    (s t : AuthCodeStore) (clients : ClientStore)
    → Loses s t
    → HasSoundCodes s clients
    → HasSoundCodes t clients
Loses-HasSoundCodes s t clients lost h key code there = h key code (lost key code there)

create_code-HasSoundCodes :
    (s : AuthCodeStore) (clients : ClientStore) (req : AuthorizeRequest) (code : String)
    (now : Time)
    → IsAccepted clients req
    → HasSoundCodes s clients
    → HasSoundCodes (Store.create_code s (issued_code req code now)) clients
unfolding Store.create_code
create_code-HasSoundCodes s clients req code now accepted h key c there =
    elim (Bool-cases (code == key)) [
      | inl p ↦
          let stored = get-put s.codes code (issued_code req code now) key in
          let same : c ≡ issued_code req code now = ground (arith, stored) in
          rw same (record {
            named = eq-of-== code key p;
            challenge = accepted.0;
            method = accepted.1;
            client = accepted.2;
            registered = accepted.3;
            redirect = accepted.4;
          })
      | inr p ↦ h key c (ground (arith, get-put s.codes code (issued_code req code now) key))
    ]

module _ (ext : External) (parse : ParseUri) (site : Site) where
  served-HasSoundCodes :
      (r : HttpRequest) (s : RateLimiter × Visit)
      → OfCodes HasSoundCodes s.1.world
      → OfCodes HasSoundCodes (serve_request ext parse site r s).1.1.world
  served-HasSoundCodes =
      serve_request-IsKept ext (OfCodes HasSoundCodes)
        (Keeps-authorize_request HasSoundCodes create_code-HasSoundCodes ext)
        (Keeps-token HasSoundCodes Loses-HasSoundCodes ext) (revoke_token-OfCodes ext HasSoundCodes)
        (validate_bearer_token-OfCodes ext HasSoundCodes) (λ w h. h) parse site

  Step-HasSoundCodes :
      (w w' : World) → Step ext parse site w w' → OfCodes HasSoundCodes w → OfCodes HasSoundCodes w'
  Step-HasSoundCodes w w' (served r session rl e) h =
      rw e (served-HasSoundCodes r (rl, record { world = w; session = session }) h)
  Step-HasSoundCodes w w' (codes_cleaned now e) h = rw e (
      Loses-HasSoundCodes w.auth_codes (Store.cleanup_codes w.auth_codes now) w.clients
        (cleanup_codes-Loses w.auth_codes now) h)
  Step-HasSoundCodes w w' (tokens_cleaned now e) h = rw e h
  Step-HasSoundCodes w w' (readings clock draws e) h = rw e h

  pub Reach-HasSoundCodes :
      (w w' : World)
      → Reach ext parse site w w'
      → OfCodes HasSoundCodes w
      → OfCodes HasSoundCodes w'
  Reach-HasSoundCodes w _ Reach.here h = h
  Reach-HasSoundCodes w w' (Reach.next {w = w1} before step) h =
      Step-HasSoundCodes w1 w' step (Reach-HasSoundCodes w w1 before h)
