-- ===== src/Grant/Login.antt =====
-- Client authentication: what it has checked when it succeeds, and its two errors.
use oauth_2_0_and_open_id_co.Errors.{err_unauthorized_client, err_invalid_client, oauth, Error}
use oauth_2_0_and_open_id_co.Store
use mathlib.Core.Option.{some-injective}
use oauth_2_0_and_open_id_co.Action.{Result, err, ok, proceed}
use oauth_2_0_and_open_id_co.Grant.{validate_and_authenticate}
use oauth_2_0_and_open_id_co.Store.{Client}
use oauth_2_0_and_open_id_co.Server.{Server, validate_client, World}
use oauth_2_0_and_open_id_co.Base.{
  ◌∙◌, sym, refl, ◌↔◌, false, [], ◌∷◌, inr, concat, inl, Option-cases, ◌⊎◌, eq_iff, arith, true,
  some, ◌≡◌, String,
}

module _ (client_id client_secret grant_type : String) where
  abbrev pub validate : World → Result Client × World
  validate = validate_and_authenticate client_id client_secret grant_type

  -- The client is registered with this secret, and may use this grant type.
  abbrev pub IsAuthenticated : World → Client → Type 0
  IsAuthenticated w client =
      (Store.get_by_id w.clients client_id ≡ some client)
      × (client.secret ≡ client_secret)
      × (Store.is_grant_type_allowed client grant_type ≡ true)

  pub validate_and_authenticate-ok :
      (w w' : World) (client : Client)
      → validate w ≡ (ok client, w')
      → IsAuthenticated w client × (w' ≡ w)
  unfolding validate_and_authenticate proceed validate_client
  validate_and_authenticate-ok w w' client h = ground (arith, eq_iff client.secret client_secret)

  pub validate_and_authenticate_of :
      (w : World) (client : Client) → IsAuthenticated w client → validate w ≡ (ok client, w)
  unfolding validate_and_authenticate proceed validate_client
  validate_and_authenticate_of w client h = ground (arith, eq_iff client.secret client_secret)

  pub validate_and_authenticate-err :
      (w w' : World) (e : Error)
      → validate w ≡ (err e, w')
      → (w' ≡ w)
        × ((e ≡ oauth (err_invalid_client "authentication failed"))
            ⊎ (e
                ≡ oauth (
                    err_unauthorized_client
                      (concat (grant_type ∷ " grant is not allowed for this client" ∷ [])))))
  unfolding validate_and_authenticate proceed validate_client
  validate_and_authenticate-err w w' e h = ground arith

  pub validate_and_authenticate_refused :
      (w : World)
      → validate_client w.server client_id client_secret ≡ false
      → validate w ≡ (err (oauth (err_invalid_client "authentication failed")), w)
  unfolding validate_and_authenticate proceed
  validate_and_authenticate_refused w h = rw h refl

-- A client is validated exactly when it is registered with the secret.
pub validate_client_iff :
    (s : Server) (id secret : String)
    → (validate_client s id secret ≡ true) ↔ (
        (client : Client) × (Store.get_by_id s.clients id ≡ some client) × (client.secret ≡ secret))
unfolding validate_client
validate_client_iff s id secret = elim (Option-cases (Store.get_by_id s.clients id)) [
  | inl missing ↦ (λ h. absurd (ground arith), λ (c, there, same). absurd (cc))
  | inr (client, found) ↦ (
    λ h. (client, found, ground (arith, eq_iff client.secret secret)),
    λ (c, there, same).
        let e : c ≡ client = some-injective _ _ (sym there ∙ found) in
        rw found ((eq_iff client.secret secret).1 (rw e at same)),
  )
]
