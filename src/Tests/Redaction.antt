-- ===== src/Tests/Redaction.antt =====
-- The theorems on redaction, at concrete inputs.
use oauth_2_0_and_open_id_co.Redact.{
  closed, no_fields, same, field, open_field, object, redact_values, objects, Json, redact_form,
  Alike, is_sensitive, text, secret,
}
use oauth_2_0_and_open_id_co.Base.{Has, true, ◌≡◌, String, [], ◌∷◌, inl, refl, contains}

abbrev pub login_body : String → Json
login_body password = object (field "user" (text "a") (field "password" (text password) no_fields))

is_hidden : is_sensitive "password" ≡ true
unfolding contains
is_hidden = refl

pub bodies-Alike : Alike (login_body "one") (login_body "two")
bodies-Alike =
    objects (open_field "user" (same (text "a")) (secret "password" _ _ is_hidden closed))

redacted-Has : Has ("password", "[REDACTED]" ∷ []) (redact_form (("password", "x" ∷ []) ∷ []))
unfolding redact_form redact_values contains
redacted-Has = inl refl
