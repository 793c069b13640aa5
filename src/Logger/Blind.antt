-- ===== src/Logger/Blind.antt =====
-- What the log line shows of a body, and what it does not.
use oauth_2_0_and_open_id_co.Http.{Response}
use text.Mathlib.Text.{starts_with}
use oauth_2_0_and_open_id_co.Base.{
  subst, sym, ◌≡◌, String, Bool, true, false, Option, none, some, List, [], ◌∷◌, ◌==◌, refl, ap,
}
use oauth_2_0_and_open_id_co.Encoding.{Bytes}
use oauth_2_0_and_open_id_co.External.{External, Reply, value}
use oauth_2_0_and_open_id_co.Redact.{
  Json, Alike, is_sensitive, redact_json-Alike, redact_form, redact_values,
}
use oauth_2_0_and_open_id_co.Server.{World}
use oauth_2_0_and_open_id_co.Logger.{
  log_entry, LogEntry, Form, LoggedRequest, Outcome, logged_bodies, logged_json, request_logger,
}

-- Two forms that differ only in the values of sensitive keys.
pub data AlikeForms : Form → Form → Type 0 where
  ended : AlikeForms [] []
  secret :
      (k : String) (v w : List String) {f g : Form}
      → is_sensitive k ≡ true
      → AlikeForms f g
      → AlikeForms ((k, v) ∷ f) ((k, w) ∷ g)
  shown :
      (k : String) (v : List String) {f g : Form}
      → AlikeForms f g
      → AlikeForms ((k, v) ∷ f) ((k, v) ∷ g)

redact_form-AlikeForms : {f g : Form} → AlikeForms f g → redact_form f ≡ redact_form g
unfolding redact_form redact_values
redact_form-AlikeForms ended = refl
redact_form-AlikeForms (secret k v w hidden rest) =
    rw hidden (ap (λ t. (k, "[REDACTED]" ∷ []) ∷ t) (redact_form-AlikeForms rest))
redact_form-AlikeForms (shown k v rest) =
    ap (λ t. (k, redact_values k v) ∷ t) (redact_form-AlikeForms rest)

abbrev pub is_json : LoggedRequest → Bool
is_json r = starts_with r.content_type "application/json"

abbrev pub is_form : LoggedRequest → Bool
is_form r = starts_with r.content_type "application/x-www-form-urlencoded"

-- Two requests that differ only in what the log must not tell apart: in a JSON body or a form what
-- stands under sensitive keys, and with any other content type the whole body.
pub data AlikeBodies (unmarshal : String → Option Json) (r s : LoggedRequest) : Type 0 where
  json_bodies :
      (a b : String) (v w : Json)
      → is_json r ≡ true
      → r.body ≡ value a
      → s.body ≡ value b
      → (a == "") ≡ false
      → (b == "") ≡ false
      → unmarshal a ≡ some v
      → unmarshal b ≡ some w
      → Alike v w
      → AlikeBodies unmarshal r s
  forms :
      (f g : Form)
      → is_json r ≡ false
      → is_form r ≡ true
      → r.form ≡ some f
      → s.form ≡ some g
      → AlikeForms f g
      → AlikeBodies unmarshal r s
  other_bodies : is_json r ≡ false → is_form r ≡ false → AlikeBodies unmarshal r s

-- `s` is `r` with another body.
abbrev pub SameHead : LoggedRequest → LoggedRequest → Type 0
SameHead r s = s ≡ record r { body = s.body; form = s.form }

module _ (unmarshal : String → Option Json) where
  logged_json-Alike :
      (a b : String) (v w : Json)
      → (a == "") ≡ false
      → (b == "") ≡ false
      → unmarshal a ≡ some v
      → unmarshal b ≡ some w
      → Alike v w
      → logged_json unmarshal (value a) ≡ logged_json unmarshal (value b)
  logged_json-Alike a b v w some_a some_b parsed_a parsed_b alike =
      rw (some_a, some_b, parsed_a, parsed_b, redact_json-Alike v w alike) refl

  logged_bodies-Alike :
      (r s : LoggedRequest)
      → r.content_type ≡ s.content_type
      → AlikeBodies unmarshal r s
      → logged_bodies unmarshal r ≡ logged_bodies unmarshal s
  unfolding logged_bodies
  logged_bodies-Alike r s typed
        (json_bodies a b v w yes_json here there some_a some_b parsed_a parsed_b alike) =
      rw (sym typed, here, there, yes_json)
        (ap (λ x. (x, none)) (logged_json-Alike a b v w some_a some_b parsed_a parsed_b alike))
  logged_bodies-Alike r s typed (forms f g no_json yes_form here there alike) =
      rw (sym typed, here, there, no_json, yes_form)
        (ap (λ x. (none, some x)) (redact_form-AlikeForms alike))
  logged_bodies-Alike r s typed (other_bodies no_json no_form) =
      rw (sym typed, no_json, no_form) refl

module _ (ext : External) (unmarshal : String → Option Json) (errors_text : List String → String)
    (left_over : Bytes) {T : Type 0} where
  abbrev log_line :
      LoggedRequest
      → (T × World → Outcome × (T × World))
      → T × World
      → LogEntry × Response × (T × World)
  log_line = request_logger ext unmarshal errors_text left_over

  same_line :
      (r : LoggedRequest) (body : Reply String) (form : Option Form)
      (next : T × World → Outcome × (T × World)) (s0 : T × World)
      → logged_bodies unmarshal r ≡ logged_bodies unmarshal (record r { body = body; form = form })
      → log_line r next s0 ≡ log_line (record r { body = body; form = form }) next s0
  unfolding request_logger log_entry
  same_line r body form next s0 same = rw same refl

  -- The log line of a request, the response and the state after it do not depend on what stands under
  -- sensitive keys in a JSON body, at whatever depth, or in a form, nor on anything in a body of another
  -- content type: two requests that differ only there, and get the same treatment from the next
  -- handlers, are logged alike.
  pub request_logger-Alike :
      (r s : LoggedRequest) (next : T × World → Outcome × (T × World)) (s0 : T × World)
      → SameHead r s
      → AlikeBodies unmarshal r s
      → request_logger ext unmarshal errors_text left_over r next s0
        ≡ request_logger ext unmarshal errors_text left_over s next s0
  request_logger-Alike r s next s0 head alike =
      let typed : r.content_type ≡ s.content_type =
        ap (λ (x : LoggedRequest). x.content_type) (sym head) in
      subst (λ x. log_line r next s0 ≡ log_line x next s0) (sym head)
        (same_line r s.body s.form next s0 (
          subst (λ x. logged_bodies unmarshal r ≡ logged_bodies unmarshal x) head
            (logged_bodies-Alike unmarshal r s typed alike)))
