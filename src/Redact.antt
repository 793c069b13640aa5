-- ===== src/Redact.antt =====
-- The redaction of logged forms and JSON bodies in internal/middleware/middleware.go. A parsed JSON
-- value is one of encoding/json: its numbers stay as texts here, and nothing reads them.
-- sensitiveFormKeys
use oauth_2_0_and_open_id_co.Base.{
  sym, ◌∙◌, inl, inr, refl, Has, ap, true, ◌≡◌, [], contains, ◌∷◌, if◌then◌else◌, Bool, String,
  List,
}

abbrev pub sensitive_form_keys : List String
sensitive_form_keys =
    "client_secret" ∷ "password" ∷ "code_verifier" ∷ "refresh_token" ∷ "access_token"
    ∷ "client_secret_id" ∷ []

abbrev pub is_sensitive : String → Bool
is_sensitive key = contains sensitive_form_keys key

mutual
  pub data Json : Type 0 where
    null : Json
    boolean : Bool → Json
    number text : String → Json
    array : Elements → Json
    object : Fields → Json

  -- []interface{}
  pub data Elements : Type 0 where
    no_elements : Elements
    element : Json → Elements → Elements

  -- map[string]interface{}
  pub data Fields : Type 0 where
    no_fields : Fields
    field : String → Json → Fields → Fields

mutual
  pub redact_json : Json → Json
  redact_json null = null
  redact_json (boolean b) = boolean b
  redact_json (number n) = number n
  redact_json (text s) = text s
  redact_json (array a) = array (redact_elements a)
  redact_json (object o) = object (redact_fields o)

  pub redact_elements : Elements → Elements
  redact_elements no_elements = no_elements
  redact_elements (element v rest) = element (redact_json v) (redact_elements rest)

  pub redact_fields : Fields → Fields
  redact_fields no_fields = no_fields
  redact_fields (field k v rest) =
      field k (if is_sensitive k then text "[REDACTED]" else redact_json v) (redact_fields rest)

-- The values of a form's key.
unfoldable pub redact_values : String → List String → List String
redact_values k v = if is_sensitive k then "[REDACTED]" ∷ [] else v

unfoldable pub redact_form : List (String × List String) → List (String × List String)
redact_form [] = []
redact_form ((k, v) ∷ form) = (k, redact_values k v) ∷ redact_form form

mutual
  -- Two values that differ only in what stands under sensitive keys.
  pub data Alike : Json → Json → Type 0 where
    same : (v : Json) → Alike v v
    arrays : {a b : Elements} → AlikeElements a b → Alike (array a) (array b)
    objects : {o p : Fields} → AlikeFields o p → Alike (object o) (object p)

  pub data AlikeElements : Elements → Elements → Type 0 where
    ended : AlikeElements no_elements no_elements
    next :
        {v w : Json} {a b : Elements}
        → Alike v w
        → AlikeElements a b
        → AlikeElements (element v a) (element w b)

  pub data AlikeFields : Fields → Fields → Type 0 where
    closed : AlikeFields no_fields no_fields
    secret :
        (k : String) (v w : Json) {o p : Fields}
        → is_sensitive k ≡ true
        → AlikeFields o p
        → AlikeFields (field k v o) (field k w p)
    open_field :
        (k : String) {v w : Json} {o p : Fields}
        → Alike v w
        → AlikeFields o p
        → AlikeFields (field k v o) (field k w p)

redact_secret :
    (k : String) (v w : Json) (o p : Fields)
    → is_sensitive k ≡ true
    → redact_fields o ≡ redact_fields p
    → redact_fields (field k v o) ≡ redact_fields (field k w p)
unfolding redact_json
redact_secret k v w o p hidden rest = rw hidden (ap (field k (text "[REDACTED]")) rest)

redact_open :
    (k : String) (v w : Json) (o p : Fields)
    → redact_json v ≡ redact_json w
    → redact_fields o ≡ redact_fields p
    → redact_fields (field k v o) ≡ redact_fields (field k w p)
unfolding redact_json
redact_open k v w o p here rest = cc (here, rest)

mutual
  unfolding redact_json

  redact_json_lem : {v w : Json} → Alike v w → redact_json v ≡ redact_json w
  redact_json_lem (same v) = refl
  redact_json_lem (arrays h) = ap array (redact_elements_lem h)
  redact_json_lem (objects h) = ap object (redact_fields_lem h)

  redact_elements_lem : {a b : Elements} → AlikeElements a b → redact_elements a ≡ redact_elements b
  redact_elements_lem ended = refl
  redact_elements_lem (next h rest) = cc (redact_json_lem h, redact_elements_lem rest)

  redact_fields_lem : {o p : Fields} → AlikeFields o p → redact_fields o ≡ redact_fields p
  redact_fields_lem closed = refl
  redact_fields_lem (secret k v w hidden rest) =
      redact_secret k v w _ _ hidden (redact_fields_lem rest)
  redact_fields_lem (open_field k h rest) =
      redact_open k _ _ _ _ (redact_json_lem h) (redact_fields_lem rest)

-- Nothing in a redacted body depends on what stands under a sensitive key, at whatever depth: two
-- bodies that differ only there are redacted to the same.
pub redact_json-Alike : (v w : Json) → Alike v w → redact_json v ≡ redact_json w
redact_json-Alike v w h = redact_json_lem h

-- After redaction, a form has no value but [REDACTED] under a sensitive key.
pub redact_form_hidden :
    (form : List (String × List String)) (k : String) (v : List String)
    → is_sensitive k ≡ true
    → Has (k, v) (redact_form form)
    → v ≡ "[REDACTED]" ∷ []
unfolding redact_form redact_values
redact_form_hidden [] k v hidden h = absurd h
redact_form_hidden ((j, u) ∷ form) k v hidden (inr m) = redact_form_hidden form k v hidden m
redact_form_hidden ((j, u) ∷ form) k v hidden (inl e) =
    let key : j ≡ k = ap (λ p. p.0) e in
    let kept : is_sensitive j ≡ true = ap is_sensitive key ∙ hidden in
    rw kept at (sym (ap (λ p. p.1) e))
