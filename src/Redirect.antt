-- ===== src/Redirect.antt =====
-- The redirect URIs: `validateRedirectURI` of internal/server/authorize.go and
-- `IsRedirectURIRegistered` of server.go.
use oauth_2_0_and_open_id_co.Base.{
  Option-cases, eq-of-==, ap, ==-of-ne, refl, inr, inl, ◌⊎◌, Bool-cases, String, Bool, true, false,
  List, [], ◌∷◌, Option, none, some, ◌==◌, if◌then◌else◌, contains, contains_iff, Has, ◌≡◌, ◌≢◌,
  ◌↔◌, arith, eq_iff,
}
use oauth_2_0_and_open_id_co.Dict
use oauth_2_0_and_open_id_co.Dict.{Dict, Has-range_iff}
use oauth_2_0_and_open_id_co.Store
use oauth_2_0_and_open_id_co.Store.{Client}
use oauth_2_0_and_open_id_co.Server.{Server}

unfoldable pub validate_redirect_uri : List String → String → Bool
unfolding contains
validate_redirect_uri registered_uris redirect_uri =
    if redirect_uri == "" then false else contains registered_uris redirect_uri

-- The loop over all clients, which ends at the first one that has the URI.
any_registers : List (String × Client) → String → Bool
unfolding validate_redirect_uri
any_registers [] redirect_uri = false
any_registers ((id, client) ∷ clients) redirect_uri =
    let rest = any_registers clients redirect_uri in
    if validate_redirect_uri client.redirect_uris redirect_uri then true else rest

registered_by : Option Client → String → Bool
unfolding validate_redirect_uri
registered_by none redirect_uri = false
registered_by (some client) redirect_uri = validate_redirect_uri client.redirect_uris redirect_uri

unfoldable pub is_redirect_uri_registered : Server → String → String → Bool
unfolding registered_by any_registers
is_redirect_uri_registered s client_id redirect_uri =
    if redirect_uri == ""
    then false
    else if client_id == ""
    then any_registers (Dict.range s.clients.clients) redirect_uri
    else registered_by (Store.get_by_id s.clients client_id) redirect_uri

pub validate_redirect_uri_iff :
    (registered_uris : List String) (redirect_uri : String)
    → (validate_redirect_uri registered_uris redirect_uri ≡ true)
      ↔ ((redirect_uri ≢ "") × Has redirect_uri registered_uris)
unfolding validate_redirect_uri
validate_redirect_uri_iff registered_uris redirect_uri =
    ground (arith, eq_iff redirect_uri "", contains_iff registered_uris redirect_uri)

-- Some client in the list has the URI.
abbrev pub IsRegisteredBy : String → String → Client → List (String × Client) → Type 0
IsRegisteredBy redirect_uri id client clients =
    Has (id, client) clients × Has redirect_uri client.redirect_uris

any_registers_of :
    (clients : List (String × Client)) (redirect_uri id : String) (client : Client)
    → redirect_uri ≢ ""
    → IsRegisteredBy redirect_uri id client clients
    → any_registers clients redirect_uri ≡ true
unfolding any_registers
any_registers_of [] redirect_uri id client full h = ground arith
any_registers_of ((j, c) ∷ clients) redirect_uri id client full h =
    let here = validate_redirect_uri_iff c.redirect_uris redirect_uri in
    elim (Bool-cases (validate_redirect_uri c.redirect_uris redirect_uri)) [
      | inl e ↦ rw e refl
      | inr e ↦ ground (arith, here, any_registers_of clients redirect_uri id client full)
    ]

any_registers-true :
    (clients : List (String × Client)) (redirect_uri : String)
    → any_registers clients redirect_uri ≡ true
    → (redirect_uri ≢ "")
      × ((id : String) × (client : Client) × IsRegisteredBy redirect_uri id client clients)
unfolding any_registers
any_registers-true [] redirect_uri h = ground arith
any_registers-true ((j, c) ∷ clients) redirect_uri h =
    elim (Bool-cases (validate_redirect_uri c.redirect_uris redirect_uri)) [
      | inl e ↦
          let (full, listed) = (validate_redirect_uri_iff c.redirect_uris redirect_uri).0 e in
          (full, (j, c, (inl refl, listed)))
      | inr e ↦
          let (full, (id, client, (m, listed))) =
            any_registers-true clients redirect_uri (rw e at h) in
          (full, (id, client, (inr m, listed)))
    ]

-- The client that makes a redirect URI count as registered.
abbrev pub Registers : Server → String → String → String → Client → Type 0
Registers s client_id redirect_uri id client =
    (Store.get_by_id s.clients id ≡ some client)
    × Has redirect_uri client.redirect_uris
    × ((client_id ≡ "") ⊎ (id ≡ client_id))

named_only :
    (client_id id : String) → client_id ≢ "" → (client_id ≡ "") ⊎ (id ≡ client_id) → id ≡ client_id
named_only client_id id n h = ground (arith, n, h)

registered_of :
    (s : Server) (client_id redirect_uri id : String) (client : Client)
    → redirect_uri ≢ ""
    → Registers s client_id redirect_uri id client
    → is_redirect_uri_registered s client_id redirect_uri ≡ true
unfolding is_redirect_uri_registered registered_by
registered_of s client_id redirect_uri id client full (there, listed, which) =
    let valid = (validate_redirect_uri_iff client.redirect_uris redirect_uri).1 (full, listed) in
    rw (==-of-ne redirect_uri "" full) (elim (Bool-cases (client_id == "")) [
      | inl e ↦ rw e (
          any_registers_of (Dict.range s.clients.clients) redirect_uri id client full (
            (Dict.Has-range_iff s.clients.clients id client).1 (unfold Store.get_by_id in there),
            listed,
          ))
      | inr n ↦
          let named : id ≡ client_id =
            named_only client_id id (λ e. absurd (cc (n, ap (λ x. x == "") e))) which in
          rw (n, ← named, there) valid
    ])

registered-Registers :
    (s : Server) (client_id redirect_uri : String)
    → is_redirect_uri_registered s client_id redirect_uri ≡ true
    → (redirect_uri ≢ "")
      × ((id : String) × (client : Client) × Registers s client_id redirect_uri id client)
unfolding is_redirect_uri_registered registered_by
registered-Registers s client_id redirect_uri h = elim (Bool-cases (redirect_uri == "")) [
  | inl e ↦ (let bad : false ≡ true = rw e at h in absurd (cc bad))
  | inr full ↦ elim (Bool-cases (client_id == "")) [
    | inl e ↦
        let (ne, (id, client, (m, listed))) =
          any_registers-true (Dict.range s.clients.clients) redirect_uri (rw (full, e) at h) in
        (
          ne,
          (
            id,
            client,
            (
              unfold Store.get_by_id in (Dict.Has-range_iff s.clients.clients id client).0 m,
              listed,
              inl (eq-of-== client_id "" e),
            ),
          ),
        )
    | inr n ↦ elim (Option-cases (Store.get_by_id s.clients client_id)) [
      | inl missing ↦ (let bad : false ≡ true = rw (full, n, missing) at h in absurd (cc bad))
      | inr (client, there) ↦
          let (ne, listed) =
            (validate_redirect_uri_iff client.redirect_uris redirect_uri).0
              (rw (full, n, there) at h) in
          (ne, (client_id, client, (there, listed, inr refl)))
    ]
  ]
]

-- A redirect URI counts as registered exactly when it is not empty and the named client has it, or,
-- where no client is named, some client has it.
pub is_redirect_uri_registered_iff :
    (s : Server) (client_id redirect_uri : String)
    → (is_redirect_uri_registered s client_id redirect_uri ≡ true) ↔ (
        (redirect_uri ≢ "")
        × ((id : String) × (client : Client) × Registers s client_id redirect_uri id client))
is_redirect_uri_registered_iff s client_id redirect_uri = (
  λ h. registered-Registers s client_id redirect_uri h,
  λ (full, (id, client, h)). registered_of s client_id redirect_uri id client full h,
)
