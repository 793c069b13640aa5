-- ===== src/Tests/Scopes.antt =====
-- The theorems on scopes, PKCE, redirect URIs and the stores, at concrete inputs.
use oauth_2_0_and_open_id_co.Redirect.{
  is_redirect_uri_registered_iff, Registers, is_redirect_uri_registered,
}
use oauth_2_0_and_open_id_co.Scope.Split.{field_split-eq-words}
use oauth_2_0_and_open_id_co.Scope.Words.{words}
use oauth_2_0_and_open_id_co.Tests.Sample.{code, world}
use oauth_2_0_and_open_id_co.Scope.Join.{split_spaces-join}
use oauth_2_0_and_open_id_co.Action.{err, ok}
use oauth_2_0_and_open_id_co.Dict
use oauth_2_0_and_open_id_co.Store.{Client, AuthorizationCode, code_expiry}
use oauth_2_0_and_open_id_co.Time.{second, Time}
use oauth_2_0_and_open_id_co.Tests.Sample.{client}
use oauth_2_0_and_open_id_co.Expiry.Refines.{
  deletes, sweeps, fetches, serve-eq-promise, creates, promise, Call, serve, IsOrdered,
}
use oauth_2_0_and_open_id_co.Scope.Laws.{
  is_scope_narrowed_iff, contains_scope_iff, validate_client_scope_iff, Grants, HasPlainScopes,
}
use oauth_2_0_and_open_id_co.Tests.Runs.{running}
use oauth_2_0_and_open_id_co.Errors.{err_invalid_scope, oauth, Error}
use oauth_2_0_and_open_id_co.Scope.{
  space, split_spaces, field_split, contains_scope, is_scope_narrowed, validate_client_scope,
}
use oauth_2_0_and_open_id_co.Base.{
  ◌≢◌, refl, eq_iff, [], ◌*◌, ◌∷◌, All, none, Has, ◌⊎◌, ◌↔◌, true, arith, join, ◌≡◌, List, String,
}

abbrev quote : String → String
quote s = s

validate_client_scope_iff_example :
    (validate_client_scope quote client "read" ≡ ok "read") ↔ Grants client "read" "read"
validate_client_scope_iff_example = validate_client_scope_iff quote client "read" "read"

abbrev admin_refused : Error
admin_refused = oauth (err_invalid_scope "scope admin is not allowed for client app")

admin_run : validate_client_scope quote client "read admin" ≡ err admin_refused
unfolding running Dict.empty
admin_run = refl

plain_scopes : HasPlainScopes client
unfolding running
plain_scopes = ground (arith, eq_iff "openid" "", eq_iff "email" "", eq_iff "read" "")

whole_run : validate_client_scope quote client "" ≡ ok "openid email read"
unfolding running
whole_run = refl

is_scope_narrowed_iff_example : (is_scope_narrowed "read" "openid read" ≡ true) ↔ (
    (◌≡◌ {A = String} "openid read" "")
    ⊎ All (λ s. Has s (split_spaces "openid read")) (split_spaces "read"))
is_scope_narrowed_iff_example = is_scope_narrowed_iff "read" "openid read"

contains_scope_iff_example :
    (contains_scope "openid read" "read" ≡ true) ↔ Has "read" (split_spaces "openid read")
contains_scope_iff_example = contains_scope_iff "openid read" "read"

field_split-eq-words_example : field_split " openid  read" space ≡ words space " openid  read"
field_split-eq-words_example = field_split-eq-words " openid  read" space refl

split_spaces-join_example : split_spaces (join client.scopes " ") ≡ client.scopes
split_spaces-join_example = split_spaces-join client.scopes plain_scopes

-- A code is stored, found, swept, looked for when it has expired, and deleted.
abbrev history : List (Time × Call AuthorizationCode)
history =
    (1, creates "c1" code)
    ∷ (2, fetches "c1")
    ∷ (3, sweeps)
    ∷ (61 * second, fetches "c1")
    ∷ (61 * second, deletes "c1")
    ∷ []

history-IsOrdered : IsOrdered 0 history
history-IsOrdered = ground arith

serve-eq-promise_example :
    serve code_expiry Dict.empty history ≡ promise code_expiry (λ key. none) history
serve-eq-promise_example = serve-eq-promise code_expiry history history-IsOrdered

abbrev callback : String
callback = "https://app/cb"

is_redirect_uri_registered_iff_example :
    (is_redirect_uri_registered world.server "app" callback ≡ true) ↔ (
      (callback ≢ "")
      × ((id : String) × (client : Client) × Registers world.server "app" callback id client))
is_redirect_uri_registered_iff_example = is_redirect_uri_registered_iff world.server "app" callback
