-- ===== src/Handler/Token/Credentials.antt =====
-- The two places of a client's credentials: the header and the body.
use oauth_2_0_and_open_id_co.BasicAuth.{parse_basic_auth}
use oauth_2_0_and_open_id_co.Handler.Token.{
  run_revoke, revoke_handler, run_token, token_handler, token_request,
}
use oauth_2_0_and_open_id_co.Handler.{choose_client, request_client}
use oauth_2_0_and_open_id_co.Uri.{get_value-set_value, get_value, set_value}
use oauth_2_0_and_open_id_co.Server.{World}
use oauth_2_0_and_open_id_co.Base.{◌∙◌, refl, ==-of-ne, some, ◌≢◌, false, ◌≡◌, ◌==◌, String}
use oauth_2_0_and_open_id_co.External.{External}
use oauth_2_0_and_open_id_co.Http.{HttpRequest}

-- The request with these credentials in its body, and none in its header.
abbrev pub in_body : HttpRequest → String → String → HttpRequest
in_body r id secret = record r {
  authorization = "";
  form = set_value (set_value r.form "client_id" id) "client_secret" secret;
}

module _ (r : HttpRequest) (id secret : String) where
  kept_value :
      (k : String)
      → ("client_id" == k) ≡ false
      → ("client_secret" == k) ≡ false
      → get_value (in_body r id secret).form k ≡ get_value r.form k
  kept_value k n m =
      let first = set_value r.form "client_id" id in
      get_value-set_value first "client_secret" k secret
      ∙ rw m (get_value-set_value r.form "client_id" k id ∙ rw n refl)

  header_client :
      parse_basic_auth r.authorization ≡ (id, secret)
      → id ≢ ""
      → get_value r.form "client_id" ≡ ""
      → request_client r ≡ some (id, secret)
  unfolding request_client choose_client
  header_client header named free = rw (header, ==-of-ne id "" named, free) refl

  body_client : request_client (in_body r id secret) ≡ some (id, secret)
  unfolding request_client choose_client parse_basic_auth
  body_client =
      let first = set_value r.form "client_id" id in
      rw
        (
          get_value-set_value first "client_secret" "client_id" secret,
          get_value-set_value r.form "client_id" "client_id" id,
          get_value-set_value first "client_secret" "client_secret" secret,
        )
        refl

  same_token_request : token_request (in_body r id secret) id secret ≡ token_request r id secret
  unfolding token_request
  same_token_request =
      rw
        (
          kept_value "grant_type" refl refl,
          kept_value "code" refl refl,
          kept_value "redirect_uri" refl refl,
          kept_value "scope" refl refl,
          kept_value "username" refl refl,
          kept_value "password" refl refl,
          kept_value "refresh_token" refl refl,
          kept_value "code_verifier" refl refl,
        )
        refl

module _ (ext : External) (r : HttpRequest) (w : World) where
  -- A client that authenticates with the header gets the answer, from the token and from the
  -- revocation handler, that it gets with the same credentials in the body, if the body names no
  -- client besides.
  pub handlers-in_body :
      (id secret : String)
      → parse_basic_auth r.authorization ≡ (id, secret)
      → id ≢ ""
      → get_value r.form "client_id" ≡ ""
      → (token_handler ext r w ≡ token_handler ext (in_body r id secret) w)
        × (revoke_handler ext r w ≡ revoke_handler ext (in_body r id secret) w)
  unfolding token_handler run_token revoke_handler run_revoke
  handlers-in_body id secret header named free =
      let first = header_client r id secret header named free in
      let second = body_client r id secret in
      (
        rw (first, second, same_token_request r id secret) refl,
        rw
            (
              first,
              second,
              kept_value r id secret "token" refl refl,
              kept_value r id secret "token_type_hint" refl refl,
            )
            refl,
      )
