-- ===== src/Grant/Issue.antt =====
-- Issuing tokens: what is answered, what is stored, and what stays.
use oauth_2_0_and_open_id_co.Grant.Parts.{SameServer, Extends}
use oauth_2_0_and_open_id_co.Dict.{get-put}
use oauth_2_0_and_open_id_co.Store.{TokenInfo}
use oauth_2_0_and_open_id_co.Time.{whole_seconds, add}
use oauth_2_0_and_open_id_co.Dict
use oauth_2_0_and_open_id_co.Encoding.{raw_url_encode, Bytes}
use oauth_2_0_and_open_id_co.Action.{then_ok, pure, read, ◌>>=◌, Action, ok, proceed}
use oauth_2_0_and_open_id_co.Grant.{refresh_info, access_info, TokenResponse, issue_token_pair}
use oauth_2_0_and_open_id_co.Generator.{refresh_token_bytes, sign_access_token, random_string}
use oauth_2_0_and_open_id_co.Server.{Server, wrap_result, World}
use oauth_2_0_and_open_id_co.Base.{
  ◌==◌, false, true, if◌then◌else◌, Bool, refl, ◌∙◌, ap, arith, suc, some, ◌≡◌, String,
}
use oauth_2_0_and_open_id_co.External.{failure, value, Reply, External}
use oauth_2_0_and_open_id_co.Store

module _ (ext : External) (client_id user_id scope : String) where
  -- The stores hold the two tokens of the answer, with the client, the user and the scope. `w` is the
  -- world before the call.
  pub record IsIssued (w w' : World) (resp : TokenResponse) : Type 0 where
    pub signed :
        sign_access_token ext w.generator (ext.now w.clock) client_id user_id scope
        ≡ ok resp.access_token
    pub accesses :
        (t : String)
        → Dict.get w'.tokens.access_tokens t ≡ (
            if resp.access_token == t
            then some (
                access_info resp.access_token client_id user_id scope
                  (add (ext.now w.clock) w.generator.access_expiry))
            else Dict.get w.tokens.access_tokens t)
    pub refreshes :
        (t : String)
        → Dict.get w'.tokens.refresh_tokens t ≡ (
            if resp.refresh_token == t
            then some (
                refresh_info resp.access_token resp.refresh_token client_id user_id scope
                  (add (ext.now (suc w.clock)) w.generator.refresh_expiry))
            else Dict.get w.tokens.refresh_tokens t)
    pub drawn :
        (b : Bytes) × (ext.rand_read w.draws refresh_token_bytes ≡ value b)
        × (resp.refresh_token ≡ raw_url_encode b)
    pub token_type : resp.token_type ≡ "Bearer"
    pub expires_in : resp.expires_in ≡ whole_seconds w.generator.access_expiry
    pub granted : resp.scope ≡ scope
    pub codes : w'.auth_codes ≡ w.auth_codes
    pub clients : w'.clients ≡ w.clients
    pub users : w'.user_store ≡ w.user_store

  drawn_bytes :
      (r : Reply Bytes) (text refresh : String)
      → wrap_result text (random_string r) ≡ ok refresh
      → (b : Bytes) × (r ≡ value b) × (refresh ≡ raw_url_encode b)
  unfolding random_string
  drawn_bytes (value b) text refresh h = (b, refl, cc)
  drawn_bytes (failure e) text refresh h = cc

  abbrev info_at : World → String → TokenInfo
  info_at w access =
      access_info access client_id user_id scope (add (ext.now w.clock) w.generator.access_expiry)

  abbrev refresh_at : World → String → String → TokenInfo
  refresh_at w access refresh =
      refresh_info access refresh client_id user_id scope
        (add (ext.now (suc w.clock)) w.generator.refresh_expiry)

  abbrev pub answer_of : World → String → String → TokenResponse
  answer_of w access refresh = record {
    access_token = access;
    token_type = "Bearer";
    expires_in = whole_seconds w.generator.access_expiry;
    refresh_token = refresh;
    scope = scope;
    id_token = "";
  }

  abbrev pub world_of : World → String → String → World
  world_of w access refresh = record {
    server = record w.server {
      tokens = record w.tokens {
        access_tokens = Dict.put w.tokens.access_tokens access (info_at w access);
        refresh_tokens = Dict.put w.tokens.refresh_tokens refresh (refresh_at w access refresh);
      };
    };
    clock = suc (suc w.clock);
    draws = suc w.draws;
  }

  -- The call succeeds when the token is signed and the random source delivers.
  pub issue_token_pair_of :
      (w : World) (access refresh : String)
      → sign_access_token ext w.generator (ext.now w.clock) client_id user_id scope ≡ ok access
      → random_string (ext.rand_read w.draws refresh_token_bytes) ≡ ok refresh
      → issue_token_pair ext client_id user_id scope w
        ≡ (ok (answer_of w access refresh), world_of w access refresh)
  unfolding issue_token_pair proceed Store.create_access_token Store.create_refresh_token
  issue_token_pair_of w access refresh signed drawn =
      rw (signed, issue_token_pair, proceed) (rw (drawn, proceed) refl)

  issue_token_pair-eq :
      (w w' : World) (resp : TokenResponse)
      → issue_token_pair ext client_id user_id scope w ≡ (ok resp, w')
      → (sign_access_token ext w.generator (ext.now w.clock) client_id user_id scope
          ≡ ok resp.access_token)
        × (wrap_result "server_error: failed to generate refresh token: "
              (random_string (ext.rand_read w.draws refresh_token_bytes))
            ≡ ok resp.refresh_token)
        × (resp ≡ answer_of w resp.access_token resp.refresh_token)
        × (w' ≡ world_of w resp.access_token resp.refresh_token)
  unfolding issue_token_pair proceed Store.create_access_token Store.create_refresh_token
  issue_token_pair-eq w w' resp h = ground arith

  -- A successful call has signed an access token for the client, the user and the scope and drawn a
  -- refresh token, stored both, and left every other token, the codes and the clients as they were.
  pub issue_token_pair-IsIssued :
      (w w' : World) (resp : TokenResponse)
      → issue_token_pair ext client_id user_id scope w ≡ (ok resp, w')
      → IsIssued w w' resp
  issue_token_pair-IsIssued w w' resp h =
      let (signed, drawn, answer, world) = issue_token_pair-eq w w' resp h in
      let access = w.tokens.access_tokens in
      let refresh = w.tokens.refresh_tokens in
      record {
        signed = signed;
        accesses = λ t. rw world (get-put access resp.access_token _ t);
        refreshes = λ t. rw world (get-put refresh resp.refresh_token _ t);
        drawn = drawn_bytes _ _ resp.refresh_token drawn;
        token_type = ap (λ (r : TokenResponse). r.token_type) answer;
        expires_in = ap (λ (r : TokenResponse). r.expires_in) answer;
        granted = ap (λ (r : TokenResponse). r.scope) answer;
        codes = ap (λ (v : World). v.auth_codes) world;
        clients = ap (λ (v : World). v.clients) world;
        users = ap (λ (v : World). v.user_store) world;
      }

  -- An ID token that is filled in later, and the clock, change nothing of this.
  pub IsIssued-Extends :
      (w w1 w' : World) (first resp : TokenResponse)
      → IsIssued w w1 first
      → Extends first resp
      → SameServer w1 w'
      → IsIssued w w' resp
  IsIssued-Extends w w1 w' first resp v ext same =
      let tokens : w'.tokens ≡ w1.tokens = ap (λ (s : Server). s.tokens) same in
      let a : resp.access_token ≡ first.access_token =
        ap (λ (r : TokenResponse). r.access_token) ext in
      let r : resp.refresh_token ≡ first.refresh_token =
        ap (λ (r : TokenResponse). r.refresh_token) ext in
      record {
        signed = v.signed ∙ cc a;
        accesses = λ t. rw (tokens, a) (v.accesses t);
        refreshes = λ t. rw (tokens, a, r) (v.refreshes t);
        drawn = (v.drawn.0, v.drawn.1, r ∙ v.drawn.2);
        token_type = ap (λ (r : TokenResponse). r.token_type) ext ∙ v.token_type;
        expires_in = ap (λ (r : TokenResponse). r.expires_in) ext ∙ v.expires_in;
        granted = ap (λ (r : TokenResponse). r.scope) ext ∙ v.granted;
        codes = ap (λ (s : Server). s.auth_codes) same ∙ v.codes;
        clients = ap (λ (s : Server). s.clients) same ∙ v.clients;
        users = ap (λ (s : Server). s.user_store) same ∙ v.users;
      }

  -- Tokens are issued, and an ID token is added to the answer if a test asks for it.
  pub issue_and_finish :
      (include : World → Bool) (extra : TokenResponse → Action World TokenResponse) (w w' : World)
      (resp : TokenResponse)
      → ((first : TokenResponse) (v v' : World)
          → extra first v ≡ (ok resp, v')
          → Extends first resp × SameServer v v')
      → (issue_token_pair ext client_id user_id scope >>= λ first.
            read include >>= λ b. if b then extra first else pure first)
          w
        ≡ (ok resp, w')
      → IsIssued w w' resp
  issue_and_finish include extra w w' resp keeps h =
      then_ok (issue_token_pair ext client_id user_id scope w) _ h λ first w1 issued h1.
        then_ok (read include w1) _ h1 λ b w2 asked h2.
          let done = finish first b w2 h2 in
          let same : w2 ≡ w1 = cc in
          IsIssued-Extends w w1 w' first resp (issue_token_pair-IsIssued w w1 first issued) done.0
            (rw same at done.1)
    where
      finish :
          (first : TokenResponse) (b : Bool) (v : World)
          → (if b then extra first else pure first) v ≡ (ok resp, w')
          → Extends first resp × SameServer v w'
      finish first true v q = keeps first v w' q
      finish first false v q = (cc, cc)
