-- ===== src/Middleware.antt =====
-- CORS, Session and RateLimit of internal/middleware/middleware.go, around the handler that comes next.
use oauth_2_0_and_open_id_co.Limiter.{allow, RateLimiter}
use oauth_2_0_and_open_id_co.Time.{Time}
use oauth_2_0_and_open_id_co.Http.{bare, error_json, with_header, Response, HttpRequest, Method}
use oauth_2_0_and_open_id_co.Base.{
  false, true, contains, [], if◌then◌else◌, Bool, ◌∷◌, String, List,
}

abbrev pub allowed_origins : List String
allowed_origins = "http://localhost:5173" ∷ "http://localhost:9096" ∷ []

-- The headers that CORS sets before the next handler runs.
unfoldable pub cors_headers : String → Response → Response
cors_headers origin r =
    let answer = with_header "Access-Control-Max-Age" "86400" (
      with_header "Access-Control-Allow-Credentials" "true" (
        with_header "Access-Control-Allow-Headers" "Content-Type, Authorization"
          (with_header "Access-Control-Allow-Methods" "GET, POST, OPTIONS" r))) in
    if contains allowed_origins origin
    then with_header "Access-Control-Allow-Origin" origin answer
    else answer

abbrev pub is_options : Method → Bool
is_options Method.options = true
is_options Method.get = false
is_options Method.post = false

module _ {ℓ} {S : Type ℓ} where
  -- CORS()
  unfoldable pub cors : HttpRequest → (S → Response × S) → S → Response × S
  cors r next s =
      if is_options r.method
      then (cors_headers r.origin (bare 204), s)
      else (cors_headers r.origin (next s).0, (next s).1)

abbrev pub slow_down : Response
slow_down = error_json 429 "slow_down" "rate limit exceeded, try again later"

-- RateLimit(limit, window), for a request at a moment
unfoldable pub rate_limit :
    {S : Type 0}
    → Time
    → String
    → (S → Response × S)
    → RateLimiter × S
    → Response × (RateLimiter × S)
rate_limit now client_ip next (rl, s) =
    let (passes, rl') = allow rl now client_ip in
    if passes then ((next s).0, (rl', (next s).1)) else (slow_down, (rl', s))

-- Session(): `start` is session.Start, whose answer is dropped.
unfoldable pub with_session : {S : Type 0} → (S → S) → (S → Response × S) → S → Response × S
with_session start next s = next (start s)
