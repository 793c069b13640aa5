-- ===== src/Lib.antt =====
-- The OAuth 2.0 / OpenID Connect authorization server, from the start and the routes to the stores.
--
-- A client sends an authorization request, gets a code, and exchanges the code for tokens; other
-- grants give tokens for a password, for the client itself, or for a refresh token; a token is then
-- presented as a bearer token, or revoked. The server keeps the clients, the codes and the tokens in
-- maps, and asks other packages for time, random bytes, signatures and hashes.
--
-- Which file models which part of the repository:
--   Errors              internal/server/errors.go, TokenError of internal/service/token_service.go
--   Model               the users of internal/model/model.go
--   Store, Expiry, Dict the stores of internal/server/store.go, and sync.Map behind them
--   Scope               the scope functions of internal/server/store.go
--   Encoding, Generator internal/server/token.go, generateRandomString of store.go, base64url
--   Pkce                internal/server/pkce.go
--   Server              internal/server/server.go: the state, registration, client validation
--   Redirect            validateRedirectURI of authorize.go, IsRedirectURIRegistered of server.go
--   Authorize           internal/server/authorize.go
--   Grant               internal/server/grant.go
--   Grant.Race, Grant.Renewal   the exchange of a code and the refresh, for calls that take turns
--   Turns               calls that take turns over one world
--   Tokens              what every endpoint keeps of the token stores
--   Bearer              ValidateBearerToken and RevokeToken of internal/server/server.go
--   Service             internal/service, SetupPasswordAuth of internal/handler/revoke.go
--   Limiter             the rate limiter of internal/middleware/middleware.go
--   Redact              the redaction of logs in internal/middleware/middleware.go
--   Uri, Http           queries, requests, responses and sessions as the handlers see them
--   Oidc                internal/oidc/oidc.go, the configuration of internal/model/model.go
--   BasicAuth, Handler  internal/handler: one child module for each group of handlers
--   Logger              RequestLogger of internal/middleware/middleware.go
--   Middleware, Router  CORS, Session, RateLimit of internal/middleware, internal/router/router.go
--   Startup             cmd/server/main.go
--   System              the running server: requests through the router in any order, clean-up rounds
--   Base, Action, Time, External   shared names, results with state, instants, other packages
--   Tests               the theorems at concrete inputs
--
-- How the code is written here. A function of Go has its name in snake case; a record field is a
-- struct field. A function that changes the server is an action on a `World`: the server, with the
-- numbers of readings of the clock and of the random source so far. An early return with an error is
-- the error of the action, and `check`, `or_fail` and `lift` are the guards in the order of the
-- source; a state change before a later error stays. A method of a store is one step, as sync.Map
-- makes it. `Grant.Race` and `Grant.Renewal` let calls that exchange a code, or refresh, take turns
-- between these steps; every other function runs without another between its steps. Go's order of
-- a range over a map is left open by what is proved of it. Instants are nanoseconds since 1970 as
-- natural numbers, without the overflow of time.Duration. No definition needs fuel: all loops run
-- over lists and texts, and the turns of calls over a list of turns.
--
-- Code that is not in the repository is a field of `External`: the clock, rand.Read, SHA-256, %q, the
-- JWT package and bcrypt. A theorem assumes nothing of them but what its hypotheses say. A text is a
-- sequence of characters with the byte lengths of UTF-8, so that slices are Go's on valid UTF-8;
-- bytes of a Basic header's payload that are not UTF-8 become U+FFFD, where Go's string keeps them.
-- ConstantTimeCompare is equality; its running time is not modelled.
--
-- A handler is a function from a request and a `Visit`, the server's world and the browser's session,
-- to a response and a visit; gin's parsing of a request, net/url and the session's cookie are not in
-- the repository, so a request comes with its query and form as maps and with a session or none.
-- `System.Reach` relates a world to those that follow by requests of any browsers and by clean-up
-- rounds, one after another.
--
-- Not modelled: how the log entry is printed; what session.Start does but find or make the session;
-- the store behind the sessions, a Save of which is taken to succeed; what http.Redirect does to a
-- relative location; gin's own redirects of paths with a trailing slash, and methods without a route;
-- the handlers that serve swagger and files, which are parameters; docs/docs.go, which is generated;
-- the web client in web/. A password of bcrypt and a key's thumbprint are parameters.
pub mod Base
pub mod Dict
pub mod Errors
pub mod Action
pub mod Time
pub mod Tokens
pub mod Turns
pub mod Expiry
pub mod External
pub mod Model
pub mod Store
pub mod Scope
pub mod Encoding
pub mod Pkce
pub mod Generator
pub mod Server
pub mod Redirect
pub mod Authorize
pub mod Grant
pub mod Bearer
pub mod Limiter
pub mod Logger
pub mod Service
pub mod Redact
pub mod Uri
pub mod Oidc
pub mod Http
pub mod BasicAuth
pub mod Handler
pub mod Middleware
pub mod Router
pub mod Startup
pub mod System
pub mod Tests
