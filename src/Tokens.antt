-- ===== src/Tokens.antt =====
-- What holds of the token stores of internal/server/store.go in a running server.
pub mod Frame
pub mod Sound
pub mod Issued
pub mod Grants
pub mod Endpoints
