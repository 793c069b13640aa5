-- ===== src/Tests.antt =====
-- The theorems at concrete inputs, over a small installation.
pub mod Sample
pub mod Runs
pub mod Grants
pub mod Races
pub mod Requests
pub mod Scopes
pub mod Services
pub mod Redaction
pub mod Handlers
pub mod Started
pub mod Consent
pub mod Flows
pub mod Logs
