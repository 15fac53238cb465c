-- ===== src/Network.antt =====
-- src/core/network: the retry policy and the HTTP client.
pub mod Policy
pub mod Client
mod Examples
