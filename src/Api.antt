-- ===== src/Api.antt =====
-- web/src/lib/api.ts: the calls of the server's HTTP API.
pub mod Uri
pub mod Segments
pub mod Fetch
pub mod Inputs
pub mod Types
pub mod Endpoints
mod Tests
