-- ===== src/Oidc.antt =====
-- web/src/lib/oidc.ts: the login of the portal by OpenID Connect with PKCE, its session, and the
-- silent refresh of the access token.
pub mod Types
pub mod World
pub mod Session
pub mod Login
pub mod Rules
pub mod Frames
pub mod Redirect
pub mod Granted
pub mod Lasting
pub mod Steps
pub mod Refresh
pub mod Callback
pub mod Flights
pub mod Logout
pub mod Runs
pub mod Completion
pub mod Promises
pub mod Samples
mod Tests
