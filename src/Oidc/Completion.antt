-- ===== src/Oidc/Completion.antt =====
-- The login of web/src/lib/oidc.ts from end to end, when the provider answers.
pub mod Provider
pub mod Exchange
pub mod Fresh
pub mod Login
mod Tests
