-- ===== src/Auth.antt =====
-- Accounts and sessions (server/app/domains/auth and server/app/core/security.py).
pub mod World
pub mod Accounts
pub mod Login
pub mod Validation
pub mod Oauth
pub mod CurrentUser
pub mod AccountLaws
pub mod Sessions
pub mod OauthLaws
pub mod Tests
