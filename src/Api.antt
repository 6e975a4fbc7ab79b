-- ===== src/Api.antt =====
-- `src/api`
pub mod RateLimit
pub mod Requests
pub mod MailTests
pub mod ApiKeys
pub mod History
pub mod Tokens
pub mod Auth
pub mod WebFiles
pub mod Identity
