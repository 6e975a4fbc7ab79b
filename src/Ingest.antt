-- ===== src/Ingest.antt =====
-- `src/ingest`
pub mod Message
pub mod Connection
pub mod LmtpServer
pub mod RecipientMap
