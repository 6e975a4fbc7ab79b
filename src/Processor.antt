-- ===== src/Processor.antt =====
-- `src/processor`
pub mod Score
pub mod Dns
pub mod Domains
pub mod Spf
pub mod Dkim
pub mod Dmarc
pub mod Rdns
pub mod Blacklists
pub mod Sender
pub mod Content
pub mod Analyzer
