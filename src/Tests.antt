-- ===== src/Tests.antt =====
-- The theorems at concrete inputs.
mod Data
mod Tasks
mod Worker
mod Ingest
mod Api
mod Processor
mod System
mod Tokens
mod Analyzer
mod Content
mod Web
