-- ===== src/Db.antt =====
-- `src/db`: the two stores, and the documents that the program keeps in the first.
pub mod Mongo
pub mod Redis
pub mod Documents
pub mod Cache
