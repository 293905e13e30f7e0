-- ===== src/Storage/Pg.antt =====
-- storage/pg/storage.go: the storage over PostgreSQL.
pub mod Config
pub mod Pool
pub mod Data
pub mod Peers
pub mod Answers
