-- ===== src/Storage.antt =====
-- The package storage and its memory driver.
pub mod Memory
pub mod Config
pub mod Registry
pub mod Data
pub mod MemoryData
pub mod Redis
pub mod Pg
pub mod KeyDb
