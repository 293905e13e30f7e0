-- ===== src/Frontend/Udp.antt =====
-- The UDP front end: frontend/udp/*.go.
pub mod Params
pub mod ConnectionId
pub mod Writer
pub mod Config
pub mod Parser
pub mod Safety
pub mod Sizes
pub mod Handle
pub mod Hashes
pub mod System
pub mod Reach
pub mod Tracker
pub mod Session
