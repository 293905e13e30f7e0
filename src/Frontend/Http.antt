-- ===== src/Frontend/Http.antt =====
-- frontend/http: the HTTP frontend.
pub mod Params
pub mod Parser
pub mod Sound
pub mod Safety
pub mod Decimal
pub mod Writer
pub mod Bencode
pub mod Answers
pub mod Scrapes
pub mod Config
pub mod Routes
pub mod Handle
pub mod System
