-- ===== src/Frontend.antt =====
-- frontend: the UDP and HTTP frontends and their options.
pub mod Options
pub mod Udp
pub mod Http
pub mod Tracker
