-- ===== src/Middleware.antt =====
-- The package middleware: middleware/*.go.
pub mod Storage
pub mod Response
pub mod Interaction
pub mod Logic
pub mod Answer
pub mod Limited
pub mod Swarm
pub mod Respond
pub mod ClientApproval
pub mod VarInterval
pub mod Safety
pub mod Timed
pub mod Registry
pub mod Jwt
pub mod Remote
pub mod TorrentApproval
