-- ===== src/Common.antt =====
-- The shared package (common/): what the two services exchange and configure.
pub mod Config
pub mod Constants
pub mod Models
pub mod Connections
pub mod Environment
pub mod Float32
