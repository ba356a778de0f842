-- ===== src/Worker.antt =====
-- The worker service (worker/): what fetches pages and reports their links.
pub mod Politeness
pub mod Robots
pub mod Samples
pub mod Crawler
pub mod Consumer
pub mod Pool
pub mod Startup
