-- ===== src/Scheduler.antt =====
-- The scheduler service (scheduler/): it starts and stops jobs, follows links and stores pages.
pub mod Batcher
pub mod Bloom
pub mod Broker
pub mod Handlers
pub mod Jobs
pub mod Results
pub mod Samples
pub mod Watchdog
pub mod World
pub mod Host
pub mod Startup
pub mod Router
pub mod Consumer
