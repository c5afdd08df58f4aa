-- ===== src/Workers.antt =====
-- backend/app/workers: the processes beside the API.
pub mod Relay
pub mod Sweeper
