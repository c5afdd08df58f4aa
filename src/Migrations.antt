-- ===== src/Migrations.antt =====
-- backend/app/db/migrations
pub mod Statements
pub mod Server
pub mod Initial
pub mod Search
pub mod Models
pub mod Labels
pub mod Runs
