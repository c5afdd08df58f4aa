-- ===== src/Shared.antt =====
-- backend/app/shared: domain events, the outbox and the unit of work over the database.
pub mod Events
pub mod Outbox
pub mod Slugs
pub mod Localization
pub mod Database
pub mod UnitOfWork
