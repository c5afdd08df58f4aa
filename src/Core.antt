-- ===== src/Core.antt =====
-- backend/app/core: the value objects and stores that every module uses.
pub mod Errors
pub mod Decimal
pub mod Money
pub mod Idempotency
pub mod Pagination
