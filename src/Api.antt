-- ===== src/Api.antt =====
-- backend/app/api: the HTTP handlers, each one transaction.
pub mod Checkout
pub mod Webhooks
pub mod Sessions
pub mod Catalog
pub mod Baskets
pub mod Access
pub mod Accounts
pub mod Responses
pub mod Health
