-- ===== src/Tests.antt =====
-- Runs of the model on a small shop.
pub mod Data
mod Stock
mod Purchases
mod Requests
mod Amounts
mod Encoding
mod Payloads
mod Catalogue
mod Access
mod Deployment
mod Sowing
mod Tokens
