-- ===== src/Shared/Database.antt =====
-- The database: one table for each model, as the migrations create them. Tables keep the order of
-- insertion, in which an unordered SELECT returns the rows.
use nordmarkt.Common.{List}
use nordmarkt.Inventory.Models.{StockItem, StockReservation}
use nordmarkt.Catalog.Models.{Brand, Category, Product, ProductVariant}
use nordmarkt.Cart.Models.{Cart, CartItem}
use nordmarkt.Orders.Models.{Order, OrderItem}
use nordmarkt.Identity.Models.{User, Address, SessionToken}
use nordmarkt.Payments.Models.{Payment, ProcessedWebhook}
use nordmarkt.Shared.Outbox.{OutboxMessage}

pub record Database : Type 0 where
  pub stock_items : List StockItem
  pub reservations : List StockReservation
  pub categories : List Category
  pub brands : List Brand
  pub products : List Product
  pub variants : List ProductVariant
  pub carts : List Cart
  pub cart_items : List CartItem
  pub orders : List Order
  pub order_items : List OrderItem
  pub users : List User
  pub addresses : List Address
  pub session_tokens : List SessionToken
  pub payments : List Payment
  pub webhooks : List ProcessedWebhook
  pub outbox : List OutboxMessage
