-- ===== src/Inventory/Models.antt =====
-- backend/app/modules/inventory/models.py: the rows of stock and of reservations.
use nordmarkt.Common.{ℕ, ◌-◌, Option, String, Bool, ◌&&◌, is_none}
use nordmarkt.Common.Int.{ℤ, pos, leb_ℤ}

-- The check constraints keep both counters and their difference from below zero, so a stored row
-- has natural numbers.
pub record StockItem : Type 0 where
  pub id : ℕ
  pub variant_id : ℕ
  pub warehouse_code : String
  pub on_hand : ℕ
  pub reserved : ℕ
  pub low_stock_threshold : ℕ

-- The three check constraints on the values that a write would store.
abbrev pub within_checks : ℤ → ℤ → Bool
within_checks on_hand reserved =
    leb_ℤ (pos 0) on_hand && (leb_ℤ (pos 0) reserved && leb_ℤ reserved on_hand)

abbrev pub sellable : StockItem → ℕ
sellable item = item.on_hand - item.reserved

pub record StockReservation : Type 0 where
  pub id : ℕ
  pub variant_id : ℕ
  pub order_id : Option ℕ
  pub cart_id : Option ℕ
  pub quantity : ℕ
  pub expires_at : ℕ
  pub released_at : Option ℕ
  pub committed_at : Option ℕ

-- Neither released nor committed.
abbrev pub is_open : StockReservation → Bool
is_open r = is_none r.released_at && is_none r.committed_at
