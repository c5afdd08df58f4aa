-- ===== src/Cart/Models.antt =====
-- backend/app/modules/cart/models.py: carts and their lines.
use nordmarkt.Common.{ℕ, Option, String, Bool, is_none}

pub record Cart : Type 0 where
  pub id : ℕ
  pub user_id : Option ℕ
  pub anonymous_token : Option String
  pub currency : String
  pub locale : String
  pub checked_out_at : Option ℕ

abbrev pub is_open : Cart → Bool
is_open c = is_none c.checked_out_at

-- The database holds at most one line for a cart and a variant.
pub record CartItem : Type 0 where
  pub id : ℕ
  pub cart_id : ℕ
  pub variant_id : ℕ
  pub quantity : ℕ
  pub unit_price_minor_units : ℕ
