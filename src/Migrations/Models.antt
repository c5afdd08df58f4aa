-- ===== src/Migrations/Models.antt =====
-- `Base.metadata`: the tables that the models declare, and when a table of the database is one of
-- them. Defaults are left out, since those of the models are Python's.
mod Mixins
mod Goods
mod People
mod Carts
mod Stock
mod Orders
mod Payments
mod Outbox
use nordmarkt.Common.{
  ℕ, Bool, true, false, not, ◌&&◌, List, [], ◌∷◌, ◌++◌, Option, none, some, String, any, str_eq,
  ◌==◌, if◌then◌else◌,
}
use nordmarkt.Migrations.Statements.{
  ColumnType, uuid, jsonb, tsvector, timestamptz, text, integer, boolean, varchar, numeric,
  varchar_array, enum, Keyword, primary_key, not_null, unique, foreign_key, computed, Check,
  at_least_zero, at_most, null_or_at_least, Item, column, unique_constraint, check_constraint,
  Table, Index,
}
use nordmarkt.Migrations.Server.{all, is_indexed}
use Goods.{
  category_model, brand_model, product_model, product_variant_model, product_image_model,
  product_indexes,
}
use People.{user_model, address_model, session_token_model}
use Carts.{cart_model, cart_item_model}
use Stock.{stock_item_model, stock_reservation_model, stock_item_indexes, stock_reservation_indexes}
use Orders.{order_model, order_item_model, order_indexes}
use Payments.{payment_model, processed_webhook_model}
use Outbox.{outbox_message_model, outbox_message_indexes}

-- In the order of the imports of env.py.
unfoldable pub metadata : List Table
metadata =
    cart_model ∷ cart_item_model ∷ category_model ∷ brand_model ∷ product_model
    ∷ product_variant_model ∷ product_image_model ∷ user_model ∷ address_model ∷ session_token_model
    ∷ stock_item_model ∷ stock_reservation_model ∷ order_model ∷ order_item_model ∷ payment_model
    ∷ processed_webhook_model ∷ outbox_message_model ∷ []

-- The indexes of `Base.metadata` that have a name of their own. The one of a column with `index=True`
-- is part of its table.
unfoldable pub metadata_indexes : List Index
metadata_indexes =
    product_indexes ++ stock_item_indexes ++ stock_reservation_indexes ++ order_indexes
    ++ outbox_message_indexes

-- A type as a number, the numbers it is over and the type it names.
abbrev signature_of : ColumnType → ℕ × ℕ × ℕ × String
signature_of uuid = (0, 0, 0, "")
signature_of jsonb = (1, 0, 0, "")
signature_of tsvector = (2, 0, 0, "")
signature_of timestamptz = (3, 0, 0, "")
signature_of text = (4, 0, 0, "")
signature_of integer = (5, 0, 0, "")
signature_of boolean = (6, 0, 0, "")
signature_of (varchar n) = (7, n, 0, "")
signature_of (numeric p s) = (8, p, s, "")
signature_of (varchar_array n) = (9, n, 0, "")
signature_of (enum name) = (10, 0, 0, name)

abbrev same_type : ColumnType → ColumnType → Bool
same_type s t =
    let (k, a, b, n) = signature_of s in
    let (k', a', b', n') = signature_of t in k == k' && a == a' && b == b' && str_eq n n'

abbrev is_required : List Keyword → Bool
is_required [] = false
is_required (not_null ∷ ks) = true
is_required (primary_key ∷ ks) = true
is_required (_ ∷ ks) = is_required ks

abbrev is_unique : List Keyword → Bool
is_unique [] = false
is_unique (unique ∷ ks) = true
is_unique (_ ∷ ks) = is_unique ks

abbrev is_primary : List Keyword → Bool
is_primary [] = false
is_primary (primary_key ∷ ks) = true
is_primary (_ ∷ ks) = is_primary ks

-- What a generated column computes.
abbrev computed_of : List Keyword → String
computed_of [] = ""
computed_of (computed e ∷ ks) = e
computed_of (_ ∷ ks) = computed_of ks

-- The table and column that a foreign key refers to, and what it does on a deletion.
abbrev target_of : List Keyword → String × String × String
target_of [] = ("", "", "")
target_of (foreign_key t c none ∷ ks) = (t, c, "")
target_of (foreign_key t c (some what) ∷ ks) = (t, c, what)
target_of (_ ∷ ks) = target_of ks

abbrev same_flag : Bool → Bool → Bool
same_flag true b = b
same_flag false b = not b

abbrev same_keywords : List Keyword → List Keyword → Bool
same_keywords ks js =
    let (t, c, what) = target_of ks in
    let (t', c', what') = target_of js in
    same_flag (is_required ks) (is_required js)
    && same_flag (is_primary ks) (is_primary js)
    && same_flag (is_unique ks) (is_unique js)
    && same_flag (is_indexed ks) (is_indexed js)
    && str_eq (computed_of ks) (computed_of js)
    && str_eq t t'
    && str_eq c c'
    && str_eq what what'

abbrev same_texts : List String → List String → Bool
same_texts [] [] = true
same_texts (s ∷ ss) (t ∷ ts) = str_eq s t && same_texts ss ts
same_texts _ _ = false

abbrev same_check : Check → Check → Bool
same_check (at_least_zero a) (at_least_zero b) = str_eq a b
same_check (at_most a b) (at_most c d) = str_eq a c && str_eq b d
same_check (null_or_at_least a b) (null_or_at_least c d) = str_eq a c && str_eq b d
same_check _ _ = false

-- The names of check constraints are not compared: the convention makes them.
unfoldable pub same_item : Item → Item → Bool
same_item (column n s ks) (column m t js) = str_eq n m && same_type s t && same_keywords ks js
same_item (unique_constraint cs n) (unique_constraint ds m) = same_texts cs ds && str_eq n m
same_item (check_constraint c _) (check_constraint d _) = same_check c d
same_item _ _ = false

-- The columns and constraints of one are those of the other.
unfoldable pub same_table : Table → Table → Bool
unfolding same_item
same_table t u =
    str_eq t.name u.name
    && all (λ i. any (same_item i) u.items) t.items
    && all (λ i. any (same_item i) t.items) u.items

-- An index of that name, over the same columns of the same table, and of the same kind.
unfoldable pub same_index : Index → Index → Bool
same_index i j =
    str_eq i.name j.name
    && str_eq i.table j.table
    && same_texts i.columns j.columns
    && same_flag i.is_unique j.is_unique
    && str_eq i.method j.method
    && str_eq i.condition j.condition
