-- ===== src/Tests/Data.antt =====
-- A shop with one product, one shopper and one basket.
use nordmarkt.Common.{
  ℕ, ◌+◌, Bool, true, false, Option, none, some, List, [], ◌∷◌, String, ltb, str_eq, not, select,
  if◌then◌else◌, ◌≡◌, refl, arith, eq_iff,
}
use nordmarkt.Common.Int.{pos}
use nordmarkt.Shared.Database.{Database}
use nordmarkt.Shared.UnitOfWork.{World, UnitOfWork, begin}
use nordmarkt.Inventory.Models.{StockItem, StockReservation}
use nordmarkt.Catalog.Models.{Category, Product, ProductVariant}
use nordmarkt.Cart.Models.{Cart, CartItem}
use nordmarkt.Orders.Models.{Order, OrderStatus}
use nordmarkt.Orders.{CheckoutOptions}
use nordmarkt.Identity.{Crypto, Claims}
use nordmarkt.Identity.Models.{User, Address, SessionToken, snapshot}
use nordmarkt.Payments.Models.{Payment, PaymentStatus}
use nordmarkt.Payments.{Texts, PaymentGateway, sandbox_gateway}
use nordmarkt.Core.Idempotency.{Redis, RedisLaws}

abbrev pub world : World
world = record {
  now = 1000;
  uuid4 = λ n. 100 + n;
  token_urlsafe = λ n. "token";
  order_number = λ n. "NM-0";
}

abbrev pub later_world : World
later_world = record world { now = 2000 }

abbrev pub shelf : StockItem
shelf = record {
  id = 1;
  variant_id = 7;
  warehouse_code = "STO";
  on_hand = 5;
  reserved = 2;
  low_stock_threshold = 1;
}

abbrev pub hold : StockReservation
hold = record {
  id = 20;
  variant_id = 7;
  order_id = some 40;
  cart_id = none;
  quantity = 2;
  expires_at = 900;
  released_at = none;
  committed_at = none;
}

abbrev pub lighting : Category
lighting = record {
  id = 3;
  slug = "lighting";
  name = ("sv", "Belysning") ∷ [];
  parent_id = some 2;
  path = "home.lighting";
  depth = 1;
  position = 0;
}

abbrev pub house : Category
house = record {
  id = 2;
  slug = "home";
  name = ("sv", "Hem") ∷ [];
  parent_id = none;
  path = "home";
  depth = 0;
  position = 0;
}

abbrev pub lamp : Product
lamp = record {
  id = 6;
  slug = "lamp";
  title = ("sv", "Lampa") ∷ [];
  description = [];
  highlights = [];
  category_id = 3;
  brand_id = none;
  is_published = true;
  deleted_at = none;
  created_at = 400;
  rating_average = 450;
  rating_count = 2;
  tags = [];
  images = [];
}

abbrev pub lamp_white : ProductVariant
lamp_white = record {
  id = 7;
  product_id = 6;
  sku = "LAMP-W";
  options = [];
  price_minor_units = 12500;
  compare_at_minor_units = none;
  currency = "SEK";
  vat_rate = 250;
  weight_grams = none;
  is_active = true;
}

abbrev pub basket : Cart
basket = record {
  id = 30;
  user_id = some 50;
  anonymous_token = none;
  currency = "SEK";
  locale = "sv";
  checked_out_at = none;
}

abbrev pub basket_line : CartItem
basket_line = record {
  id = 31;
  cart_id = 30;
  variant_id = 7;
  quantity = 2;
  unit_price_minor_units = 12500;
}

abbrev pub home : Address
home = record {
  id = 60;
  user_id = 50;
  recipient = "Astrid";
  street = "Storgatan 1";
  postal_code = "11122";
  city = "Stockholm";
  country_code = "SE";
  phone = none;
  is_default = true;
}

abbrev pub shopper : User
shopper = record {
  id = 50;
  email = "astrid@example.se";
  password_hash = "hash";
  full_name = "Astrid";
  preferred_locale = "sv";
  roles = "customer" ∷ [];
  is_active = true;
}

abbrev pub pending_order : Order
pending_order = record {
  id = 40;
  order_number = "NM-1";
  customer_id = 50;
  status = OrderStatus.pending_payment;
  currency = "SEK";
  locale = "sv";
  subtotal_minor_units = pos 25000;
  vat_minor_units = pos 5000;
  shipping_minor_units = pos 4900;
  discount_minor_units = pos 0;
  total_minor_units = pos 29900;
  shipping_address = snapshot home;
  billing_address = snapshot home;
  shipping_method = "postnord";
  created_at = 500;
  placed_at = some 500;
  paid_at = none;
  cancelled_at = none;
  cancellation_reason = none;
}

abbrev pub authorised : Payment
authorised = record {
  id = 70;
  order_id = 40;
  provider = "swish_sandbox";
  provider_reference = "sbx_1";
  status = PaymentStatus.authorized;
  amount_minor_units = pos 29900;
  currency = "SEK";
  failure_reason = none;
  captured_at = none;
  redirect_url = "https://pay.example/sbx_1";
}

abbrev pub live_session : SessionToken
live_session = record {
  id = 80;
  user_id = 50;
  token_hash = "sha:refresh-1";
  user_agent = none;
  ip_address = none;
  expires_at = 5000;
  revoked_at = none;
}

abbrev pub shop : Database
shop = record {
  stock_items = shelf ∷ [];
  reservations = hold ∷ [];
  categories = house ∷ lighting ∷ [];
  brands = [];
  products = lamp ∷ [];
  variants = lamp_white ∷ [];
  carts = basket ∷ [];
  cart_items = basket_line ∷ [];
  orders = pending_order ∷ [];
  order_items = [];
  users = shopper ∷ [];
  addresses = home ∷ [];
  session_tokens = live_session ∷ [];
  payments = authorised ∷ [];
  webhooks = [];
  outbox = [];
}

abbrev pub request : UnitOfWork
request = begin shop 0

abbrev pub options : CheckoutOptions
options = record {
  shipping_address_id = 60;
  billing_address_id = none;
  shipping_method = "postnord";
  accept_price_changes = false;
  locale = "sv";
}

abbrev pub texts : Texts
texts = record {
  ends_with_nine = λ t. false;
  starts_with_sbx = λ t. true;
  sbx_reference = λ n. "sbx_2";
  pay_url = λ r. r;
}

abbrev pub gateway : PaymentGateway
gateway = sandbox_gateway texts

-- Keys in memory: a value with the time at which it expires.
abbrev pub read_key : ℕ → String → List (String × String × ℕ) → Option String
read_key now k [] = none
read_key now k ((j, v, end) ∷ s) =
    if str_eq j k then (if ltb now end then some v else none) else read_key now k s

abbrev pub drop_key : String → List (String × String × ℕ) → List (String × String × ℕ)
drop_key k s = select (λ e. not (str_eq e.0 k)) s

abbrev pub put_new_key :
    Option String
    → String
    → String
    → ℕ
    → List (String × String × ℕ)
    → Bool × List (String × String × ℕ)
put_new_key (some held) k v end s = (false, s)
put_new_key none k v end s = (true, (k, v, end) ∷ s)

abbrev pub memory : Redis
memory = record {
  Keys = List (String × String × ℕ);
  get = read_key;
  set = λ now k v ttl s. (k, v, now + ttl) ∷ s;
  set_nx = λ now k v ttl s. put_new_key (read_key now k s) k v (now + ttl) s;
  delete = λ now k s. drop_key k s;
}

read-drop :
    (later : ℕ) (k : String) (s : List (String × String × ℕ))
    → read_key later k (drop_key k s) ≡ none
read-drop later k [] = refl
read-drop later k ((j, v, end) ∷ s) = ground (arith, read-drop later k s)

pub memory_laws : RedisLaws memory
memory_laws = record {
  get-set = λ now later k v ttl s soon. ground (arith, eq_iff k k, soon);
  get-delete = λ now later k s. read-drop later k s;
  set_nx_free = λ now k v ttl s free. rw free;
  set_nx_taken = λ now k v ttl s held taken. rw taken;
}

abbrev pub claims : Claims
claims = record { sub = 50; typ = "refresh"; sid = some 80; roles = [] }

-- A scheme in which every token decodes to the claims above.
abbrev pub crypto : Crypto
crypto = record {
  hash_password = λ n p. p;
  verify = λ p h. true;
  check_needs_rehash = λ h. false;
  jwt_encode = λ n issued expires c. "refresh-2";
  jwt_decode = λ now t. some claims;
  sha256 = λ t. "sha:refresh-1";
  normalise = λ t. t;
  strip = λ t. t;
  cut_agent = λ a. a;
}
