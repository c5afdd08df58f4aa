-- ===== src/Identity/Models.antt =====
-- backend/app/modules/identity/models.py: users, addresses and session tokens.
use nordmarkt.Common.{ℕ, Option, String, Bool, List, str_eq, any}

pub record User : Type 0 where
  pub id : ℕ
  pub email : String
  pub password_hash : String
  pub full_name : String
  pub preferred_locale : String
  pub roles : List String
  pub is_active : Bool

unfoldable pub has_role : String → User → Bool
has_role role user = any (λ r. str_eq r role) user.roles

pub record Address : Type 0 where
  pub id : ℕ
  pub user_id : ℕ
  pub recipient : String
  pub street : String
  pub postal_code : String
  pub city : String
  pub country_code : String
  pub phone : Option String
  pub is_default : Bool

-- The dictionary that an order stores.
pub record AddressSnapshot : Type 0 where
  pub recipient : String
  pub street : String
  pub postal_code : String
  pub city : String
  pub country_code : String
  pub phone : Option String

abbrev pub snapshot : Address → AddressSnapshot
snapshot a = record {
  recipient = a.recipient;
  street = a.street;
  postal_code = a.postal_code;
  city = a.city;
  country_code = a.country_code;
  phone = a.phone;
}

pub record SessionToken : Type 0 where
  pub id : ℕ
  pub user_id : ℕ
  pub token_hash : String
  pub user_agent : Option String
  pub ip_address : Option String
  pub expires_at : ℕ
  pub revoked_at : Option ℕ
