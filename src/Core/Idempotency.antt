-- ===== src/Core/Idempotency.antt =====
-- backend/app/core/idempotency.py: `IdempotencyStore`, over Redis.
pub mod Replay
use nordmarkt.Common.{
  ℕ, ◌+◌, ◌<◌, ◌≡◌, ◌≢◌, Bool, true, false, Option, none, some, String, str_eq, if◌then◌else◌,
}
use nordmarkt.Core.Errors.{Result, ok, err, domain, DomainError}

-- The commands of Redis that the store sends. A time comes with each, since a key expires.
pub record Redis : Type 1 where
  pub Keys : Type 0
  pub get : ℕ → String → Keys → Option String
  -- SET key value EX ttl
  pub set : ℕ → String → String → ℕ → Keys → Keys
  -- SET key value NX EX ttl, and whether it was done
  pub set_nx : ℕ → String → String → ℕ → Keys → Bool × Keys
  pub delete : ℕ → String → Keys → Keys

-- What the documentation of these commands says of them.
pub record RedisLaws (r : Redis) : Type 0 where
  pub get-set :
      (now later : ℕ) (k v : String) (ttl : ℕ) (s : r.Keys)
      → later < now + ttl
      → r.get later k (r.set now k v ttl s) ≡ some v
  pub get-delete :
      (now later : ℕ) (k : String) (s : r.Keys) → r.get later k (r.delete now k s) ≡ none
  pub set_nx_free :
      (now : ℕ) (k v : String) (ttl : ℕ) (s : r.Keys)
      → r.get now k s ≡ none
      → r.set_nx now k v ttl s ≡ (true, r.set now k v ttl s)
  pub set_nx_taken :
      (now : ℕ) (k v : String) (ttl : ℕ) (s : r.Keys) (held : String)
      → r.get now k s ≡ some held
      → r.set_nx now k v ttl s ≡ (false, s)

-- `json.dumps` and `json.loads` at the type of the responses, and the f-string of the key.
pub record Codec (A : Type 0) : Type 0 where
  pub dumps : A → String
  pub loads : String → A
  pub key : String → String → String

-- What reading back a written response gives; a written object is never the bare word.
pub record CodecLaws {A : Type 0} (c : Codec A) (a : A) : Type 0 where
  pub loads-dumps : c.loads (c.dumps a) ≡ a
  pub dumps-ne : c.dumps a ≢ "in_progress"

abbrev pub claim_ttl : ℕ
claim_ttl = 600

abbrev pub result_ttl : ℕ
result_ttl = 86400

module _ (r : Redis) {A : Type 0} (c : Codec A) where
  -- What `claim` makes of the stored text, when the key was taken.
  abbrev pub read_stored : Option String → Result (Option A)
  read_stored none = err (domain DomainError.idempotency_conflict)
  read_stored (some text) =
      if str_eq text "in_progress"
      then err (domain DomainError.idempotency_conflict)
      else ok (some (c.loads text))

  -- `claim`; `ok none` means that the key is now the caller's.
  unfoldable pub claim : ℕ → String → String → r.Keys → Result (Option A) × r.Keys
  claim now scope key s =
      let (acquired, s') = r.set_nx now (c.key scope key) "in_progress" claim_ttl s in
      (if acquired then ok none else read_stored (r.get now (c.key scope key) s'), s')

  unfoldable pub complete : ℕ → String → String → A → r.Keys → r.Keys
  complete now scope key result s = r.set now (c.key scope key) (c.dumps result) result_ttl s

  unfoldable pub release : ℕ → String → String → r.Keys → r.Keys
  release now scope key s = r.delete now (c.key scope key) s
