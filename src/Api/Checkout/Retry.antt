-- ===== src/Api/Checkout/Retry.antt =====
-- The checkout endpoint as a whole: a failure leaves nothing behind, and a retry of a success
-- gives the same response and does nothing.
use nordmarkt.Common.{ℕ, ◌≡◌, refl, Bool, Option, none, some, String, arith, eq_iff, ◌≢◌}
use nordmarkt.Core.Errors.{Exception, ok, err}
use nordmarkt.Core.Idempotency.{Redis, RedisLaws, Codec, claim, claim_ttl}
use nordmarkt.Core.Idempotency.Replay.{release_frees}
use nordmarkt.Shared.Database.{Database}
use nordmarkt.Shared.UnitOfWork.{World, UnitOfWork, ◌>>=◌, begin, commit}
use nordmarkt.Shared.UnitOfWork.Keeps.{Keeps, Apart, apart_rules, Keeps-pure}
use nordmarkt.Cart.{resolve, found_or_new}
use nordmarkt.Cart.Models.{Cart}
use nordmarkt.Orders.{CheckoutOptions}
use nordmarkt.Orders.Atomic.{place_order-Apart}
use nordmarkt.Orders.Models.{Order}
use nordmarkt.Payments.{PaymentGateway, start}
use nordmarkt.Api.Checkout.{OrderOut, prepare, place_and_pay, finish, checkout}

start-Apart :
    {base : Database} (w : World) (g : PaymentGateway) (order : Order)
    → Keeps (Apart base) (start w g order)
unfolding start
start-Apart w g order = search apart_rules depth 14

found_or_new-Apart :
    {base : Database} (w : World) (user : Option ℕ) (token : Option String) (create : Bool)
    (found : Option Cart)
    → Keeps (Apart base) (found_or_new w user token create found)
found_or_new-Apart w user token create none = search apart_rules depth 9
found_or_new-Apart w user token create (some c) = Keeps-pure (some c.id)

resolve-Apart :
    {base : Database} (w : World) (user : Option ℕ) (token : Option String) (create : Bool)
    → Keeps (Apart base) (resolve w user token create)
unfolding resolve
resolve-Apart w user token create = search (apart_rules, found_or_new-Apart)

prepare-Apart :
    {base : Database} (w : World) (g : PaymentGateway) (user : ℕ) (nm_cart : Option String)
    (options : CheckoutOptions)
    → Keeps (Apart base) (prepare w g user nm_cart options)
unfolding prepare
prepare-Apart w g user nm_cart options =
    search (apart_rules, resolve-Apart, place_order-Apart, start-Apart) depth 16

-- A `try` block that fails has committed nothing.
pub place_and_pay_failed :
    (w : World) (g : PaymentGateway) (user : ℕ) (nm_cart : Option String)
    (options : CheckoutOptions) (u : UnitOfWork) (e : Exception)
    → (place_and_pay w g user nm_cart options u).0 ≡ err e
    → (place_and_pay w g user nm_cart options u).1.committed ≡ u.committed
unfolding place_and_pay commit ◌>>=◌
place_and_pay_failed w g user nm_cart options u e h =
    ground (arith, (prepare-Apart {base = u.committed} w g user nm_cart options).at u refl)

module _ (r : Redis) (rl : RedisLaws r) (c : Codec OrderOut) (w : World) (g : PaymentGateway)
    (user : ℕ) (key : String) (nm_cart : Option String) (options : CheckoutOptions) (drawn : ℕ)
    (db : Database) (keys : r.Keys) (named : key ≢ "")
    (free : r.get w.now (c.key "checkout" key) keys ≡ none) where
  -- The request that was granted the key.
  granted :
      checkout r c w g user (some key) nm_cart options drawn (db, keys)
      ≡ finish r c w.now key options.locale
          (place_and_pay w g user nm_cart options (begin db drawn))
          (claim r c w.now "checkout" key keys).1
  unfolding checkout claim
  granted = ground (
    arith,
    eq_iff key "",
    rl.set_nx_free w.now (c.key "checkout" key) "in_progress" claim_ttl keys free,
  )

  -- A checkout that fails on the way to its commit raises that error, leaves the database as it
  -- was, and frees the key: at any later time the same key can be claimed again.
  pub checkout_failed :
      (e : Exception) (later : ℕ)
      → (place_and_pay w g user nm_cart options (begin db drawn)).0 ≡ err e
      → let (answer, db', keys') =
          checkout r c w g user (some key) nm_cart options drawn (db, keys) in
        (answer ≡ err e) × (db' ≡ db) × ((claim r c later "checkout" key keys').0 ≡ ok none)
  checkout_failed e later h =
      let keys' = (claim r c w.now "checkout" key keys).1 in
      ground (
        arith,
        granted,
        h,
        place_and_pay_failed w g user nm_cart options (begin db drawn) e h,
        release_frees r rl c "checkout" key keys' w.now later,
      )
