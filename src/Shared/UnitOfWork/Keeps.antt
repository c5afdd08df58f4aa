-- ===== src/Shared/UnitOfWork/Keeps.antt =====
-- What an action keeps of the database, one rule for each way to build an action.
use nordmarkt.Common.{ℕ, ◌≡◌, Bool, true, false, Option, none, some, if◌then◌else◌}
use nordmarkt.Core.Errors.{Exception, Result, ok, err}
use nordmarkt.Shared.Database.{Database}
use nordmarkt.Shared.Events.{EventBody}
use nordmarkt.Shared.UnitOfWork.{
  World, UnitOfWork, Action, pure, raise, gets, or_raise, lift, raise_if, write, draw, emit, ◌>>=◌,
}

-- `m` keeps a property of the committed database and the session's, whether it returns or raises.
pub record Keeps {A : Type 0} (P : Database → Database → Type 0) (m : Action A) : Type 0 where
  pub at : (u : UnitOfWork) → P u.committed u.session → P (m u).1.committed (m u).1.session

module _ {A : Type 0} {P : Database → Database → Type 0} where
  pub Keeps-pure : (a : A) → Keeps P (pure a)
  unfolding pure
  Keeps-pure a = record { at = λ u h. h }

  pub Keeps-raise : (e : Exception) → Keeps P (raise {A = A} e)
  unfolding raise
  Keeps-raise e = record { at = λ u h. h }

  pub Keeps-gets : (f : Database → A) → Keeps P (gets f)
  unfolding gets
  Keeps-gets f = record { at = λ u h. h }

  pub Keeps-or_raise : (e : Exception) (o : Option A) → Keeps P (or_raise e o)
  unfolding or_raise
  Keeps-or_raise e none = record { at = λ u h. h }
  Keeps-or_raise e (some a) = record { at = λ u h. h }

  pub Keeps-lift : (r : Result A) → Keeps P (lift r)
  unfolding lift
  Keeps-lift r = record { at = λ u h. h }

  pub Keeps-if : (b : Bool) (m n : Action A) → Keeps P m → Keeps P n → Keeps P (if b then m else n)
  Keeps-if true m n km kn = km
  Keeps-if false m n km kn = kn

module _ {P : Database → Database → Type 0} where
  pub Keeps-raise_if : (b : Bool) (e : Exception) → Keeps P (raise_if b e)
  unfolding raise_if
  Keeps-raise_if b e = record { at = λ u h. h }

  pub Keeps-draw : Keeps P draw
  unfolding draw
  Keeps-draw = record { at = λ u h. h }

  pub Keeps-emit : (w : World) (id : ℕ) (body : EventBody) → Keeps P (emit w id body)
  unfolding emit
  Keeps-emit w id body = record { at = λ u h. h }

  pub Keeps-write :
      (f : Database → Database) → ((c s : Database) → P c s → P c (f s)) → Keeps P (write f)
  unfolding write
  Keeps-write f keep = record { at = λ u h. keep u.committed u.session h }

module _ {A B : Type 0} {P : Database → Database → Type 0} where
  continue_keeps :
      (r : Result A) (f : A → Action B) (u : UnitOfWork)
      → ((a : A) → Keeps P (f a))
      → P u.committed u.session
      → let (_, u') = nordmarkt.Shared.UnitOfWork.continue r f u in P u'.committed u'.session
  continue_keeps (ok a) f u kf h = (kf a).at u h
  continue_keeps (err e) f u kf h = h

  pub Keeps-bind :
      (m : Action A) (f : A → Action B) → Keeps P m → ((a : A) → Keeps P (f a)) → Keeps P (m >>= f)
  unfolding ◌>>=◌
  Keeps-bind m f km kf = record {
    at = λ u h. let (r, u') = m u in continue_keeps r f u' kf (km.at u h);
  }

pub ruleset keeps_rules = (
  Keeps-pure, Keeps-raise, Keeps-gets, Keeps-or_raise, Keeps-lift, Keeps-if, Keeps-raise_if,
  Keeps-draw, Keeps-emit, Keeps-bind,
)

-- What others see of the database stays `base`: the calls of the services write to the session only.
abbrev pub Apart : Database → Database → Database → Type 0
Apart base committed session = committed ≡ base

pub write-Apart : {base : Database} (f : Database → Database) → Keeps (Apart base) (write f)
write-Apart f = Keeps-write f λ c s h. h

pub ruleset apart_rules = (keeps_rules, write-Apart)
