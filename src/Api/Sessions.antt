-- ===== src/Api/Sessions.antt =====
-- backend/app/api/routers/identity.py: the requests that renew and end a session.
pub mod Reuse
use nordmarkt.Common.{ℕ, String}
use nordmarkt.Core.Errors.{Result, Exception}
use nordmarkt.Shared.Database.{Database}
use nordmarkt.Shared.UnitOfWork.{
  World, Action, ◌>>=◌, ◌>>◌, pure, lift, or_raise, commit, within_transaction,
}
use nordmarkt.Identity.{Crypto, TokenPair, decode_token, rotate, sign_out}

-- `refresh`
unfoldable pub refresh : Crypto → World → String → Database → ℕ → Result TokenPair × Database
refresh c w token = within_transaction (do tokens ← rotate c w token; commit w; pure tokens)

-- `logout`
unfoldable pub logout : Crypto → World → String → Database → ℕ → Result (Unit {0}) × Database
logout c w token = within_transaction (do
  claims ← lift (decode_token c w.now token "refresh")
  session_id ← or_raise Exception.value_error claims.sid
  sign_out c w session_id
  commit w)
