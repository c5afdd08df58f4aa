-- ===== src/Core/Idempotency/Replay.antt =====
-- One key's life in backend/app/core/idempotency.py: claimed once, then replayed or freed.
use nordmarkt.Common.{ℕ, ◌+◌, ◌<◌, ◌≡◌, refl, none, some, String, arith, eq_iff}
use nordmarkt.Core.Errors.{ok, err, domain, DomainError}
use nordmarkt.Core.Idempotency.{
  Redis, RedisLaws, Codec, CodecLaws, claim, complete, release, claim_ttl, result_ttl,
}

module _ (r : Redis) (rl : RedisLaws r) {A : Type 0} (c : Codec A) (scope key : String)
    (s : r.Keys) where
  -- A free key is granted, and until the claim expires nobody else is granted it.
  pub claim_exclusive :
      (now later : ℕ)
      → r.get now (c.key scope key) s ≡ none
      → later < now + claim_ttl
      → let (first, s') = claim r c now scope key s in
        (first ≡ ok none)
        × (claim r c later scope key s' ≡ (err (domain DomainError.idempotency_conflict), s'))
  unfolding claim
  claim_exclusive now later free soon =
      let k = c.key scope key in
      let held = rl.get-set now later k "in_progress" claim_ttl s soon in
      rw (rl.set_nx_free now k "in_progress" claim_ttl s free)
        (refl, rw (rl.set_nx_taken later k "in_progress" claim_ttl _ "in_progress" held, held) refl)

  -- Once a request has completed, a retry of it within the day is given its response.
  pub complete_replays :
      (now later : ℕ) (result : A)
      → CodecLaws c result
      → later < now + result_ttl
      → let s' = complete r c now scope key result s in
        claim r c later scope key s' ≡ (ok (some result), s')
  unfolding claim complete
  complete_replays now later result cl soon =
      let k = c.key scope key in
      let held = rl.get-set now later k (c.dumps result) result_ttl s soon in
      rw (rl.set_nx_taken later k "in_progress" claim_ttl _ (c.dumps result) held, held)
        (ground (arith, cl.loads-dumps, cl.dumps-ne, eq_iff (c.dumps result) "in_progress"))

  -- A released key can be claimed anew.
  pub release_frees :
      (now later : ℕ) → (claim r c later scope key (release r c now scope key s)).0 ≡ ok none
  unfolding claim release
  release_frees now later =
      let k = c.key scope key in
      rw (
        rl.set_nx_free later k "in_progress" claim_ttl (r.delete now k s)
          (rl.get-delete now later k s))
