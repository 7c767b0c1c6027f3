-- ===== src/Locks/Redis.antt =====
-- The commands of Redis that RedisLockService sends (src/common/locking/redis-lock.service.ts), as
-- an interface, with their documented behaviour.
use collabos_backend.Base.{
  ℕ, ◌+◌, ◌<◌, ◌≡◌, Bool, true, false, Option, none, some, String, same_text,
}

-- `SET key value PX ttl NX`, `GET key` and `DEL key`, at a time.
pub record Redis (R : Type 0) : Type 0 where
  pub set_nx : String → String → ℕ → ℕ → R → Bool × R
  pub get : String → ℕ → R → Option String
  pub del : String → R → R

pub record RedisLaws {R : Type 0} (r : Redis R) : Type 0 where
  -- NX: a key that is there is not set.
  pub set_refused :
      (k t v : String) (ttl now : ℕ) (x : R)
      → r.get k now x ≡ some v
      → r.set_nx k t ttl now x ≡ (false, x)
  pub set_accepted :
      (k t : String) (ttl now : ℕ) (x : R)
      → r.get k now x ≡ none
      → (r.set_nx k t ttl now x).0 ≡ true
  -- PX: the value is there until the time to live is over.
  pub set_holds :
      (k t : String) (ttl now later : ℕ) (x : R)
      → r.get k now x ≡ none
      → later < now + ttl
      → r.get k later (r.set_nx k t ttl now x).1 ≡ some t
  pub set_other :
      (k j t : String) (ttl now later : ℕ) (x : R)
      → same_text k j ≡ false
      → r.get j later (r.set_nx k t ttl now x).1 ≡ r.get j later x
  pub del_gone : (k : String) (now : ℕ) (x : R) → r.get k now (r.del k x) ≡ none
  pub del_other :
      (k j : String) (now : ℕ) (x : R)
      → same_text k j ≡ false
      → r.get j now (r.del k x) ≡ r.get j now x
