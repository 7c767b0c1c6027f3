-- ===== src/Locks/Service.antt =====
-- RedisLockService (src/common/locking/redis-lock.service.ts). A token is the uuid that `acquire`
-- draws.
use collabos_backend.Base.{
  ℕ, Bool, true, false, Option, none, some, String, append, same_text, if◌then◌else◌,
}
use collabos_backend.Locks.Redis.{Redis}

-- `LOCK_PREFIX + key`
unfoldable pub lock_name : String → String
lock_name key = append "lock:" key

module _ {R : Type 0} (redis : Redis R) where
  -- `acquire`
  unfoldable pub acquire : String → String → ℕ → ℕ → R → Option String × R
  acquire key token ttl now x =
      let answer = redis.set_nx (lock_name key) token ttl now x in
      (if answer.0 then some token else none, answer.1)

  -- RELEASE_SCRIPT, which Redis runs as one step, by what `get` answered
  abbrev pub release_held : String → String → Option String → R → Bool × R
  release_held name token none x = (false, x)
  release_held name token (some held) x =
      if same_text held token then (true, redis.del name x) else (false, x)

  -- `release`
  unfoldable pub release : String → String → ℕ → R → Bool × R
  release key token now x = release_held (lock_name key) token (redis.get (lock_name key) now x) x

  -- `withLock`, where `fn` takes and gives the state and may fail
  unfoldable pub with_lock :
      {A : Type 0} → String → String → ℕ → ℕ → ℕ → (R → A × R) → R → Option A × R
  with_lock key token ttl now later fn x =
      let acquired = acquire key token ttl now x in
      elim acquired.0 [
        | none ↦ (none, acquired.1)
        | some held ↦
            let result = fn acquired.1 in (some result.0, (release key held later result.1).1)
      ]
