-- ===== src/Locks/Holder.antt =====
-- Who holds a lock (src/common/locking/redis-lock.service.ts).
use collabos_backend.Base.{
  Bool-cases, Option-cases, inl, inr, ℕ, ◌+◌, ◌<◌, ◌≡◌, ap, ◌∙◌, false, none, some, String, List,
  [], ◌∷◌, arith, same_text, same_text_path, if◌then◌else◌,
}
use collabos_backend.Locks.Redis.{Redis, RedisLaws}
use collabos_backend.Locks.Service.{lock_name, acquire, release, release_held}

-- A caller asks for a lock (key, token, time to live, time) or gives one back.
pub data LockCall : Type 0 where
  acquire_call : String → String → ℕ → ℕ → LockCall
  release_call : String → String → ℕ → LockCall

-- The call is made with another token, before the time.
abbrev pub IsForeign : String → ℕ → LockCall → Type 0
IsForeign token until (acquire_call k t ttl now) = (same_text token t ≡ false) × (now < until)
IsForeign token until (release_call k t now) = (same_text token t ≡ false) × (now < until)

abbrev pub AllForeign : String → ℕ → List LockCall → Type 0
AllForeign token until [] = Unit
AllForeign token until (c ∷ cs) = IsForeign token until c × AllForeign token until cs

module _ {R : Type 0} (redis : Redis R) where
  unfoldable pub step : LockCall → R → R
  step (acquire_call k t ttl now) x = (acquire redis k t ttl now x).1
  step (release_call k t now) x = (release redis k t now x).1

  unfoldable pub run : List LockCall → R → R
  unfolding step
  run [] x = x
  run (c ∷ cs) x = run cs (step c x)

  -- Until the time, the lock is held with the token.
  abbrev pub IsHeld : String → String → ℕ → R → Type 0
  IsHeld key token until x = (now : ℕ) → now < until → redis.get (lock_name key) now x ≡ some token

module _ {R : Type 0} (redis : Redis R) (laws : RedisLaws redis) (key token : String)
    (until : ℕ) where
  acquire-IsHeld :
      (k t : String) (ttl now : ℕ) (x : R)
      → now < until
      → IsHeld redis key token until x
      → IsHeld redis key token until (acquire redis k t ttl now x).1
  unfolding acquire
  acquire-IsHeld k t ttl now x early h later before =
      elim (Bool-cases (same_text (lock_name k) (lock_name key))) [
        | inl same ↦
            (let named = same_text_path (lock_name k) (lock_name key) same in
              ap (λ r. redis.get (lock_name key) later r.1)
                (laws.set_refused (lock_name k) t token ttl now x
                  (ap (λ n. redis.get n now x) named ∙ h now early))
              ∙ h later before)
        | inr other ↦
            laws.set_other (lock_name k) (lock_name key) t ttl now later x other ∙ h later before
      ]

  release-IsHeld :
      (k t : String) (now : ℕ) (x : R)
      → same_text token t ≡ false
      → now < until
      → IsHeld redis key token until x
      → IsHeld redis key token until (release redis k t now x).1
  unfolding release
  release-IsHeld k t now x foreign early h later before =
      elim (Bool-cases (same_text (lock_name k) (lock_name key))) [
        | inl same ↦
            (let named = same_text_path (lock_name k) (lock_name key) same in
              ap (λ g. redis.get (lock_name key) later (release_held redis (lock_name k) t g x).1)
                (ap (λ n. redis.get n now x) named ∙ h now early)
              ∙ ground (arith, foreign, h later before))
        | inr other ↦ elim (Option-cases (redis.get (lock_name k) now x)) [
          | inl e ↦ ground (arith, e, h later before)
          | inr (v, e) ↦
              ground (
                arith,
                e,
                h later before,
                laws.del_other (lock_name k) (lock_name key) later x other,
              )
        ]
      ]

  step-IsHeld :
      (c : LockCall) (x : R)
      → IsForeign token until c
      → IsHeld redis key token until x
      → IsHeld redis key token until (step redis c x)
  unfolding step
  step-IsHeld (acquire_call k t ttl now) x foreign h = acquire-IsHeld k t ttl now x foreign.1 h
  step-IsHeld (release_call k t now) x foreign h = release-IsHeld k t now x foreign.0 foreign.1 h

  run-IsHeld :
      (cs : List LockCall) (x : R)
      → AllForeign token until cs
      → IsHeld redis key token until x
      → IsHeld redis key token until (run redis cs x)
  unfolding run
  run-IsHeld [] x foreign h = h
  run-IsHeld (c ∷ cs) x foreign h =
      run-IsHeld cs (step redis c x) foreign.1 (step-IsHeld c x foreign.0 h)

  held_refused :
      (t : String) (ttl now : ℕ) (x : R)
      → now < until
      → IsHeld redis key token until x
      → (acquire redis key t ttl now x).0 ≡ none
  unfolding acquire
  held_refused t ttl now x early h =
      ap (λ r. if r.0 then some t else none)
        (laws.set_refused (lock_name key) t token ttl now x (h now early))

acquired-IsHeld :
    {R : Type 0} (redis : Redis R) (laws : RedisLaws redis) (key token : String) (ttl now : ℕ)
    (x : R)
    → (acquire redis key token ttl now x).0 ≡ some token
    → IsHeld redis key token (now + ttl) (acquire redis key token ttl now x).1
unfolding acquire
acquired-IsHeld redis laws key token ttl now x h later before =
    elim (Option-cases (redis.get (lock_name key) now x)) [
      | inl free ↦ laws.set_holds (lock_name key) token ttl now later x free before
      | inr (v, taken) ↦ absurd (
          ground
            (arith, h, ap (λ r. r.0) (laws.set_refused (lock_name key) token v ttl now x taken)))
    ]

-- Once a caller has acquired a lock, nobody else acquires it until its time to live is over,
-- whatever locks the others ask for and give back meanwhile, with tokens of their own.
pub acquired_excludes :
    {R : Type 0} (redis : Redis R) (laws : RedisLaws redis) (key token other : String)
    (ttl now other_ttl later : ℕ) (cs : List LockCall) (x : R)
    → (acquire redis key token ttl now x).0 ≡ some token
    → AllForeign token (now + ttl) cs
    → later < now + ttl
    → (acquire redis key other other_ttl later
        (run redis cs (acquire redis key token ttl now x).1)).0
      ≡ none
acquired_excludes redis laws key token other ttl now other_ttl later cs x h foreign early =
    held_refused redis laws key token (now + ttl) other other_ttl later
      (run redis cs (acquire redis key token ttl now x).1) early
      (run-IsHeld redis laws key token (now + ttl) cs (acquire redis key token ttl now x).1 foreign
        (acquired-IsHeld redis laws key token ttl now x h))
