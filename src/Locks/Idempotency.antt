-- ===== src/Locks/Idempotency.antt =====
-- IdempotencyInterceptor (src/common/idempotency/idempotency.interceptor.ts) around a handler of
-- requests, which has a state of its own.
use collabos_backend.Base.{
  ℕ, not, Option, none, some, String, append, same_text, Result, ok, err, Action, ◌>>=◌, ◌>>◌, pure,
  throw, throw_if, gets, modify, conflict, unique_violation, is_some, if◌then◌else◌,
}
use collabos_backend.Prisma.{Table, find_first, create}
use collabos_backend.Locks.Redis.{Redis}
use collabos_backend.Locks.Service.{acquire, release}

pub record IdempotencyKey (Body : Type 0) : Type 0 where
  pub key : String
  pub request_path : String
  pub response_body : Body
  pub status_code : ℕ

-- The store of locks, the stored answers and the state of the application.
pub record Server (R H Body : Type 0) : Type 0 where
  pub redis : R
  pub answers : Table (IdempotencyKey Body)
  pub app : H

abbrev pub lock_ttl_ms : ℕ
lock_ttl_ms = 10000

-- What a request brings: its header, its path, the token that is drawn, the key of a new row, the
-- time of its start and that of its end.
pub record HttpRequest : Type 0 where
  pub header : Option String
  pub path : String
  pub token : String
  pub row_key : ℕ
  pub now : ℕ
  pub end : ℕ

-- `findUnique({ where: { key } })`
abbrev pub stored_answer :
    {Body : Type 0} → String → Table (IdempotencyKey Body) → Option (ℕ × IdempotencyKey Body)
stored_answer key = find_first (λ _ a. same_text a.key key)

abbrev pub lock_key : String → String
lock_key key = append "idempotency:" key

module _ {R H Body : Type 0} (redis : Redis R) (handler : Action H Body) where
  -- `next.handle()`
  unfoldable pub handle : Action (Server R H Body) Body
  handle s = let result = handler s.app in (result.0, record s { app = result.1 })

  unfoldable pub release_lock : String → HttpRequest → Action (Server R H Body) (Unit {0})
  release_lock key req =
      modify λ s. record s { redis = (release redis (lock_key key) req.token req.end s.redis).1 }

  -- The pipe behind the handler: a success is stored, and the lock is released in any case.
  unfoldable pub store_answer : String → HttpRequest → Result Body → Action (Server R H Body) Body
  store_answer key req (err e) = do release_lock key req; throw e
  store_answer key req (ok body) = do
    taken ← gets (λ s. stored_answer key s.answers)
    (if is_some taken then (do release_lock key req; throw unique_violation) else pure tt)
    modify λ s. record s {
      answers =
          create req.row_key
            (record { key = key; request_path = req.path; response_body = body; status_code = 201 })
            s.answers;
    }
    release_lock key req
    pure body

  unfoldable pub answer_locked :
      String → HttpRequest → Option (ℕ × IdempotencyKey Body) → Action (Server R H Body) Body
  answer_locked key req (some (id, existing)) = do
    release_lock key req
    throw_if (not (same_text existing.request_path req.path))
        (conflict "This Idempotency-Key was already used for a different request")
    pure existing.response_body
  answer_locked key req none = λ s. store_answer key req (handle s).0 (handle s).1

  unfoldable pub intercept_key : String → HttpRequest → Action (Server R H Body) Body
  intercept_key key req = do
    acquired ← gets (λ s. acquire redis (lock_key key) req.token lock_ttl_ms req.now s.redis)
    modify (λ s. record s { redis = acquired.1 })
    throw_if (not (is_some acquired.0))
        (conflict "A request with this Idempotency-Key is already in progress")
    existing ← gets (λ s. stored_answer key s.answers)
    answer_locked key req existing

  -- `intercept`; an empty header counts as none
  unfoldable pub intercept : HttpRequest → Action (Server R H Body) Body
  intercept req = elim req.header [
    | none ↦ handle
    | some key ↦ if same_text key "" then handle else intercept_key key req
  ]
