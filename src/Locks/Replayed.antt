-- ===== src/Locks/Replayed.antt =====
-- A request that comes again with its idempotency key
-- (src/common/idempotency/idempotency.interceptor.ts).
use collabos_backend.Base.{
  Option-cases, Result-cases, inl, inr, ◌≡◌, refl, Bool, false, ap, sym, ◌∙◌, subst, true, none,
  some, String, arith, is_some, same_text, same_text_refl, ok, err, Action, Reaches, of_reached,
  conflict, if◌then◌else◌,
}
use collabos_backend.Prisma.{Table}
use collabos_backend.Locks.Redis.{Redis}
use collabos_backend.Locks.Service.{acquire}
use collabos_backend.Locks.Idempotency.{
  IdempotencyKey, Server, HttpRequest, stored_answer, lock_key, lock_ttl_ms, handle, release_lock,
  store_answer, answer_locked, intercept_key, intercept,
}

-- The answer to the key is stored, for the path and with the body.
abbrev pub IsAnswered :
    {Body : Type 0} → String → String → Body → Table (IdempotencyKey Body) → Type 0
IsAnswered key path body t = elim (stored_answer key t) [
  | none ↦ ⊥
  | some (id, a) ↦ (a.response_body ≡ body) × (same_text a.request_path path ≡ true)
]

module _ {R H Body : Type 0} (redis : Redis R) (handler : Action H Body) (key : String) where
  intercept-Reaches :
      (req : HttpRequest) (s : Server R H Body)
      → Reaches
          (λ body t. IsAnswered key req.path body t.answers)
          s
          (intercept_key redis handler key req)
  unfolding intercept_key answer_locked store_answer release_lock handle
  intercept-Reaches req s = record {
    apply = elim (Option-cases (stored_answer key s.answers)) [
      | inr (v, e) ↦ ground (arith, e, same_text_refl req.path)
      | inl e ↦ elim (Result-cases (handler s.app).0) [
        | inl (body, done) ↦ ground (arith, e, done, same_text_refl req.path, same_text_refl key)
        | inr (x, failed) ↦ ground (arith, e, failed)
      ]
    ];
  }

  again :
      (req : HttpRequest) (body : Body) (s : Server R H Body)
      → IsAnswered key req.path body s.answers
      → ((intercept_key redis handler key req s).1.app ≡ s.app)
        × ((intercept_key redis handler key req s).0 ≡ (
            if is_some (acquire redis (lock_key key) req.token lock_ttl_ms req.now s.redis).0
            then ok body
            else err (conflict "A request with this Idempotency-Key is already in progress")))
  unfolding intercept_key answer_locked store_answer release_lock handle
  again req body s h = elim (Option-cases (stored_answer key s.answers)) [
    | inr (v, e) ↦ ground (arith, e, h)
    | inl e ↦ ground (arith, e, h)
  ]

module _ {R H Body : Type 0} (redis : Redis R) (handler : Action H Body) where
  given_key :
      (c : Bool) (key : String) (req : HttpRequest)
      → c ≡ false
      → (if c then handle redis handler else intercept_key redis handler key req)
        ≡ intercept_key redis handler key req
  given_key true key req e = absurd (ground (arith, e))
  given_key false key req e = refl

  intercept-key :
      (key : String) (req : HttpRequest)
      → req.header ≡ some key
      → same_text key "" ≡ false
      → intercept redis handler req ≡ intercept_key redis handler key req
  unfolding intercept
  intercept-key key req e given =
      ap
        (λ header. elim header [
          | none ↦ handle redis handler
          | some k ↦
              if same_text k "" then handle redis handler else intercept_key redis handler k req
        ])
        e
      ∙ given_key (same_text key "") key req given

-- Once a request with an idempotency key that is not empty has been answered, the same request does not run the
-- handler again: the state of the application stays as it is, and the answer is the first one, or
-- a conflict where the lock of the key is held at that moment.
pub answered_runs_once :
    {R H Body : Type 0} (redis : Redis R) (handler : Action H Body) (key : String)
    (req later : HttpRequest) (body : Body) (s : Server R H Body)
    → req.header ≡ some key
    → later.header ≡ some key
    → same_text key "" ≡ false
    → req.path ≡ later.path
    → (intercept redis handler req s).0 ≡ ok body
    → ((intercept redis handler later (intercept redis handler req s).1).1.app
        ≡ (intercept redis handler req s).1.app)
      × ((intercept redis handler later (intercept redis handler req s).1).0 ≡ (
          if is_some
            (acquire redis
              (lock_key key)
              later.token
              lock_ttl_ms
              later.now
              (intercept redis handler req s).1.redis).0
          then ok body
          else err (conflict "A request with this Idempotency-Key is already in progress")))
answered_runs_once redis handler key req later body s first second given same h =
    let opened = intercept-key redis handler key req first given in
    let stored =
      of_reached (λ b t. IsAnswered key req.path b t.answers) s
        (intercept_key redis handler key req) body (intercept-Reaches redis handler key req s)
        (ap (λ m. (m s).0) (sym opened) ∙ h) in
    let after = subst (λ m. IsAnswered key req.path body (m s).1.answers) (sym opened) stored in
    subst
      (λ m.
        ((m (intercept redis handler req s).1).1.app ≡ (intercept redis handler req s).1.app)
        × ((m (intercept redis handler req s).1).0 ≡ (
            if is_some
              (acquire redis (lock_key key) later.token lock_ttl_ms later.now
                (intercept redis handler req s).1.redis).0
            then ok body
            else err (conflict "A request with this Idempotency-Key is already in progress"))))
      (sym (intercept-key redis handler key later second given))
      (again redis handler key later body (intercept redis handler req s).1 (
        subst (λ path. IsAnswered key path body (intercept redis handler req s).1.answers) same
          after))
