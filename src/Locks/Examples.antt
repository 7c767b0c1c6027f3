-- ===== src/Locks/Examples.antt =====
-- A store of locks that behaves as Redis does, and a handler that counts its calls.
use collabos_backend.Base.{
  Bool-cases, inl, inr, ℕ, suc, ◌+◌, ◌≡◌, refl, ap, Bool, true, false, Option, none, some, String,
  List, [], ◌∷◌, arith, ok, err, conflict, is_some, ltb, same_text, same_text_refl, same_text_path,
  Action, if◌then◌else◌,
}
use collabos_backend.Locks.Redis.{Redis, RedisLaws}
use collabos_backend.Locks.Service.{acquire, release}
use collabos_backend.Locks.Idempotency.{
  Server, HttpRequest, intercept, lock_key, lock_ttl_ms, intercept_key, answer_locked, store_answer,
  release_lock, handle,
}
use collabos_backend.Locks.Holder.{LockCall, acquire_call, release_call, run, acquired_excludes}
use collabos_backend.Locks.Replayed.{answered_runs_once}

-- A value and the end of its time to live under each key, the newest first.
abbrev Entries : Type 0
Entries = List (String × (String × ℕ))

abbrev look_up : String → ℕ → Entries → Option String
look_up k now [] = none
look_up k now ((j, v) ∷ x) =
    if same_text j k then (if ltb now v.1 then some v.0 else none) else look_up k now x

abbrev forget : String → Entries → Entries
forget k [] = []
forget k ((j, v) ∷ x) = if same_text k j then forget k x else (j, v) ∷ forget k x

abbrev put : String → String → ℕ → ℕ → Entries → Bool × Entries
put k t ttl now x =
    if is_some (look_up k now x) then (false, x) else (true, (k, (t, now + ttl)) ∷ x)

abbrev store : Redis Entries
store = record { set_nx = put; get = look_up; del = forget }

look_up-forget : (k : String) (now : ℕ) (x : Entries) → look_up k now (forget k x) ≡ none
look_up-forget k now [] = refl
look_up-forget k now ((j, v) ∷ x) = elim (Bool-cases (same_text k j)) [
  | inl e ↦ ground (arith, e, look_up-forget k now x)
  | inr e ↦ elim (Bool-cases (same_text j k)) [
    | inl back ↦
        absurd (ground (arith, e, ap (same_text k) (same_text_path j k back), same_text_refl k))
    | inr other ↦ ground (arith, e, other, look_up-forget k now x)
  ]
]

look_up-forget_other :
    (k j : String) (now : ℕ) (x : Entries)
    → same_text k j ≡ false
    → look_up j now (forget k x) ≡ look_up j now x
look_up-forget_other k j now [] other = refl
look_up-forget_other k j now ((i, v) ∷ x) other = elim (Bool-cases (same_text k i)) [
  | inl e ↦ elim (Bool-cases (same_text i j)) [
    | inl f ↦ absurd (ground (arith, other, e, ap (λ m. same_text k m) (same_text_path i j f)))
    | inr f ↦ ground (arith, e, f, look_up-forget_other k j now x other)
  ]
  | inr e ↦ ground (arith, e, look_up-forget_other k j now x other)
]

store_laws : RedisLaws store
store_laws = record {
  set_refused = λ k t v ttl now x h. ground (arith, h);
  set_accepted = λ k t ttl now x h. ground (arith, h);
  set_holds = λ k t ttl now later x h before. ground (arith, h, before, same_text_refl k);
  set_other = λ k j t ttl now later x h. ground (arith, h);
  del_gone = look_up-forget;
  del_other = look_up-forget_other;
}

was_acquired : (acquire store "job" "a" 100 0 []).0 ≡ some "a"
unfolding acquire
was_acquired = refl

abbrev others : List LockCall
others = acquire_call "job" "b" 100 10 ∷ release_call "job" "b" 20 ∷ []

others_differ : same_text "a" "b" ≡ false
unfolding same_text
others_differ = refl

acquired_excludes_example :
    (acquire store "job" "c" 100 50 (run store others (acquire store "job" "a" 100 0 []).1)).0
    ≡ none
acquired_excludes_example =
    acquired_excludes store store_laws "job" "a" "c" 100 0 100 50 others [] was_acquired
      ((others_differ, omega arith), ((others_differ, omega arith), tt)) (omega arith)

abbrev count_calls : Action ℕ String
count_calls n = (ok "created", suc n)

abbrev request : String → ℕ → HttpRequest
request token now = record {
  header = some "k1";
  path = "/payments";
  token = token;
  row_key = now;
  now = now;
  end = now + 5;
}

abbrev server : Server Entries ℕ String
server = record { redis = []; answers = []; app = 0 }

first_answer : (intercept store count_calls (request "a" 10) server).0 ≡ ok "created"
unfolding intercept intercept_key acquire release answer_locked store_answer release_lock handle
    same_text
first_answer = refl

given : same_text "k1" "" ≡ false
unfolding same_text
given = refl

unkeyed :
    (intercept store count_calls (record (request "a" 10) { header = some "" }) server).1.app ≡ 1
unfolding intercept handle same_text
unkeyed = refl

answered_runs_once_example :
    ((intercept store count_calls
        (request "b" 20)
        (intercept store count_calls (request "a" 10) server).1).1.app
      ≡ (intercept store count_calls (request "a" 10) server).1.app)
    × ((intercept store count_calls
          (request "b" 20)
          (intercept store count_calls (request "a" 10) server).1).0
        ≡ (if is_some
              (acquire store
                (lock_key "k1")
                "b"
                lock_ttl_ms
                20
                (intercept store count_calls (request "a" 10) server).1.redis).0
            then ok "created"
            else err (conflict "A request with this Idempotency-Key is already in progress")))
answered_runs_once_example =
    answered_runs_once store count_calls "k1" (request "a" 10) (request "b" 20) "created" server
      refl refl given refl first_answer
