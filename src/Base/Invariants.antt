-- ===== src/Base/Invariants.antt =====
-- Actions that keep a predicate of the state, whether they return or throw: rules by which an
-- invariant of a service method follows from that of its steps.
use mathlib.Core.Path.{◌≡◌, refl}
use mathlib.Core.Bool.{Bool, true, false}
use mathlib.Core.Option.{Option, none, some}
use native.Mathlib.Omega.{arith}
use collabos_backend.Base.Tests.{if◌then◌else◌}
use collabos_backend.Base.Results.{
  Exception, Result, ok, err, Action, pure, throw, gets, some_or_throw, lift, continue,
  commit_or_undo, ◌>>=◌, ◌>>◌, throw_if, modify, transaction,
}

module _ {S : Type 0} (P : S → Type 0) where
  pub record Keeps {A : Type 0} (m : Action S A) : Type 0 where
    pub apply : (s : S) → P s → P (m s).1

after_transaction :
    {S A : Type 0} (P : S → Type 0) (r : Result A × S) (s : S)
    → P s
    → P r.1
    → P (commit_or_undo s r).1
after_transaction P (ok a, t) s hs ht = ht
after_transaction P (err e, t) s hs ht = hs

module _ {S : Type 0} {P : S → Type 0} where
  pub after_bind :
      {A B : Type 0} (f : A → Action S B) (r : Result A × S)
      → ((a : A) → Keeps P (f a))
      → P r.1
      → P (continue f r).1
  after_bind f (ok a, s) keep h = (keep a).apply s h
  after_bind f (err e, s) keep h = h

  pub Keeps-bind :
      {A B : Type 0} {m : Action S A} {f : A → Action S B}
      → Keeps P m
      → ((a : A) → Keeps P (f a))
      → Keeps P (m >>= f)
  Keeps-bind {m} {f} km kf = record { apply = λ s h. after_bind f (m s) kf (km.apply s h) }

  pub Keeps-then :
      {A B : Type 0} {m : Action S A} {k : Action S B} → Keeps P m → Keeps P k → Keeps P (m >> k)
  Keeps-then km kk = Keeps-bind km (λ _. kk)

  pub Keeps-pure : {A : Type 0} (a : A) → Keeps P (pure a)
  Keeps-pure a = record { apply = λ s h. h }

  pub Keeps-throw : {A : Type 0} (e : Exception) → Keeps P (throw {A = A} e)
  Keeps-throw e = record { apply = λ s h. h }

  pub Keeps-gets : {A : Type 0} (f : S → A) → Keeps P (gets f)
  Keeps-gets f = record { apply = λ s h. h }

  pub Keeps-lift : {A : Type 0} (r : Result A) → Keeps P (lift r)
  Keeps-lift r = record { apply = λ s h. h }

  pub Keeps-throw_if : (c : Bool) (e : Exception) → Keeps P (throw_if c e)
  Keeps-throw_if c e = record { apply = λ s h. h }

  pub Keeps-some : {A : Type 0} (o : Option A) (e : Exception) → Keeps P (some_or_throw o e)
  Keeps-some none e = record { apply = λ s h. h }
  Keeps-some (some a) e = record { apply = λ s h. h }

  pub Keeps-modify : (f : S → S) → ((s : S) → P s → P (f s)) → Keeps P (modify f)
  Keeps-modify f keep = record { apply = keep }

  pub Keeps-if :
      {A : Type 0} (c : Bool) {m k : Action S A}
      → Keeps P m
      → Keeps P k
      → Keeps P (if c then m else k)
  Keeps-if true km kk = km
  Keeps-if false km kk = kk

  pub Keeps-transaction : {A : Type 0} {m : Action S A} → Keeps P m → Keeps P (transaction m)
  Keeps-transaction {m} km = record { apply = λ s h. after_transaction P (m s) s h (km.apply s h) }

-- What a successful end establishes; a throw promises nothing.
abbrev pub OnSuccess : {S A : Type 0} → (A → S → Type 0) → Result A × S → Type 0
OnSuccess Q (ok a, s) = Q a s
OnSuccess Q (err e, s) = Unit

-- From a state with `P`, the action throws or ends in a state with `Q`.
pub record Ensures {S A : Type 0} (P : S → Type 0) (m : Action S A) (Q : A → S → Type 0)
    : Type 0 where
  pub apply : (s : S) → P s → OnSuccess Q (m s)

success_bind :
    {S A B : Type 0} (Q : A → S → Type 0) (R : B → S → Type 0) (f : A → Action S B)
    (r : Result A × S)
    → ((a : A) → Ensures (Q a) (f a) R)
    → OnSuccess Q r
    → OnSuccess R (continue f r)
success_bind Q R f (ok a, s) keep h = (keep a).apply s h
success_bind Q R f (err e, s) keep h = tt

pub Ensures-bind :
    {S A B : Type 0} {P : S → Type 0} {m : Action S A} (Q : A → S → Type 0) {f : A → Action S B}
    {R : B → S → Type 0}
    → Ensures P m Q
    → ((a : A) → Ensures (Q a) (f a) R)
    → Ensures P (m >>= f) R
Ensures-bind {m} Q {f} {R} em ef = record {
  apply = λ s h. success_bind Q R f (m s) ef (em.apply s h);
}

-- The last step establishes it from any state.
pub success_last :
    {S A : Type 0} (Q : S → Type 0) (f : S → S) (r : Result A × S)
    → ((t : S) → Q (f t))
    → OnSuccess (λ _ t. Q t) (continue (λ _. modify f) r)
success_last Q f (ok a, t) h = h t
success_last Q f (err e, t) h = tt

pub success_if :
    {S A : Type 0} (Q : S → Type 0) (c : Bool) (m k : Action S A) (s : S)
    → (c ≡ true → OnSuccess (λ _ t. Q t) (m s))
    → (c ≡ false → OnSuccess (λ _ t. Q t) (k s))
    → OnSuccess (λ _ t. Q t) ((if c then m else k) s)
success_if Q true m k s hm hk = hm refl
success_if Q false m k s hm hk = hk refl

any_success : {S A : Type 0} (r : Result A × S) → OnSuccess (λ _ _. Unit {0}) r
any_success (ok a, s) = tt
any_success (err e, s) = tt

pub Ensures-any : {S A : Type 0} (m : Action S A) → Ensures (λ _. Unit {0}) m (λ _ _. Unit {0})
Ensures-any m = record { apply = λ s h. any_success (m s) }

-- What the last step establishes, whatever went before it.
pub Ensures-last :
    {S A B : Type 0} (m : Action S A) {f : A → Action S B} {R : B → S → Type 0}
    → ((a : A) → Ensures (λ _. Unit {0}) (f a) R)
    → Ensures (λ _. Unit {0}) (m >>= f) R
Ensures-last m ef = Ensures-bind (λ _ _. Unit {0}) (Ensures-any m) ef

-- A result that is known to be a success.
pub of_success :
    {S A : Type 0} (Q : S → Type 0) (r : Result A × S) (a : A)
    → r.0 ≡ ok a
    → OnSuccess (λ _ t. Q t) r
    → Q r.1
of_success Q (ok b, s) a e h = h
of_success Q (err x, s) a e h = absurd (ground (arith, e))

success_of : {S A : Type 0} (P : S → Type 0) (r : Result A × S) → P r.1 → OnSuccess (λ _ t. P t) r
success_of P (ok a, s) h = h
success_of P (err e, s) h = tt

pub Ensures-of_Keeps :
    {S A : Type 0} {P : S → Type 0} {m : Action S A} → Keeps P m → Ensures P m (λ _ t. P t)
Ensures-of_Keeps {P} {m} km = record { apply = λ s h. success_of P (m s) (km.apply s h) }

weaken_success :
    {S A : Type 0} (Q R : A → S → Type 0) (r : Result A × S)
    → ((a : A) (s : S) → Q a s → R a s)
    → OnSuccess Q r
    → OnSuccess R r
weaken_success Q R (ok a, s) weaken h = weaken a s h
weaken_success Q R (err e, s) weaken h = tt

pub Ensures-weaken :
    {S A : Type 0} {P : S → Type 0} {m : Action S A} (Q : A → S → Type 0) {R : A → S → Type 0}
    → Ensures P m Q
    → ((a : A) (s : S) → Q a s → R a s)
    → Ensures P m R
Ensures-weaken {m} Q {R} em weaken = record {
  apply = λ s h. weaken_success Q R (m s) weaken (em.apply s h);
}

-- A triple from a weaker assumption.
pub Ensures-from :
    {S A : Type 0} (P : S → Type 0) {P' : S → Type 0} {m : Action S A} {Q : A → S → Type 0}
    → Ensures P m Q
    → ((s : S) → P' s → P s)
    → Ensures P' m Q
Ensures-from P em stronger = record { apply = λ s h. em.apply s (stronger s h) }

commit_success :
    {S A : Type 0} (P : S → Type 0) (r : Result A × S) (s : S)
    → P s
    → OnSuccess (λ _ t. P t) r
    → P (commit_or_undo s r).1
commit_success P (ok a, t) s hs ht = ht
commit_success P (err e, t) s hs ht = hs

-- A transaction may break an invariant on the way, if it is restored at a successful end.
pub Keeps-commit :
    {S A : Type 0} {P : S → Type 0} {m : Action S A}
    → Ensures P m (λ _ t. P t)
    → Keeps P (transaction m)
Keeps-commit {P} {m} em = record { apply = λ s h. commit_success P (m s) s h (em.apply s h) }

pub ruleset keeps_rules = (
  Keeps-bind, Keeps-then, Keeps-pure, Keeps-throw, Keeps-gets, Keeps-lift, Keeps-throw_if,
  Keeps-some, Keeps-if, Keeps-transaction,
)
