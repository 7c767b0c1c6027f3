-- ===== src/Base/Results.antt =====
-- Exceptions of the services (the classes of @nestjs/common with their messages) and the actions
-- of a service: a state of database tables goes in, a result and the tables come out. What was
-- written before a throw stays written; `transaction` is the one place that rolls back.
use Prim.Native.String.{String}
use mathlib.Core.Path.{◌≡◌, refl}
use mathlib.Core.Logic.{◌⊎◌, inl, inr}
use mathlib.Core.Bool.{Bool, true, false}
use mathlib.Core.Option.{Option, none, some}
use collabos_backend.Base.Tests.{if◌then◌else◌}

pub data Exception : Type 0 where
  bad_request conflict forbidden not_found unauthorized : String → Exception
  -- a write whose row is missing (Prisma's P2025), a unique column used twice (P2002)
  record_not_found unique_violation : Exception
  -- a row that others still refer to (P2003)
  foreign_key_violation : Exception
  -- a call to Stripe, to the file system or to another service that failed
  external_failure : String → Exception

pub data Result {ℓ} (A : Type ℓ) : Type ℓ where
  ok : A → Result A
  err : Exception → Result A

abbrev pub is_ok {ℓ} : {A : Type ℓ} → Result A → Bool
is_ok (ok a) = true
is_ok (err e) = false

pub Result-cases {ℓ} :
    {A : Type ℓ} (r : Result A) → ((a : A) × (r ≡ ok a)) ⊎ ((e : Exception) × (r ≡ err e))
Result-cases (ok a) = inl (a, refl)
Result-cases (err e) = inr (e, refl)

abbrev pub Action : Type 0 → Type 0 → Type 0
Action S A = S → Result A × S

module _ {S A : Type 0} where
  abbrev pub pure : A → Action S A
  pure a s = (ok a, s)

  abbrev pub throw : Exception → Action S A
  throw e s = (err e, s)

  abbrev pub gets : (S → A) → Action S A
  gets f s = (ok (f s), s)

  -- A value that may be missing, or a throw.
  abbrev pub some_or_throw : Option A → Exception → Action S A
  some_or_throw none e = throw e
  some_or_throw (some a) e = pure a

  abbrev pub lift : Result A → Action S A
  lift r s = (r, s)

-- The rest of a chain after one result.
abbrev pub continue : {S A B : Type 0} → (A → Action S B) → Result A × S → Result B × S
continue f (ok a, s) = f a s
continue f (err e, s) = (err e, s)

-- The state after a transaction that began at `s`.
abbrev pub commit_or_undo : {S A : Type 0} → S → Result A × S → Result A × S
commit_or_undo s (ok a, t) = (ok a, t)
commit_or_undo s (err e, t) = (err e, s)

infixl 5 ◌>>=◌ ◌>>◌
abbrev pub ◌>>=◌ : {S A B : Type 0} → Action S A → (A → Action S B) → Action S B
◌>>=◌ m f s = continue f (m s)

abbrev pub ◌>>◌ : {S A B : Type 0} → Action S A → Action S B → Action S B
m >> k = m >>= λ _. k

module _ {S : Type 0} where
  -- `if (c) throw e;`
  abbrev pub throw_if : Bool → Exception → Action S (Unit {0})
  throw_if c e s = (if c then err e else ok tt, s)

  abbrev pub modify : (S → S) → Action S (Unit {0})
  modify f s = (ok tt, f s)

  -- An interactive transaction of Prisma: a throw undoes every write.
  abbrev pub transaction : {A : Type 0} → Action S A → Action S A
  transaction m s = commit_or_undo s (m s)
