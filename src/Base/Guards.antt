-- ===== src/Base/Guards.antt =====
-- Actions that only read and guard before their last step: where they may end.
use mathlib.Core.Path.{◌≡◌, refl, subst}
use mathlib.Core.Bool.{Bool, true, false}
use mathlib.Core.Option.{Option, none, some}
use native.Mathlib.Omega.{arith}
use collabos_backend.Base.Results.{
  Exception, Result, ok, err, Action, gets, throw_if, some_or_throw, continue, ◌>>=◌, ◌>>◌,
}
use collabos_backend.Base.Invariants.{OnSuccess, Ensures}

-- The action ends in a state with the property, whether it returns or throws.
pub record Ends {S A : Type 0} (P : S → Type 0) (s : S) (m : Action S A) : Type 0 where
  pub apply : P (m s).1

module _ {S : Type 0} {P : S → Type 0} {s : S} where
  pub Ends-gets :
      {A B : Type 0} (f : S → A) (g : A → Action S B)
      → ((a : A) → Ends P s (g a))
      → Ends P s (gets f >>= g)
  Ends-gets f g h = record { apply = (h (f s)).apply }

  pub Ends-throw_if :
      {B : Type 0} (c : Bool) (e : Exception) (k : Action S B)
      → P s
      → Ends P s k
      → Ends P s (throw_if c e >> k)
  Ends-throw_if true e k hs hk = record { apply = hs }
  Ends-throw_if false e k hs hk = record { apply = hk.apply }

  pub Ends-some :
      {A B : Type 0} (o : Option A) (e : Exception) (g : A → Action S B)
      → P s
      → ((a : A) → Ends P s (g a))
      → Ends P s (some_or_throw o e >>= g)
  Ends-some none e g hs h = record { apply = hs }
  Ends-some (some a) e g hs h = record { apply = (h a).apply }

-- From one state, the action throws or ends as stated; each guard that it passed is known.
pub record Reaches {S A : Type 0} (Q : A → S → Type 0) (s : S) (m : Action S A) : Type 0 where
  pub apply : OnSuccess Q (m s)

reached :
    {S A B : Type 0} (Q : A → S → Type 0) (R : B → S → Type 0) (f : A → Action S B)
    (r : Result A × S)
    → OnSuccess Q r
    → ((a : A) → Ensures (Q a) (f a) R)
    → OnSuccess R (continue f r)
reached Q R f (ok a, t) h k = (k a).apply t h
reached Q R f (err e, t) h k = tt

module _ {S B : Type 0} {Q : B → S → Type 0} {s : S} where
  pub Reaches-gets :
      {A : Type 0} (f : S → A) (g : A → Action S B)
      → Reaches Q s (g (f s))
      → Reaches Q s (gets f >>= g)
  Reaches-gets f g h = record { apply = h.apply }

  pub Reaches-throw_if :
      (c : Bool) (e : Exception) (k : Action S B)
      → (c ≡ false → Reaches Q s k)
      → Reaches Q s (throw_if c e >> k)
  Reaches-throw_if true e k h = record { apply = tt }
  Reaches-throw_if false e k h = record { apply = (h refl).apply }

  pub Reaches-some :
      {A : Type 0} (o : Option A) (e : Exception) (g : A → Action S B)
      → ((a : A) → o ≡ some a → Reaches Q s (g a))
      → Reaches Q s (some_or_throw o e >>= g)
  Reaches-some none e g h = record { apply = tt }
  Reaches-some (some a) e g h = record { apply = (h a refl).apply }

  pub Reaches-bind :
      {A : Type 0} (P : A → S → Type 0) (m : Action S A) (g : A → Action S B)
      → Reaches P s m
      → ((a : A) → Ensures (P a) (g a) Q)
      → Reaches Q s (m >>= g)
  Reaches-bind P m g h k = record { apply = reached P Q g (m s) h.apply k }

ok_injective : {A : Type 0} (a b : A) → ok a ≡ ok b → a ≡ b
ok_injective a b e = ground (arith, e)

of_success_value :
    {S A : Type 0} (Q : A → S → Type 0) (r : Result A × S) (a : A)
    → r.0 ≡ ok a
    → OnSuccess Q r
    → Q a r.1
of_success_value Q (ok b, s) a e h = subst (λ x. Q x s) (ok_injective b a e) h
of_success_value Q (err x, s) a e h = absurd (ground (arith, e))

-- A result that is known, read off what the action reaches.
pub of_reached :
    {S A : Type 0} (Q : A → S → Type 0) (s : S) (m : Action S A) (a : A)
    → Reaches Q s m
    → (m s).0 ≡ ok a
    → Q a (m s).1
of_reached Q s m a h e = of_success_value Q (m s) a e h.apply
