-- ===== src/Base/Enums.antt =====
-- The enums of prisma/schema.prisma are data types; `a is b` is the source's `a === b` on them.
use Prim.Native.Nat.{ℕ}
use mathlib.Core.Path.{◌≡◌}
use mathlib.Core.Bool.{Bool, false, ◌||◌}
use mathlib.Core.List.{List, [], ◌∷◌}
use collabos_backend.Base.Tests.{◌==◌}

pub record Enum (A : Type 0) : Type 0 where
  pub code : A → ℕ
  pub code_injective : (a b : A) → code a ≡ code b → a ≡ b

infix 50 ◌is◌
abbrev pub ◌is◌ : {A : Type 0} ⦃e : Enum A⦄ → A → A → Bool
◌is◌ ⦃e⦄ a b = e.code a == e.code b

-- `[s1, s2, ...].includes(s)`
abbrev pub one_of : {A : Type 0} ⦃e : Enum A⦄ → List A → A → Bool
one_of [] s = false
one_of (x ∷ xs) s = s is x || one_of xs s
