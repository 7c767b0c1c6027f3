-- ===== src/Base.antt =====
-- The names that every module shares: the libraries' names, passed on, tests on the native
-- numbers, and the children Enums (the database's enums), Integers (signed integers), Results (exceptions and service actions),
-- Strings (equality of strings) and Users (src/auth/interfaces/jwt-payload.interface.ts).
mod Tests
mod Integers
mod Results
mod Users
mod Enums
mod Invariants
mod Guards
mod Strings
pub use Tests.*
pub use Integers.*
pub use Results.*
pub use Enums.*
pub use Invariants.*
pub use Guards.*
pub use Strings.{same_text_refl, same_text_path}
unfoldable pub use Strings.{same_text, append}
pub use Users.{AuthenticatedUser}
unfoldable pub use Users.{includes, is_admin, same_user}
pub use Prim.Native.Nat.{ℕ, zero, suc, ◌+◌, ◌-◌, ◌*◌, ◌/◌, ◌%◌, ◌≤◌, ◌<◌}
pub use Prim.Native.String.{String}
pub use mathlib.Core.Path.{◌≡◌, refl, sym, ap, ◌∙◌, subst}
pub use mathlib.Core.Logic.{◌≢◌, ◌↔◌, ◌⊎◌, inl, inr}
pub use mathlib.Core.Bool.{Bool, true, false, not, ◌&&◌, ◌||◌}
pub use mathlib.Core.Option.{Option, none, some}
pub use mathlib.Core.List.{List, [], ◌∷◌, ◌++◌, map}
pub use native.Mathlib.Omega.{arith}
