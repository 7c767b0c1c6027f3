-- ===== src/Base/Strings.antt =====
-- Equality and concatenation of strings, kept shut in proofs.
use Prim.Native.String.{String, ◌++◌}
use mathlib.Core.Path.{◌≡◌}
use mathlib.Core.Bool.{Bool, true}
use text.Mathlib.Text.{◌==◌ as str_eq}
use text.Mathlib.TextPositions.{eq_refl}
use text.Mathlib.TextEquality.{eq_iff}

-- `s === t`
unfoldable pub same_text : String → String → Bool
same_text s t = str_eq s t

pub same_text_refl : (s : String) → same_text s s ≡ true
unfolding same_text
same_text_refl s = eq_refl s

pub same_text_path : (s t : String) → same_text s t ≡ true → s ≡ t
unfolding same_text
same_text_path s t h = (eq_iff s t).0 h

-- `s + t`, the parts of a template literal
unfoldable pub append : String → String → String
append s t = s ++ t
