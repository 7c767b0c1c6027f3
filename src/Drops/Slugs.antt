-- ===== src/Drops/Slugs.antt =====
-- The loop of `generateUniqueSlug` (src/drops/services/drops.service.ts). `base` is the slug of the
-- title, `draw` the candidates with their random suffixes, in the order in which they are drawn.
use collabos_backend.Base.{
  ap, ◌∙◌, ℕ, zero, suc, ◌+◌, ◌<◌, ◌≡◌, refl, Bool, true, false, not, Option, none, some, String,
  arith, is_some, same_text, if◌then◌else◌,
}
use collabos_backend.Prisma.{Table, find_first}
use collabos_backend.Schema.Launches.{Drop}

abbrev pub is_taken : String → Table Drop → Bool
is_taken slug t = is_some (find_first (λ _ d. same_text d.slug slug) t)

-- The `while` loop from the `i`-th draw on, with fuel
unfoldable pub draw_slug : ℕ → (ℕ → String) → ℕ → Table Drop → Option String
draw_slug zero draw i t = none
draw_slug (suc fuel) draw i t =
    let rest = draw_slug fuel draw (suc i) t in if is_taken (draw i) t then rest else some (draw i)

unfoldable pub unique_slug : ℕ → String → (ℕ → String) → Table Drop → Option String
unique_slug fuel base draw t = if is_taken base t then draw_slug fuel draw 0 t else some base

-- The slug is there and no drop has it.
abbrev pub is_free_slug : Option String → Table Drop → Bool
is_free_slug none t = false
is_free_slug (some slug) t = not (is_taken slug t)

plus_zero : (i : ℕ) → i ≡ i + 0
plus_zero i = omega arith

plus_suc : (i k : ℕ) → suc i + k ≡ i + suc k
plus_suc i k = omega arith

zero_plus : (k : ℕ) → 0 + k ≡ k
zero_plus k = omega arith

chosen_free :
    (c : Bool) (a b : Option String) (t : Table Drop)
    → (c ≡ true → is_free_slug a t ≡ true)
    → (c ≡ false → is_free_slug b t ≡ true)
    → is_free_slug (if c then a else b) t ≡ true
chosen_free true a b t ha hb = ha refl
chosen_free false a b t ha hb = hb refl

free_slug :
    (slug : String) (t : Table Drop) → is_taken slug t ≡ false → not (is_taken slug t) ≡ true
free_slug slug t h = ap not h

draw_slug_free :
    (fuel i k : ℕ) (draw : ℕ → String) (t : Table Drop)
    → k < fuel
    → is_taken (draw (i + k)) t ≡ false
    → is_free_slug (draw_slug fuel draw i t) t ≡ true
unfolding draw_slug
draw_slug_free zero i k draw t h free = absurd (omega (arith, h))
draw_slug_free (suc fuel) i zero draw t h free =
    let now = ap (λ j. is_taken (draw j) t) (plus_zero i) ∙ free in
    chosen_free (is_taken (draw i) t) _ _ t (λ taken. absurd (ground (arith, taken, now)))
      (λ e. free_slug (draw i) t e)
draw_slug_free (suc fuel) i (suc k) draw t h free =
    chosen_free (is_taken (draw i) t) _ _ t
      (λ taken.
        draw_slug_free fuel (suc i) k draw t (omega (arith, h))
          (ap (λ j. is_taken (draw j) t) (plus_suc i k) ∙ free))
      (λ e. free_slug (draw i) t e)

-- Let one of the draws within the fuel be a slug that no drop has. Then the loop ends, with a slug
-- that no drop has.
pub unique_slug_free :
    (fuel k : ℕ) (base : String) (draw : ℕ → String) (t : Table Drop)
    → k < fuel
    → is_taken (draw k) t ≡ false
    → is_free_slug (unique_slug fuel base draw t) t ≡ true
unfolding unique_slug
unique_slug_free fuel k base draw t h free =
    chosen_free (is_taken base t) _ _ t
      (λ taken.
        draw_slug_free fuel 0 k draw t h (ap (λ j. is_taken (draw j) t) (zero_plus k) ∙ free))
      (λ e. free_slug base t e)
