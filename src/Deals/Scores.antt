-- ===== src/Deals/Scores.antt =====
-- The health that src/deals shows of a deal against the score of src/ai.
use collabos_backend.Base.{◌*◌, ◌-◌, ℕ, ◌≤◌, ◌≡◌, refl, Bool, List, [], ◌∷◌, String, arith, ltb}
use collabos_backend.Schema.Collaboration.{deal_status_enum}
use collabos_backend.Deals.Health.{
  DealHealth, DealHealthInput, MilestoneHealthInput, is_overdue, has_overdue_milestone,
  compute_deal_health, count_milestones, milestone_count, completion_points,
  compute_deal_health_score,
}

-- The lowest and the highest score of a deal of each health.
abbrev pub lowest : DealHealth → ℕ
lowest DealHealth.on_track = 90
lowest DealHealth.at_risk = 50
lowest DealHealth.overdue = 10
lowest DealHealth.completed = 100
lowest DealHealth.cancelled = 0

abbrev pub highest : DealHealth → ℕ
highest DealHealth.on_track = 100
highest DealHealth.at_risk = 85
highest DealHealth.overdue = 60
highest DealHealth.completed = 100
highest DealHealth.cancelled = 0

-- A milestone is overdue just if the number of those that are is not 0.
has_overdue_count :
    (now : ℕ) (ms : List MilestoneHealthInput)
    → has_overdue_milestone now ms ≡ ltb 0 (count_milestones (is_overdue now) ms)
has_overdue_count now [] = refl
has_overdue_count now (m ∷ ms) = let rest = has_overdue_count now ms in ground arith

count_le :
    (p : MilestoneHealthInput → Bool) (ms : List MilestoneHealthInput)
    → count_milestones p ms ≤ milestone_count ms
count_le p [] = omega arith
count_le p (m ∷ ms) = let rest = count_le p ms in ground arith

module _ (number_text : ℕ → String) (rounded_quotient : ℕ → ℕ → ℕ)
    (rounds_within : (p q k : ℕ) → 1 ≤ q → p ≤ k * q → rounded_quotient p q ≤ k) where
  completion_points_le :
      (ms : List MilestoneHealthInput) → completion_points number_text rounded_quotient ms ≤ 10
  completion_points_le [] = omega arith
  completion_points_le (m ∷ ms) =
      rounds_within
        ((milestone_count (m ∷ ms) - count_milestones (λ x. x.is_completed) (m ∷ ms)) * 10)
        (milestone_count (m ∷ ms)) 10 (omega arith) (omega arith)

  -- The score lies between the bounds of the deal's health: 100 for a completed deal, 0 for a
  -- cancelled one, 10 to 60 when it is overdue, 50 to 85 when only a milestone is, and 90 to 100
  -- on track, if rounding a quotient that is at most a whole number gives at most that number.
  pub score_fits_health :
      (deal : DealHealthInput) (now : ℕ)
      → (lowest (compute_deal_health deal now)
          ≤ (compute_deal_health_score number_text rounded_quotient deal now).score)
        × ((compute_deal_health_score number_text rounded_quotient deal now).score
            ≤ highest (compute_deal_health deal now))
  unfolding compute_deal_health compute_deal_health_score
  score_fits_health deal now =
      let few = completion_points_le deal.milestones in
      let some_overdue = has_overdue_count now deal.milestones in ground arith
