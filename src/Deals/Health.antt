-- ===== src/Deals/Health.antt =====
-- The health of a deal (src/deals/utils/deal-health.util.ts) and the score that the assistant gives
-- it (src/ai/utils/deal-health-score.util.ts). Dates are times. JavaScript's `Math.round` of a
-- quotient and its text of a number in a template literal are parameters.
use collabos_backend.Base.{
  ℕ, ◌+◌, ◌-◌, ◌*◌, Bool, true, false, not, ◌&&◌, Option, none, some, List, [], ◌∷◌, ◌++◌, String,
  ltb, ◌==◌, if◌then◌else◌, append, ◌is◌,
}
use collabos_backend.Schema.Collaboration.{DealStatus, deal_status_enum}

pub data DealHealth : Type 0 where
  on_track at_risk overdue completed cancelled : DealHealth

pub record MilestoneHealthInput : Type 0 where
  pub due_date : Option ℕ
  pub is_completed : Bool

pub record DealHealthInput : Type 0 where
  pub status : DealStatus
  pub end_date : Option ℕ
  pub milestones : List MilestoneHealthInput

pub record DealHealthScore : Type 0 where
  pub score : ℕ
  pub risk_factors : List String

abbrev pub is_past : ℕ → Option ℕ → Bool
is_past now none = false
is_past now (some date) = ltb date now

abbrev pub is_overdue : ℕ → MilestoneHealthInput → Bool
is_overdue now m = not m.is_completed && is_past now m.due_date

-- `milestones.some(…)`
abbrev pub has_overdue_milestone : ℕ → List MilestoneHealthInput → Bool
has_overdue_milestone now [] = false
has_overdue_milestone now (m ∷ ms) =
    let rest = has_overdue_milestone now ms in if is_overdue now m then true else rest

unfoldable pub compute_deal_health : DealHealthInput → ℕ → DealHealth
compute_deal_health deal now =
    if deal.status is DealStatus.cancelled
    then DealHealth.cancelled
    else if deal.status is DealStatus.completed
    then DealHealth.completed
    else if is_past now deal.end_date
    then DealHealth.overdue
    else if has_overdue_milestone now deal.milestones
    then DealHealth.at_risk
    else DealHealth.on_track

-- `milestones.filter(…).length`
abbrev pub count_milestones : (MilestoneHealthInput → Bool) → List MilestoneHealthInput → ℕ
count_milestones p [] = 0
count_milestones p (m ∷ ms) = (if p m then 1 else 0) + count_milestones p ms

-- `milestones.length`
abbrev pub milestone_count : List MilestoneHealthInput → ℕ
milestone_count [] = 0
milestone_count (m ∷ ms) = 1 + milestone_count ms

-- `Math.min(40, overdueMilestones * 15)`, under the test that there are any
abbrev pub overdue_points : ℕ → ℕ
overdue_points n = if ltb 40 (n * 15) then 40 else n * 15

module _ (number_text : ℕ → String) (rounded_quotient : ℕ → ℕ → ℕ) where
  -- What the milestones that are not completed take off. With c of n completed, the source's
  -- (1 - c / n) * 10 is the quotient of (n - c) * 10 by n; `rounded_quotient p q` rounds p / q.
  abbrev pub completion_points : List MilestoneHealthInput → ℕ
  completion_points [] = 10
  completion_points (m ∷ ms) =
      let count = milestone_count (m ∷ ms) in
      let completed = count_milestones (λ x. x.is_completed) (m ∷ ms) in
      rounded_quotient ((count - completed) * 10) count

  abbrev pub score_risks : ℕ → DealHealthInput → List String
  score_risks now deal =
      let overdue = count_milestones (is_overdue now) deal.milestones in
      (if is_past now deal.end_date then "Deal end date has passed" ∷ [] else [])
      ++ (if ltb 0 overdue then append (number_text overdue) " milestone(s) overdue" ∷ [] else [])
      ++ (if milestone_count deal.milestones == 0 then "No milestones defined" ∷ [] else [])

  -- Points are only taken off, so that the subtraction, which stops at 0, is `Math.max(0, …)`.
  abbrev pub live_score : ℕ → DealHealthInput → ℕ
  live_score now deal =
      let score =
        100
        - (if is_past now deal.end_date then 40 else 0)
        - overdue_points (count_milestones (is_overdue now) deal.milestones)
        - completion_points deal.milestones in
      if ltb 100 score then 100 else score

  unfoldable pub compute_deal_health_score : DealHealthInput → ℕ → DealHealthScore
  compute_deal_health_score deal now =
      if deal.status is DealStatus.cancelled
      then record { score = 0; risk_factors = "Deal is cancelled" ∷ [] }
      else if deal.status is DealStatus.completed
      then record { score = 100; risk_factors = [] }
      else record { score = live_score now deal; risk_factors = score_risks now deal }
