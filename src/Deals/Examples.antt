-- ===== src/Deals/Examples.antt =====
-- The brand's owner (10) makes a deal from an accepted application of a creator (20), who makes a
-- counter-proposal, which the owner accepts.
use native.Mathlib.Nat.{div-lt_iff_lt-mul, mul_left_comm, suc-mul}
use collabos_backend.Base.{
  refl, arith, none, some, [], ◌∷◌, List, ℕ, AuthenticatedUser, true, false, suc, ◌+◌, ◌*◌, ◌/◌,
  ◌≤◌, ◌<◌, String, ◌≡◌,
}
use collabos_backend.Schema.Collaboration.{
  Application, ApplicationStatus, Brief, BriefStatus, DealStatus, deal_status_enum,
}
use collabos_backend.Deals.Service.{DealsDb, Terms, share}
use collabos_backend.Deals.Calls.{
  Call, create_call, propose_call, accept_call, run, RunHasFreshKeys,
}
use collabos_backend.Deals.Pending.{HasOnePending}
use collabos_backend.Deals.Invariant.{run-HasOnePending}
use collabos_backend.Deals.Health.{DealHealthInput, compute_deal_health_score, compute_deal_health}
use collabos_backend.Deals.Scores.{lowest, highest, score_fits_health}

abbrev user_named : ℕ → AuthenticatedUser
user_named id = record {
  id = id;
  email = "user@example.com";
  is_email_verified = true;
  is_active = true;
  roles = [];
  permissions = [];
}

abbrev brief : Brief
brief = record {
  brand_id = 1;
  title = "Summer campaign";
  description = "Posts";
  budget_min = none;
  budget_max = none;
  currency = "USD";
  deliverables = [];
  application_deadline = none;
  location = none;
  is_remote = true;
  status = BriefStatus.closed;
  closed_at = none;
  archived_at = none;
}

abbrev application : Application
application = record {
  brief_id = 2;
  applicant_id = 20;
  status = ApplicationStatus.accepted;
  cover_message = "Hello";
  proposed_budget = none;
  decided_at = some 1;
  withdrawn_at = none;
}

abbrev start : DealsDb
start = record {
  brands = (1, record { owner_id = 10; is_active = true }) ∷ [];
  briefs = (2, brief) ∷ [];
  applications = (3, application) ∷ [];
  deals = [];
  proposals = [];
}

abbrev terms_for : ℕ → Terms
terms_for value = record {
  total_value = some value;
  revenue_split_brand = share 60;
  revenue_split_creator = share 40;
  start_date = none;
  end_date = none;
  message = none;
}

abbrev calls : List Call
calls =
    create_call (user_named 10)
      (record { application_id = 3; title = none; currency = none; terms = terms_for 1000 }) 4 5
    ∷ propose_call 4 (user_named 20) (terms_for 1200) 6 7
    ∷ accept_call 4 6 (user_named 10) 8
    ∷ []

start-HasOnePending : HasOnePending start
start-HasOnePending id = omega arith

calls_fresh : RunHasFreshKeys calls start
calls_fresh = (refl, (tt, (tt, tt)))

run-HasOnePending_example : HasOnePending (run calls start)
run-HasOnePending_example = run-HasOnePending calls start calls_fresh start-HasOnePending

-- An active deal at time 100: one milestone is completed, one is late, one is to come.
abbrev late_deal : DealHealthInput
late_deal = record {
  status = DealStatus.active;
  end_date = some 200;
  milestones =
      record { due_date = some 50; is_completed = true }
      ∷ record { due_date = some 60; is_completed = false }
      ∷ record { due_date = some 150; is_completed = false }
      ∷ [];
}

-- p / q, rounded to the nearest number, a half upwards.
abbrev nearest : ℕ → ℕ → ℕ
nearest p q = (2 * p + q) / (2 * q)

nearest_le : (p q k : ℕ) → 1 ≤ q → p ≤ k * q → nearest p q ≤ k
nearest_le p q k positive h =
    let even : 0 < 2 * q = omega arith in
    let below : 2 * p + q < suc k * (2 * q) =
      omega (arith, h, positive, suc-mul k (2 * q), mul_left_comm k 2 q) in
    let small : (2 * p + q) / (2 * q) < suc k = (div-lt_iff_lt-mul even).1 below in
    omega (arith, small)

abbrev digit : ℕ → String
digit n = "1"

late_deal_score : (compute_deal_health_score digit nearest late_deal 100).score ≡ 78
unfolding compute_deal_health_score
late_deal_score = refl

score_fits_health_example :
    (lowest (compute_deal_health late_deal 100)
      ≤ (compute_deal_health_score digit nearest late_deal 100).score)
    × ((compute_deal_health_score digit nearest late_deal 100).score
        ≤ highest (compute_deal_health late_deal 100))
score_fits_health_example = score_fits_health digit nearest nearest_le late_deal 100
