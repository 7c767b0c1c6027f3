-- ===== src/Drops/Examples.antt =====
-- A drop that is scheduled and published by the queue.
use collabos_backend.Base.{
  ℕ, ◌≡◌, ◌↔◌, ◌-◌, ◌+◌, ◌*◌, ◌≤◌, ◌<◌, refl, some, true, false, none, String, List, [], ◌∷◌, arith,
  AuthenticatedUser, same_text,
}
use collabos_backend.Prisma.{find_unique}
use collabos_backend.Schema.Launches.{Drop, DropStatus, DropVisibility}
use collabos_backend.Drops.State.{DropsDb}
use collabos_backend.Drops.Readiness.{
  LaunchReadinessInput, compute_launch_readiness, blocker_count, IsReady, check_page, check_seo,
  check_media, check_products, check_date, check_status, score_counts_blockers,
}
use collabos_backend.Drops.Slugs.{is_taken, is_free_slug, unique_slug, unique_slug_free}
use collabos_backend.Drops.Calls.{Call, schedule_call, job_call, archive_call, run}
use collabos_backend.Drops.Courses.{Follows, run-Follows}

abbrev owner : AuthenticatedUser
owner = record {
  id = 10;
  email = "user@example.com";
  is_email_verified = true;
  is_active = true;
  roles = [];
  permissions = [];
}

abbrev drop : Drop
drop = record {
  brand_id = 1;
  deal_id = none;
  title = "Summer";
  slug = "summer";
  description = none;
  status = DropStatus.draft;
  visibility = DropVisibility.public_drop;
  publish_at = none;
  published_at = none;
  archived_at = none;
}

abbrev start : DropsDb
start = record {
  brands = (1, record { owner_id = 10; is_active = true }) ∷ [];
  deals = [];
  drops = (2, drop) ∷ [];
  jobs = [];
}

abbrev calls : List Call
calls =
    schedule_call 2 owner 100 50 ∷ job_call 2 100 ∷ archive_call 2 owner 200 ∷ job_call 2 210 ∷ []

run-Follows_example : Follows DropStatus.draft (find_unique 2 (run calls start).drops)
run-Follows_example = run-Follows calls 2 drop start refl

abbrev draws : ℕ → String
draws i = "summer-a1"

not_taken : is_taken (draws 0) start.drops ≡ false
unfolding same_text
not_taken = refl

unique_slug_free_example :
    is_free_slug (unique_slug 1 "summer" draws start.drops) start.drops ≡ true
unique_slug_free_example = unique_slug_free 1 0 "summer" draws start.drops (omega arith) not_taken

-- A draft that misses its media.
abbrev unready : LaunchReadinessInput
unready = record {
  status = DropStatus.draft;
  publish_at = some 100;
  has_page = true;
  has_seo = true;
  media_count = 0;
  product_count = 3;
}

unready_score : (compute_launch_readiness unready).score ≡ 67
unfolding compute_launch_readiness check_page check_seo check_media check_products check_date
    check_status
unready_score = refl

score_counts_blockers_example :
    (6 * (compute_launch_readiness unready).score
      ≤ 100 * (6 - blocker_count (compute_launch_readiness unready).blockers) + 3)
    × (100 * (6 - blocker_count (compute_launch_readiness unready).blockers)
        < 6 * (compute_launch_readiness unready).score + 3)
    × (((compute_launch_readiness unready).blockers ≡ []) ↔ IsReady unready)
    × (((compute_launch_readiness unready).score ≡ 100) ↔ IsReady unready)
score_counts_blockers_example = score_counts_blockers unready
