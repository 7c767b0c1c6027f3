-- ===== src/Drops/Readiness.antt =====
-- How ready a drop is for its launch (src/ai/utils/launch-readiness-score.util.ts). Each of the six
-- blocks of the source adds 100 / 6 or pushes a blocker. The sum of the weights is kept in sixths
-- of 100; it is rounded once, at the end, and is never near a half.
use collabos_backend.Base.{
  ℕ, suc, ◌+◌, ◌-◌, ◌*◌, ◌/◌, ◌≤◌, ◌<◌, ◌≢◌, some, none, ◌≡◌, ◌↔◌, refl, ap, Bool, true, false, not,
  Option, List, [], ◌∷◌, ◌++◌, String, ltb, if◌then◌else◌, is_some, ◌is◌, arith,
}
use collabos_backend.Schema.Launches.{DropStatus, drop_status_enum}

pub record LaunchReadinessInput : Type 0 where
  pub status : DropStatus
  pub publish_at : Option ℕ
  pub has_page : Bool
  pub has_seo : Bool
  pub media_count : ℕ
  pub product_count : ℕ

pub record LaunchReadinessScore : Type 0 where
  pub score : ℕ
  pub blockers : List String

-- `score`, in sixths of 100, and `blockers` while the blocks run
pub record Progress : Type 0 where
  pub sixths : ℕ
  pub blockers : List String

abbrev pub add_weight : Progress → Progress
add_weight p = record p { sixths = suc p.sixths }

-- `blockers.push(…)`
abbrev pub push_blocker : String → Progress → Progress
push_blocker blocker p = record p { blockers = p.blockers ++ blocker ∷ [] }

unfoldable pub check_page : LaunchReadinessInput → Progress → Progress
check_page input p =
    if input.has_page then add_weight p else push_blocker "Drop page has not been created" p

unfoldable pub check_seo : LaunchReadinessInput → Progress → Progress
check_seo input p = if input.has_seo then add_weight p else push_blocker "SEO metadata is missing" p

unfoldable pub check_media : LaunchReadinessInput → Progress → Progress
check_media input p =
    if ltb 0 input.media_count then add_weight p else push_blocker "No media has been uploaded" p

unfoldable pub check_products : LaunchReadinessInput → Progress → Progress
check_products input p =
    if ltb 0 input.product_count then add_weight p else push_blocker "No products are attached" p

unfoldable pub check_date : LaunchReadinessInput → Progress → Progress
check_date input p =
    if is_some input.publish_at then add_weight p else push_blocker "No publish date is scheduled" p

unfoldable pub check_status : LaunchReadinessInput → Progress → Progress
check_status input p =
    if not (input.status is DropStatus.draft)
    then add_weight p
    else push_blocker "Drop is still in draft status" p

-- `Math.round` of as many sixths of 100
abbrev pub rounded_sixths : ℕ → ℕ
rounded_sixths n = (200 * n + 6) / 12

abbrev pub run_checks : LaunchReadinessInput → Progress
run_checks input = check_status input (
    check_date input (
      check_products input (
        check_media input
          (check_seo input (check_page input (record { sixths = 0; blockers = [] }))))))

unfoldable pub compute_launch_readiness : LaunchReadinessInput → LaunchReadinessScore
compute_launch_readiness input =
    let p = run_checks input in record { score = rounded_sixths p.sixths; blockers = p.blockers }

abbrev pub blocker_count : List String → ℕ
blocker_count [] = 0
blocker_count (b ∷ bs) = 1 + blocker_count bs

-- The drop has all that a launch needs.
abbrev pub IsReady : LaunchReadinessInput → Type 0
IsReady input =
    (input.has_page ≡ true)
    × (input.has_seo ≡ true)
    × (1 ≤ input.media_count)
    × (1 ≤ input.product_count)
    × (input.publish_at ≢ none)
    × (input.status ≢ DropStatus.draft)

blocker_count-push :
    (b : String) (bs : List String) → blocker_count (bs ++ b ∷ []) ≡ blocker_count bs + 1
blocker_count-push b [] = omega arith
blocker_count-push b (x ∷ bs) = omega (arith, blocker_count-push b bs)

-- What `n` blocks leave: each of them added a weight or pushed a blocker, and all conditions held
-- just if no blocker was pushed.
abbrev After : ℕ → Type 0 → Progress → Type 0
After n P p = (p.sixths + blocker_count p.blockers ≡ n) × (P ↔ (blocker_count p.blockers ≡ 0))

block :
    (n : ℕ) (P Q : Type 0) (met : Bool) (b : String) (p : Progress)
    → Q ↔ (met ≡ true)
    → After n P p
    → After (suc n) (P × Q) (if met then add_weight p else push_blocker b p)
block n P Q true b p q h = (omega (arith, h.0), (λ all. h.1.0 all.0, λ e. (h.1.1 e, q.1 refl)))
block n P Q false b p q h =
    let pushed = blocker_count-push b p.blockers in
    (
      omega (arith, h.0, pushed),
      (λ all. absurd (ground (arith, q.0 all.1)), λ e. absurd (omega (arith, e, pushed))),
    )

is_some_iff : (o : Option ℕ) → (o ≢ none) ↔ (is_some o ≡ true)
is_some_iff none = (λ h. absurd (h refl), λ e. absurd (ground (arith, e)))
is_some_iff (some x) = (λ h. refl, λ e p. absurd (ground (arith, p)))

launched_iff :
    (status : DropStatus) → (status ≢ DropStatus.draft) ↔ (not (status is DropStatus.draft) ≡ true)
launched_iff DropStatus.draft = (λ h. absurd (h refl), λ e. absurd (ground (arith, e)))
launched_iff DropStatus.scheduled = (λ h. refl, λ e p. absurd (ground (arith, p)))
launched_iff DropStatus.published = (λ h. refl, λ e p. absurd (ground (arith, p)))
launched_iff DropStatus.archived = (λ h. refl, λ e p. absurd (ground (arith, p)))

some_iff : (n : ℕ) → (1 ≤ n) ↔ (ltb 0 n ≡ true)
some_iff n = (λ h. ground (arith, h), λ e. ground (arith, e))

module _ (input : LaunchReadinessInput) (n : ℕ) (P : Type 0) (p : Progress) (h : After n P p) where
  check_page-After : After (suc n) (P × (input.has_page ≡ true)) (check_page input p)
  unfolding check_page
  check_page-After =
      block n P (input.has_page ≡ true) (input.has_page) "Drop page has not been created" p
        (λ e. e, λ e. e) h

  check_seo-After : After (suc n) (P × (input.has_seo ≡ true)) (check_seo input p)
  unfolding check_seo
  check_seo-After =
      block n P (input.has_seo ≡ true) (input.has_seo) "SEO metadata is missing" p (λ e. e, λ e. e)
        h

  check_media-After : After (suc n) (P × (1 ≤ input.media_count)) (check_media input p)
  unfolding check_media
  check_media-After =
      block n P (1 ≤ input.media_count) (ltb 0 input.media_count) "No media has been uploaded" p
        (some_iff input.media_count) h

  check_products-After : After (suc n) (P × (1 ≤ input.product_count)) (check_products input p)
  unfolding check_products
  check_products-After =
      block n P (1 ≤ input.product_count) (ltb 0 input.product_count) "No products are attached" p
        (some_iff input.product_count) h

  check_date-After : After (suc n) (P × (input.publish_at ≢ none)) (check_date input p)
  unfolding check_date
  check_date-After =
      block n P (input.publish_at ≢ none) (is_some input.publish_at) "No publish date is scheduled"
        p (is_some_iff input.publish_at) h

  check_status-After : After (suc n) (P × (input.status ≢ DropStatus.draft)) (check_status input p)
  unfolding check_status
  check_status-After =
      block n P (input.status ≢ DropStatus.draft) (not (input.status is DropStatus.draft))
        "Drop is still in draft status" p (launched_iff input.status) h

start-After : After 0 Unit (record { sixths = 0; blockers = [] })
start-After = (omega arith, (λ u. refl, λ e. tt))

checked :
    (input : LaunchReadinessInput)
    → ((run_checks input).sixths + blocker_count (run_checks input).blockers ≡ 6)
      × (IsReady input ↔ (blocker_count (run_checks input).blockers ≡ 0))
checked input =
    let all = check_status-After input 5 _ _ (
      check_date-After input 4 _ _ (
        check_products-After input 3 _ _ (
          check_media-After input 2 _ _
            (check_seo-After input 1 _ _ (check_page-After input 0 Unit _ start-After))))) in
    (
      all.0,
      (
        λ r. all.1.0 ((((((tt, r.0), r.1), r.2), r.3), r.4), r.5),
        λ e. let x = all.1.1 e in (x.0.0.0.0.0.1, x.0.0.0.0.1, x.0.0.0.1, x.0.0.1, x.0.1, x.1),
      ),
    )

none_pushed : (bs : List String) → blocker_count bs ≡ 0 → bs ≡ []
none_pushed [] e = refl
none_pushed (b ∷ bs) e = absurd (omega (arith, e))

all_six : (n blocked : ℕ) → n + blocked ≡ 6 → rounded_sixths n ≡ 100 → blocked ≡ 0
all_six n blocked h e = omega (arith, h, e)

perfect : (n blocked : ℕ) → n + blocked ≡ 6 → blocked ≡ 0 → rounded_sixths n ≡ 100
perfect n blocked h e = omega (arith, h, e)

near :
    (n blocked : ℕ)
    → n + blocked ≡ 6
    → (6 * rounded_sixths n ≤ 100 * (6 - blocked) + 3)
      × (100 * (6 - blocked) < 6 * rounded_sixths n + 3)
near n blocked h = (omega (arith, h), omega (arith, h))

-- The score is the whole number that is nearest to 100 times the share of the six points that no
-- blocker names, a half upwards. There is no blocker, and the score is 100, just if the drop has a
-- page, SEO data, a medium, a product and a date and is no draft.
pub score_counts_blockers :
    (input : LaunchReadinessInput)
    → (6 * (compute_launch_readiness input).score
        ≤ 100 * (6 - blocker_count (compute_launch_readiness input).blockers) + 3)
      × (100 * (6 - blocker_count (compute_launch_readiness input).blockers)
          < 6 * (compute_launch_readiness input).score + 3)
      × (((compute_launch_readiness input).blockers ≡ []) ↔ IsReady input)
      × (((compute_launch_readiness input).score ≡ 100) ↔ IsReady input)
unfolding compute_launch_readiness
score_counts_blockers input =
    let p = run_checks input in
    let all = checked input in
    let close = near p.sixths (blocker_count p.blockers) all.0 in
    (
      close.0,
      close.1,
      (λ e. all.1.1 (ap blocker_count e), λ r. none_pushed p.blockers (all.1.0 r)),
      (
        λ e. all.1.1 (all_six p.sixths (blocker_count p.blockers) all.0 e),
        λ r. perfect p.sixths (blocker_count p.blockers) all.0 (all.1.0 r),
      ),
    )
