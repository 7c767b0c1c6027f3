-- ===== src/Briefs/Applications.antt =====
-- ApplicationsService (src/applications/services/applications.service.ts).
use collabos_backend.Base.{
  append, ℕ, Bool, not, ◌&&◌, Option, none, some, String, [], ◌∷◌, ◌==◌, is_some, Action, ◌>>=◌,
  ◌>>◌, pure, throw_if, gets, modify, some_or_throw, AuthenticatedUser, is_admin, same_user, ◌is◌,
  one_of, bad_request, conflict, forbidden, not_found, record_not_found, unique_violation,
}
use collabos_backend.Prisma.{find_unique, find_first, has_key, create, update}
use collabos_backend.Schema.Collaboration.{
  BriefStatus, brief_status_enum, Application, ApplicationStatus, application_status_enum,
  NotificationType,
}
use collabos_backend.Briefs.State.{
  BriefsDb, find_brief_with_brand_or_throw, assert_brief_owner_or_admin,
}
use collabos_backend.Briefs.Notifications.{new_notification, notify}

pub record CreateApplicationDto : Type 0 where
  pub brief_id : ℕ
  pub cover_message : String
  pub proposed_budget : Option ℕ

abbrev pub new_application : ℕ → CreateApplicationDto → Application
new_application user dto = record {
  brief_id = dto.brief_id;
  applicant_id = user;
  status = ApplicationStatus.pending;
  cover_message = dto.cover_message;
  proposed_budget = dto.proposed_budget;
  decided_at = none;
  withdrawn_at = none;
}

-- `status: { in: [PENDING, ACCEPTED] }` of one applicant and brief
abbrev pub is_active_for : ℕ → ℕ → ℕ → Application → Bool
is_active_for brief user _ a =
    a.brief_id == brief
    && a.applicant_id == user
    && one_of (ApplicationStatus.pending ∷ ApplicationStatus.accepted ∷ []) a.status

-- `prisma.application.create`
unfoldable pub insert_application : ℕ → Application → Action BriefsDb (Unit {0})
insert_application key a = do
  used ← gets (λ s. has_key key s.applications)
  throw_if used unique_violation
  modify (λ s. record s { applications = create key a s.applications })

-- `create`, with the keys of the application and of the notification
unfoldable pub apply_for :
    AuthenticatedUser → CreateApplicationDto → ℕ → ℕ → Action BriefsDb Application
apply_for user dto key notification_key = do
  found ← find_brief_with_brand_or_throw dto.brief_id
  throw_if (not (found.brief.status is BriefStatus.open_brief))
      (conflict "This brief is not accepting applications")
  throw_if (same_user found.owner_id user) (bad_request "You cannot apply to your own brief")
  existing ← gets (λ s. find_first (is_active_for dto.brief_id user.id) s.applications)
  throw_if (is_some existing) (conflict "You already have an active application for this brief")
  insert_application key (new_application user.id dto)
  notify notification_key (
      new_notification found.owner_id NotificationType.application_received
        "New application received" (append found.brief.title " received a new application.")
        (("briefId", dto.brief_id) ∷ ("applicationId", key) ∷ []))
  pure (new_application user.id dto)

-- `findEntityOrThrow`
unfoldable pub find_application_or_throw : ℕ → Action BriefsDb Application
find_application_or_throw id = do
  found ← gets (λ s. find_unique id s.applications)
  some_or_throw found (not_found "Application not found")

-- `findOneOrThrow`
unfoldable pub find_one_or_throw : ℕ → AuthenticatedUser → Action BriefsDb Application
find_one_or_throw id user = do
  application ← find_application_or_throw id
  found ← find_brief_with_brand_or_throw application.brief_id
  throw_if
      (not (same_user application.applicant_id user)
        && not (same_user found.owner_id user)
        && not (is_admin user))
      (forbidden "You do not have access to this application")
  pure application

-- `prisma.application.update`, which gives the row back
unfoldable pub update_application : ℕ → (Application → Application) → Action BriefsDb Application
update_application id f = do
  throw_if (not (← gets (λ s. has_key id s.applications))) record_not_found
  modify (λ s. record s { applications = update id f s.applications })
  found ← gets (λ s. find_unique id s.applications)
  some_or_throw found record_not_found

abbrev pub to_withdrawn : ℕ → Application → Application
to_withdrawn now a = record a { status = ApplicationStatus.withdrawn; withdrawn_at = some now }

unfoldable pub withdraw_application : ℕ → AuthenticatedUser → ℕ → ℕ → Action BriefsDb Application
withdraw_application id user notification_key now = do
  application ← find_application_or_throw id
  throw_if (not (same_user application.applicant_id user))
      (forbidden "You can only withdraw your own application")
  throw_if (not (application.status is ApplicationStatus.pending))
      (conflict "Only pending applications can be withdrawn")
  updated ← update_application id (to_withdrawn now)
  found ← find_brief_with_brand_or_throw application.brief_id
  notify notification_key (
      new_notification found.owner_id NotificationType.application_withdrawn "Applicant withdrew"
        (append "An applicant withdrew their application for " (append found.brief.title "."))
        (("briefId", application.brief_id) ∷ ("applicationId", id) ∷ []))
  pure updated

-- The two statuses that a decision may give.
pub data Decision : Type 0 where
  accepting rejecting : Decision

abbrev pub next_status : Decision → ApplicationStatus
next_status accepting = ApplicationStatus.accepted
next_status rejecting = ApplicationStatus.rejected

abbrev pub notification_type : Decision → NotificationType
notification_type accepting = NotificationType.application_accepted
notification_type rejecting = NotificationType.application_rejected

abbrev pub notification_title : Decision → String
notification_title accepting = "Application accepted"
notification_title rejecting = "Application rejected"

-- `nextStatus.toLowerCase()`
abbrev pub lower_status : Decision → String
lower_status accepting = "accepted"
lower_status rejecting = "rejected"

abbrev pub to_decided : Decision → ℕ → Application → Application
to_decided decision now a = record a { status = next_status decision; decided_at = some now }

-- `decide`, which `accept` and `reject` call with their status
unfoldable pub decide_application :
    ℕ → AuthenticatedUser → Decision → ℕ → ℕ → Action BriefsDb Application
decide_application id user decision notification_key now = do
  application ← find_application_or_throw id
  found ← find_brief_with_brand_or_throw application.brief_id
  assert_brief_owner_or_admin found user
  throw_if (not (application.status is ApplicationStatus.pending))
      (conflict "Only pending applications can be decided")
  updated ← update_application id (to_decided decision now)
  notify notification_key (
      new_notification application.applicant_id (notification_type decision)
        (notification_title decision)
        (append "Your application for "
          (append found.brief.title (append " was " (append (lower_status decision) "."))))
        (("briefId", application.brief_id) ∷ ("applicationId", id) ∷ []))
  pure updated
