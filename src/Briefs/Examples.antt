-- ===== src/Briefs/Examples.antt =====
-- A brand's brief, two applications for it and their notifications.
use collabos_backend.Base.{
  ℕ, ◌≡◌, ◌≢◌, refl, true, false, none, some, List, [], ◌∷◌, arith, ok, is_ok, AuthenticatedUser,
}
use collabos_backend.Prisma.{find_unique}
use collabos_backend.Schema.Collaboration.{
  Brand, Brief, BriefStatus, Application, ApplicationStatus, Notification, NotificationType,
}
use collabos_backend.Briefs.State.{BriefsDb, find_brief_or_throw, assert_brand_owner_or_admin}
use collabos_backend.Briefs.Service.{close_brief, write_brief, to_closed}
use collabos_backend.Briefs.Notifications.{new_notification, unread_count, mark_all_read}
use collabos_backend.Briefs.Applications.{
  CreateApplicationDto, Decision, apply_for, decide_application,
}
use collabos_backend.Briefs.Calls.{Call, apply_call, withdraw_call, decide_call, archive_call, run}
use collabos_backend.Briefs.Active.{HasOneActive, run-HasOneActive}
use collabos_backend.Briefs.Closed.{closed_takes_none}
use collabos_backend.Briefs.Decisions.{Settles, told, decide_application-stores, Holds, run-Holds}
use collabos_backend.Briefs.Unread.{mark_all_read-clears}

abbrev person : ℕ → AuthenticatedUser
person id = record {
  id = id;
  email = "user@example.com";
  is_email_verified = true;
  is_active = true;
  roles = [];
  permissions = [];
}

abbrev brand : Brand
brand = record { owner_id = 10; is_active = true }

abbrev brief : Brief
brief = record {
  brand_id = 1;
  title = "Photos";
  description = "Ten edited photos";
  budget_min = some 100;
  budget_max = some 200;
  currency = "USD";
  deliverables = [];
  application_deadline = none;
  location = none;
  is_remote = true;
  status = BriefStatus.open_brief;
  closed_at = none;
  archived_at = none;
}

abbrev application : ApplicationStatus → Application
application status = record {
  brief_id = 2;
  applicant_id = 20;
  status = status;
  cover_message = "Hello";
  proposed_budget = none;
  decided_at = none;
  withdrawn_at = none;
}

abbrev notification : ℕ → Notification
notification user =
    new_notification user NotificationType.generic "Title" "Message" (("briefId", 2) ∷ [])

abbrev start : BriefsDb
start = record {
  brands = (1, brand) ∷ [];
  briefs = (2, brief) ∷ [];
  applications = (3, application ApplicationStatus.pending) ∷ [];
  deals = [];
  notifications = (4, notification 10) ∷ (5, notification 20) ∷ [];
}

abbrev dto : CreateApplicationDto
dto = record { brief_id = 2; cover_message = "Hi"; proposed_budget = some 150 }

abbrev calls : List Call
calls =
    apply_call (person 20) dto 6 7
    ∷ apply_call (person 30) dto 8 9
    ∷ withdraw_call 3 (person 20) 11 100
    ∷ decide_call 8 (person 10) Decision.accepting 12 110
    ∷ []

start-HasOneActive : HasOneActive start
start-HasOneActive b u = ground arith

run-HasOneActive_example : HasOneActive (run calls start)
run-HasOneActive_example = run-HasOneActive calls start start-HasOneActive

was_closed : (close_brief 2 (person 10) 50 start).0 ≡ ok (to_closed 50 brief)
unfolding close_brief find_brief_or_throw assert_brand_owner_or_admin write_brief
was_closed = refl

abbrev archiving : List Call
archiving = archive_call 2 (person 10) 60 ∷ []

closed_takes_none_example :
    is_ok (apply_for (person 30) dto 6 7 (run archiving (close_brief 2 (person 10) 50 start).1)).0
    ≡ false
closed_takes_none_example =
    closed_takes_none (person 10) (person 30) dto 50 6 7 (to_closed 50 brief) archiving start
      (refl, tt) (tt, tt) was_closed

abbrev decided_as : ApplicationStatus → Application
decided_as status = record (application ApplicationStatus.pending) {
  status = status;
  decided_at = some 90;
}

decide_application-stores_example :
    Settles 3 7
      (decided_as ApplicationStatus.accepted)
      (told 3
        (application ApplicationStatus.pending)
        brief
        NotificationType.application_accepted
        "Application accepted"
        "accepted")
      start
      (decide_application 3 (person 10) Decision.accepting 7 90 start)
    × Settles 3 7
        (decided_as ApplicationStatus.rejected)
        (told 3
          (application ApplicationStatus.pending)
          brief
          NotificationType.application_rejected
          "Application rejected"
          "rejected")
        start
        (decide_application 3 (person 10) Decision.rejecting 7 90 start)
decide_application-stores_example =
    decide_application-stores 3 7 90 (person 10) (application ApplicationStatus.pending) brief brand
      start refl refl refl refl refl refl

abbrev rejected : BriefsDb
rejected = record start { applications = (3, application ApplicationStatus.rejected) ∷ [] }

run-Holds_example : Holds 3 (application ApplicationStatus.rejected) (run calls rejected)
run-Holds_example =
    run-Holds calls 3 (application ApplicationStatus.rejected) rejected refl
      (tt, (tt, (tt, (tt, tt)))) refl

mark_all_read-clears_example :
    ((mark_all_read 10 start).0 ≡ ok 1)
    × (unread_count 10 (mark_all_read 10 start).1.notifications ≡ 0)
    × ((k : ℕ) (n : Notification)
        → n.user_id ≡ 10
        → find_unique k start.notifications ≡ some n
        → find_unique k (mark_all_read 10 start).1.notifications
          ≡ some (record n { is_read = true }))
    × ((k : ℕ) (n : Notification)
        → n.user_id ≢ 10
        → find_unique k start.notifications ≡ some n
        → find_unique k (mark_all_read 10 start).1.notifications ≡ some n)
mark_all_read-clears_example = mark_all_read-clears 10 start
