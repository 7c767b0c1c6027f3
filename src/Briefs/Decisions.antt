-- ===== src/Briefs/Decisions.antt =====
-- A decision on an application, and what is decided stays decided
-- (src/applications/services/applications.service.ts).
use collabos_backend.Base.{
  append, ℕ, ◌≡◌, ◌≢◌, Bool, true, false, ◌||◌, ◌==◌, ◌is◌, some, none, String, List, [], ◌∷◌, refl,
  arith, ok, Result, AuthenticatedUser, same_user, is_admin, Keeps,
}
use collabos_backend.Prisma.{
  Table, find_unique, has_key, create, update, delete_many, find_unique-update_self,
  find_unique-update_ne,
}
use collabos_backend.Schema.Collaboration.{
  Brand, Brief, Application, ApplicationStatus, application_status_enum, Notification,
  NotificationType,
}
use collabos_backend.Briefs.State.{
  BriefsDb, find_brief_with_brand_or_throw, assert_brief_owner_or_admin,
}
use collabos_backend.Briefs.Service.{
  CreateBriefDto, UpdateBriefDto, insert_brief, create_brief, write_brief, update_brief,
  delete_brief, remove_brief, close_brief, archive_brief,
}
use collabos_backend.Briefs.Notifications.{notify, new_notification}
use collabos_backend.Briefs.Applications.{
  CreateApplicationDto, Decision, insert_application, apply_for, find_application_or_throw,
  update_application, to_withdrawn, withdraw_application, to_decided, decide_application,
  notification_type, notification_title, lower_status,
}
use collabos_backend.Briefs.Stable.{
  guards, IgnoresNotifications, mark_read-Keeps, mark_all_read-Keeps,
}
use collabos_backend.Briefs.Calls.{
  Call, create_call, update_call, remove_call, close_call, archive_call, apply_call, withdraw_call,
  decide_call, read_call, read_all_call, step, run,
}

-- The state after a decision that is allowed.
decided_state :
    (id key now : ℕ) (user : AuthenticatedUser) (decision : Decision) (a : Application)
    (brief : Brief) (brand : Brand) (s : BriefsDb)
    → find_unique id s.applications ≡ some a
    → a.status is ApplicationStatus.pending ≡ true
    → find_unique a.brief_id s.briefs ≡ some brief
    → find_unique brief.brand_id s.brands ≡ some brand
    → (same_user brand.owner_id user || is_admin user) ≡ true
    → has_key key s.notifications ≡ false
    → decide_application id user decision key now s ≡ (
      ok (to_decided decision now a),
      record s {
        applications = update id (to_decided decision now) s.applications;
        notifications =
            create key
              (new_notification a.applicant_id
                (notification_type decision)
                (notification_title decision)
                (append "Your application for "
                  (append brief.title (append " was " (append (lower_status decision) "."))))
                (("briefId", a.brief_id) ∷ ("applicationId", id) ∷ []))
              s.notifications;
      },
    )
unfolding decide_application find_application_or_throw find_brief_with_brand_or_throw
    assert_brief_owner_or_admin update_application notify
decided_state id key now user decision a brief brand s e pending eb eo allowed unused = ground (
  arith,
  e,
  pending,
  eb,
  eo,
  allowed,
  unused,
  find_unique-update_self id (to_decided decision now) s.applications a e,
)

-- The decision on the application `id` of the table `before` succeeds with the application
-- `decided`, the table `after` holds it, and the other applications are as before; the
-- notification `n` is added under `key`.
abbrev pub Settles :
    ℕ → ℕ → Application → Notification → BriefsDb → Result Application × BriefsDb → Type 0
Settles id key decided n before after =
    (after.0 ≡ ok decided)
    × (find_unique id after.1.applications ≡ some decided)
    × ((other : ℕ)
        → other ≢ id
        → find_unique other after.1.applications ≡ find_unique other before.applications)
    × (after.1.notifications ≡ (key, n) ∷ before.notifications)

-- The notification of a decision, with its type, its title and its word.
abbrev pub told : ℕ → Application → Brief → NotificationType → String → String → Notification
told id a brief kind title word = record {
  user_id = a.applicant_id;
  kind = kind;
  template_key = none;
  title = title;
  message = append "Your application for " (append brief.title (append " was " (append word ".")));
  metadata = ("briefId", a.brief_id) ∷ ("applicationId", id) ∷ [];
  is_read = false;
  read_at = none;
}

settled :
    (id key now : ℕ) (user : AuthenticatedUser) (decision : Decision) (a : Application)
    (brief : Brief) (brand : Brand) (s : BriefsDb)
    → find_unique id s.applications ≡ some a
    → a.status is ApplicationStatus.pending ≡ true
    → find_unique a.brief_id s.briefs ≡ some brief
    → find_unique brief.brand_id s.brands ≡ some brand
    → (same_user brand.owner_id user || is_admin user) ≡ true
    → has_key key s.notifications ≡ false
    → Settles id key
        (to_decided decision now a)
        (told id a brief
          (notification_type decision)
          (notification_title decision)
          (lower_status decision))
        s
        (decide_application id user decision key now s)
settled id key now user decision a brief brand s e pending eb eo allowed unused =
    rw (decided_state id key now user decision a brief brand s e pending eb eo allowed unused) (
      refl,
      find_unique-update_self id (to_decided decision now) s.applications a e,
      λ other ne. find_unique-update_ne other id (to_decided decision now) s.applications ne,
      refl,
    )

-- The owner of the brief, or an administrator, decides on a pending application: accepting stores
-- ACCEPTED and rejecting stores REJECTED, each with the time, and adds a notification of that
-- decision to the applicant; the other applications stay as they are. The notification's key is
-- not in use.
pub decide_application-stores :
    (id key now : ℕ) (user : AuthenticatedUser) (a : Application) (brief : Brief) (brand : Brand)
    (s : BriefsDb)
    → find_unique id s.applications ≡ some a
    → a.status is ApplicationStatus.pending ≡ true
    → find_unique a.brief_id s.briefs ≡ some brief
    → find_unique brief.brand_id s.brands ≡ some brand
    → (same_user brand.owner_id user || is_admin user) ≡ true
    → has_key key s.notifications ≡ false
    → Settles id key
        (record a { status = ApplicationStatus.accepted; decided_at = some now })
        (told id a brief NotificationType.application_accepted "Application accepted" "accepted")
        s
        (decide_application id user Decision.accepting key now s)
      × Settles id key
          (record a { status = ApplicationStatus.rejected; decided_at = some now })
          (told id a brief NotificationType.application_rejected "Application rejected" "rejected")
          s
          (decide_application id user Decision.rejecting key now s)
decide_application-stores id key now user a brief brand s e pending eb eo allowed unused = (
  settled id key now user Decision.accepting a brief brand s e pending eb eo allowed unused,
  settled id key now user Decision.rejecting a brief brand s e pending eb eo allowed unused,
)

-- The application stands as it was.
abbrev pub Holds : ℕ → Application → BriefsDb → Type 0
Holds id a s = find_unique id s.applications ≡ some a

find_unique-delete_many :
    (id : ℕ) (a : Application) (p : ℕ → Application → Bool) (t : Table Application)
    → p id a ≡ false
    → find_unique id t ≡ some a
    → find_unique id (delete_many p t) ≡ some a
find_unique-delete_many id a p [] kept h = h
find_unique-delete_many id a p ((j, b) ∷ t) kept h =
    ground (arith, kept, h, find_unique-delete_many id a p t kept)

module _ (id : ℕ) (a : Application) (decided : a.status is ApplicationStatus.pending ≡ false) where
  apply-Holds :
      (user : AuthenticatedUser) (dto : CreateApplicationDto) (key notification : ℕ)
      → Keeps (Holds id a) (apply_for user dto key notification)
  unfolding apply_for find_brief_with_brand_or_throw insert_application notify
  apply-Holds user dto key notification = record { apply = λ s h. ground (arith, h) }

  withdraw-Holds :
      (k : ℕ) (user : AuthenticatedUser) (notification now : ℕ)
      → Keeps (Holds id a) (withdraw_application k user notification now)
  unfolding withdraw_application find_application_or_throw find_brief_with_brand_or_throw
      update_application notify
  withdraw-Holds k user notification now = record {
    apply = λ s h.
        ground (arith, h, decided, find_unique-update_ne id k (to_withdrawn now) s.applications);
  }

  decide-Holds :
      (k : ℕ) (user : AuthenticatedUser) (decision : Decision) (notification now : ℕ)
      → Keeps (Holds id a) (decide_application k user decision notification now)
  unfolding decide_application find_application_or_throw find_brief_with_brand_or_throw
      assert_brief_owner_or_admin update_application notify
  decide-Holds k user decision notification now = record {
    apply = λ s h.
        ground
          (arith, h, decided, find_unique-update_ne id k (to_decided decision now) s.applications);
  }

  written-Holds : (k : ℕ) (f : Brief → Brief) → Keeps (Holds id a) (write_brief k f)
  unfolding write_brief
  written-Holds k f = record { apply = λ s h. ground (arith, h) }

  inserted-Holds : (k : ℕ) (b : Brief) → Keeps (Holds id a) (insert_brief k b)
  unfolding insert_brief
  inserted-Holds k b = record { apply = λ s h. ground (arith, h) }

  deleted-Holds : (k : ℕ) → k ≢ a.brief_id → Keeps (Holds id a) (delete_brief k)
  unfolding delete_brief
  deleted-Holds k other = record {
    apply = λ s h. ground (
      arith,
      h,
      find_unique-delete_many id a (λ _ x. x.brief_id == k) s.applications (ground (arith, other))
          h,
    );
  }

  create-Holds :
      (user : AuthenticatedUser) (dto : CreateBriefDto) (key now : ℕ)
      → Keeps (Holds id a) (create_brief user dto key now)
  unfolding create_brief
  create-Holds user dto key now = search (guards, inserted-Holds) depth 15

  update-Holds :
      (k : ℕ) (user : AuthenticatedUser) (dto : UpdateBriefDto) (now : ℕ)
      → Keeps (Holds id a) (update_brief k user dto now)
  unfolding update_brief
  update-Holds k user dto now = search (guards, written-Holds) depth 15

  remove-Holds :
      (k : ℕ) (user : AuthenticatedUser) → k ≢ a.brief_id → Keeps (Holds id a) (remove_brief k user)
  unfolding remove_brief
  remove-Holds k user other = search (guards, deleted-Holds, other) depth 15

  close-Holds :
      (k : ℕ) (user : AuthenticatedUser) (now : ℕ) → Keeps (Holds id a) (close_brief k user now)
  unfolding close_brief
  close-Holds k user now = search (guards, written-Holds) depth 15

  archive-Holds :
      (k : ℕ) (user : AuthenticatedUser) (now : ℕ) → Keeps (Holds id a) (archive_brief k user now)
  unfolding archive_brief
  archive-Holds k user now = search (guards, written-Holds) depth 15

  Holds-quiet : IgnoresNotifications (Holds id a)
  Holds-quiet s t h = h

-- The call does not remove the brief.
abbrev pub LeavesBrief : ℕ → Call → Type 0
LeavesBrief brief (remove_call k user) = k ≢ brief
LeavesBrief brief _ = Unit

abbrev pub AllLeaveBrief : ℕ → List Call → Type 0
AllLeaveBrief brief [] = Unit
AllLeaveBrief brief (c ∷ cs) = LeavesBrief brief c × AllLeaveBrief brief cs

module _ (id : ℕ) (a : Application) (decided : a.status is ApplicationStatus.pending ≡ false) where
  step-Holds :
      (c : Call) (s : BriefsDb) → LeavesBrief a.brief_id c → Holds id a s → Holds id a (step c s)
  unfolding step
  step-Holds (create_call user dto key now) s left h =
      (create-Holds id a decided user dto key now).apply s h
  step-Holds (update_call k user dto now) s left h =
      (update-Holds id a decided k user dto now).apply s h
  step-Holds (remove_call k user) s left h = (remove-Holds id a decided k user left).apply s h
  step-Holds (close_call k user now) s left h = (close-Holds id a decided k user now).apply s h
  step-Holds (archive_call k user now) s left h = (archive-Holds id a decided k user now).apply s h
  step-Holds (apply_call user dto key n) s left h =
      (apply-Holds id a decided user dto key n).apply s h
  step-Holds (withdraw_call k user n now) s left h =
      (withdraw-Holds id a decided k user n now).apply s h
  step-Holds (decide_call k user decision n now) s left h =
      (decide-Holds id a decided k user decision n now).apply s h
  step-Holds (read_call k user) s left h =
      (mark_read-Keeps (Holds-quiet id a decided) k user).apply s h
  step-Holds (read_all_call user) s left h =
      (mark_all_read-Keeps (Holds-quiet id a decided) user).apply s h

-- An application that is accepted, rejected or withdrawn stays exactly as it is over any sequence
-- of calls of briefs, applications and notifications that does not remove its brief.
pub run-Holds :
    (cs : List Call) (id : ℕ) (a : Application) (s : BriefsDb)
    → a.status is ApplicationStatus.pending ≡ false
    → AllLeaveBrief a.brief_id cs
    → Holds id a s
    → Holds id a (run cs s)
unfolding run
run-Holds [] id a s decided left h = h
run-Holds (c ∷ cs) id a s decided left h =
    run-Holds cs id a (step c s) decided left.1 (step-Holds id a decided c s left.0 h)
