-- ===== src/Briefs/Active.antt =====
-- The active applications of one person for one brief (src/applications, src/briefs).
use native.Mathlib.Decide.{ℕ_discrete}
use collabos_backend.Base.{
  Option-cases, inl, inr, ap, ℕ, ◌≤◌, ◌≡◌, Bool, true, ◌==◌, ◌is◌, none, some, List, [], ◌∷◌, arith,
  AuthenticatedUser, Keeps,
}
use collabos_backend.Prisma.{
  Table, find_unique, find_first, create, update, delete_many, count, count-update,
  count_of_find_first-none,
}
use collabos_backend.Schema.Collaboration.{
  Brief, Application, ApplicationStatus, application_status_enum,
}
use collabos_backend.Briefs.State.{
  BriefsDb, find_brief_with_brand_or_throw, assert_brief_owner_or_admin,
}
use collabos_backend.Briefs.Service.{
  CreateBriefDto, UpdateBriefDto, insert_brief, create_brief, write_brief, update_brief,
  delete_brief, remove_brief, close_brief, archive_brief,
}
use collabos_backend.Briefs.Notifications.{notify}
use collabos_backend.Briefs.Applications.{
  CreateApplicationDto, Decision, is_active_for, new_application, insert_application, apply_for,
  find_application_or_throw, update_application, to_withdrawn, withdraw_application, to_decided,
  decide_application,
}
use collabos_backend.Briefs.Stable.{
  guards, IgnoresNotifications, mark_read-Keeps, mark_all_read-Keeps,
}
use collabos_backend.Briefs.Calls.{
  Call, create_call, update_call, remove_call, close_call, archive_call, apply_call, withdraw_call,
  decide_call, read_call, read_all_call, step, run,
}

abbrev pub active_count : ℕ → ℕ → Table Application → ℕ
active_count brief user = count (is_active_for brief user)

abbrev pub HasOneActive : BriefsDb → Type 0
HasOneActive s = (brief user : ℕ) → active_count brief user s.applications ≤ 1

module _ (brief user : ℕ) where
  active_count-withdrawn :
      (id now : ℕ) (a : Application) (t : Table Application)
      → find_unique id t ≡ some a
      → active_count brief user (update id (to_withdrawn now) t) ≤ active_count brief user t
  active_count-withdrawn id now a t e =
      ground (arith, count-update (is_active_for brief user) id (to_withdrawn now) t a e)

  active_count-decided :
      (id now : ℕ) (decision : Decision) (a : Application) (t : Table Application)
      → find_unique id t ≡ some a
      → a.status is ApplicationStatus.pending ≡ true
      → active_count brief user (update id (to_decided decision now) t) ≤ active_count brief user t
  active_count-decided id now decision a t e pending =
      ground
        (arith, pending, count-update (is_active_for brief user) id (to_decided decision now) t a e)

  active_count-delete_many :
      (p : ℕ → Application → Bool) (t : Table Application)
      → active_count brief user (delete_many p t) ≤ active_count brief user t
  active_count-delete_many p [] = omega arith
  active_count-delete_many p ((j, a) ∷ t) = ground (arith, active_count-delete_many p t)

  active_count-create :
      (key id : ℕ) (dto : CreateApplicationDto) (t : Table Application)
      → find_first (is_active_for dto.brief_id id) t ≡ none
      → active_count brief user t ≤ 1
      → active_count brief user (create key (new_application id dto) t) ≤ 1
  active_count-create key id dto t free h = elim (ℕ_discrete dto.brief_id brief) [
    | no other ↦ ground (arith, h)
    | yes same ↦ elim (ℕ_discrete id user) [
      | no different ↦ ground (arith, h)
      | yes equal ↦ ground (
        arith,
        h,
        count_of_find_first-none (is_active_for dto.brief_id id) t free,
        ap (λ b. active_count b id t) same,
        ap (λ u. active_count brief u t) equal,
      )
    ]
  ]

apply-Keeps :
    (user : AuthenticatedUser) (dto : CreateApplicationDto) (key notification : ℕ)
    → Keeps HasOneActive (apply_for user dto key notification)
unfolding apply_for find_brief_with_brand_or_throw insert_application notify
apply-Keeps user dto key notification = record {
  apply = λ s h b u.
      elim (Option-cases (find_first (is_active_for dto.brief_id user.id) s.applications)) [
        | inl e ↦
            ground
              (arith, e, h b u, active_count-create b u key user.id dto s.applications e (h b u))
        | inr (v, e) ↦ ground (arith, e, h b u)
      ];
}

withdraw-Keeps :
    (id : ℕ) (user : AuthenticatedUser) (notification now : ℕ)
    → Keeps HasOneActive (withdraw_application id user notification now)
unfolding withdraw_application find_application_or_throw find_brief_with_brand_or_throw
    update_application notify
withdraw-Keeps id user notification now = record {
  apply = λ s h b u. elim (Option-cases (find_unique id s.applications)) [
    | inl e ↦ ground (arith, e, h b u)
    | inr (a, e) ↦ ground (arith, e, h b u, active_count-withdrawn b u id now a s.applications e)
  ];
}

decide-Keeps :
    (id : ℕ) (user : AuthenticatedUser) (decision : Decision) (notification now : ℕ)
    → Keeps HasOneActive (decide_application id user decision notification now)
unfolding decide_application find_application_or_throw find_brief_with_brand_or_throw
    assert_brief_owner_or_admin update_application notify
decide-Keeps id user decision notification now = record {
  apply = λ s h b u. elim (Option-cases (find_unique id s.applications)) [
    | inl e ↦ ground (arith, e, h b u)
    | inr (a, e) ↦
        ground (arith, e, h b u, active_count-decided b u id now decision a s.applications e)
  ];
}

brief_written-Keeps : (id : ℕ) (f : Brief → Brief) → Keeps HasOneActive (write_brief id f)
unfolding write_brief
brief_written-Keeps id f = record { apply = λ s h b u. ground (arith, h b u) }

delete-Keeps : (id : ℕ) → Keeps HasOneActive (delete_brief id)
unfolding delete_brief
delete-Keeps id = record {
  apply = λ s h b u.
      ground (arith, h b u, active_count-delete_many b u (λ _ a. a.brief_id == id) s.applications);
}

ruleset writes = (guards, brief_written-Keeps, delete-Keeps)

brief_inserted-Keeps : (key : ℕ) (b : Brief) → Keeps HasOneActive (insert_brief key b)
unfolding insert_brief
brief_inserted-Keeps key b = record { apply = λ s h brief user. ground (arith, h brief user) }

create-Keeps :
    (user : AuthenticatedUser) (dto : CreateBriefDto) (key now : ℕ)
    → Keeps HasOneActive (create_brief user dto key now)
unfolding create_brief
create-Keeps user dto key now = search (writes, brief_inserted-Keeps) depth 15

update-Keeps :
    (id : ℕ) (user : AuthenticatedUser) (dto : UpdateBriefDto) (now : ℕ)
    → Keeps HasOneActive (update_brief id user dto now)
unfolding update_brief
update-Keeps id user dto now = search writes depth 15

remove-Keeps : (id : ℕ) (user : AuthenticatedUser) → Keeps HasOneActive (remove_brief id user)
unfolding remove_brief
remove-Keeps id user = search writes depth 15

close-Keeps :
    (id : ℕ) (user : AuthenticatedUser) (now : ℕ) → Keeps HasOneActive (close_brief id user now)
unfolding close_brief
close-Keeps id user now = search writes depth 15

archive-Keeps :
    (id : ℕ) (user : AuthenticatedUser) (now : ℕ) → Keeps HasOneActive (archive_brief id user now)
unfolding archive_brief
archive-Keeps id user now = search writes depth 15

HasOneActive-quiet : IgnoresNotifications HasOneActive
HasOneActive-quiet s t h = h

step-HasOneActive : (c : Call) (s : BriefsDb) → HasOneActive s → HasOneActive (step c s)
unfolding step
step-HasOneActive (create_call user dto key now) s h = (create-Keeps user dto key now).apply s h
step-HasOneActive (update_call id user dto now) s h = (update-Keeps id user dto now).apply s h
step-HasOneActive (remove_call id user) s h = (remove-Keeps id user).apply s h
step-HasOneActive (close_call id user now) s h = (close-Keeps id user now).apply s h
step-HasOneActive (archive_call id user now) s h = (archive-Keeps id user now).apply s h
step-HasOneActive (apply_call user dto key notification) s h =
    (apply-Keeps user dto key notification).apply s h
step-HasOneActive (withdraw_call id user notification now) s h =
    (withdraw-Keeps id user notification now).apply s h
step-HasOneActive (decide_call id user decision notification now) s h =
    (decide-Keeps id user decision notification now).apply s h
step-HasOneActive (read_call id user) s h = (mark_read-Keeps HasOneActive-quiet id user).apply s h
step-HasOneActive (read_all_call user) s h = (mark_all_read-Keeps HasOneActive-quiet user).apply s h

-- Over any sequence of calls of briefs, applications and notifications, refused ones included,
-- a person has at most one pending or accepted application for a brief, if that was so before.
pub run-HasOneActive : (cs : List Call) (s : BriefsDb) → HasOneActive s → HasOneActive (run cs s)
unfolding run
run-HasOneActive [] s h = h
run-HasOneActive (c ∷ cs) s h = run-HasOneActive cs (step c s) (step-HasOneActive c s h)
