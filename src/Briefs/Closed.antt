-- ===== src/Briefs/Closed.antt =====
-- A brief that is no longer open (src/briefs, src/applications).
use collabos_backend.Base.{
  Option-cases, inl, inr, ℕ, ◌≤◌, ◌≡◌, ◌≢◌, refl, true, false, ◌&&◌, ◌==◌, ◌is◌, none, List, [],
  ◌∷◌, arith, ok, is_ok, AuthenticatedUser, Keeps, OnSuccess, of_success,
}
use collabos_backend.Prisma.{Table, find_unique, update, delete, count, count_pos, IsDistinct}
use collabos_backend.Schema.Collaboration.{Brief, BriefStatus, brief_status_enum}
use collabos_backend.Briefs.State.{
  BriefsDb, find_brief_or_throw, find_brief_with_brand_or_throw, assert_brief_owner_or_admin,
  assert_brand_owner_or_admin,
}
use collabos_backend.Briefs.Service.{
  CreateBriefDto, UpdateBriefDto, insert_brief, create_brief, edited, write_brief, update_brief,
  delete_brief, remove_brief, to_closed, close_brief, to_archived, archive_brief,
}
use collabos_backend.Briefs.Notifications.{notify}
use collabos_backend.Briefs.Applications.{
  CreateApplicationDto, Decision, insert_application, apply_for, find_application_or_throw,
  update_application, withdraw_application, decide_application,
}
use collabos_backend.Briefs.Stable.{
  guards, IgnoresNotifications, mark_read-Keeps, mark_all_read-Keeps,
}
use collabos_backend.Briefs.Calls.{
  Call, create_call, update_call, remove_call, close_call, archive_call, apply_call, withdraw_call,
  decide_call, read_call, read_all_call, step, run,
}

-- The rows under a key that are open.
abbrev pub open_count : ℕ → Table Brief → ℕ
open_count id = count (λ k b. k == id && b.status is BriefStatus.open_brief)

abbrev pub IsNotOpen : ℕ → BriefsDb → Type 0
IsNotOpen id s = open_count id s.briefs ≡ 0

module _ (id : ℕ) where
  open_count-update :
      (k : ℕ) (f : Brief → Brief) (t : Table Brief)
      → ((b : Brief)
          → (f b).status is BriefStatus.open_brief ≡ true
          → b.status is BriefStatus.open_brief ≡ true)
      → open_count id (update k f t) ≤ open_count id t
  open_count-update k f [] same = omega arith
  open_count-update k f ((j, b) ∷ t) same = ground (arith, same b, open_count-update k f t same)

  open_count-delete : (k : ℕ) (t : Table Brief) → open_count id (delete k t) ≤ open_count id t
  open_count-delete k [] = omega arith
  open_count-delete k ((j, b) ∷ t) = ground (arith, open_count-delete k t)

  open_count_of_absent : (t : Table Brief) → find_unique id t ≡ none → open_count id t ≡ 0
  open_count_of_absent [] h = refl
  open_count_of_absent ((j, b) ∷ t) h = ground (arith, h, open_count_of_absent t)

  open_count-closed :
      (now : ℕ) (t : Table Brief) → IsDistinct t → open_count id (update id (to_closed now) t) ≡ 0
  open_count-closed now [] distinct = refl
  open_count-closed now ((j, b) ∷ t) distinct =
      ground (arith, distinct, open_count-closed now t, open_count_of_absent t)

  written-Keeps :
      (k : ℕ) (f : Brief → Brief)
      → ((b : Brief)
          → (f b).status is BriefStatus.open_brief ≡ true
          → b.status is BriefStatus.open_brief ≡ true)
      → Keeps (IsNotOpen id) (write_brief k f)
  unfolding write_brief
  written-Keeps k f same = record {
    apply = λ s h. ground (arith, h, open_count-update k f s.briefs same);
  }

  inserted-Keeps : (k : ℕ) (b : Brief) → k ≢ id → Keeps (IsNotOpen id) (insert_brief k b)
  unfolding insert_brief
  inserted-Keeps k b other = record { apply = λ s h. ground (arith, h, other) }

  deleted-Keeps : (k : ℕ) → Keeps (IsNotOpen id) (delete_brief k)
  unfolding delete_brief
  deleted-Keeps k = record { apply = λ s h. ground (arith, h, open_count-delete k s.briefs) }

  edited_open :
      (dto : UpdateBriefDto) (b : Brief)
      → (edited dto b).status is BriefStatus.open_brief ≡ true
      → b.status is BriefStatus.open_brief ≡ true
  edited_open dto b h = h

  closed_open :
      (now : ℕ) (b : Brief)
      → (to_closed now b).status is BriefStatus.open_brief ≡ true
      → b.status is BriefStatus.open_brief ≡ true
  closed_open now b h = ground (arith, h)

  archived_open :
      (now : ℕ) (b : Brief)
      → (to_archived now b).status is BriefStatus.open_brief ≡ true
      → b.status is BriefStatus.open_brief ≡ true
  archived_open now b h = ground (arith, h)

ruleset writes =
    (guards, written-Keeps, inserted-Keeps, deleted-Keeps, edited_open, closed_open, archived_open)

-- The call makes no new brief under the key.
abbrev pub AvoidsKey : ℕ → Call → Type 0
AvoidsKey id (create_call user dto key now) = key ≢ id
AvoidsKey id _ = Unit

abbrev pub AllAvoidKey : ℕ → List Call → Type 0
AllAvoidKey id [] = Unit
AllAvoidKey id (c ∷ cs) = AvoidsKey id c × AllAvoidKey id cs

module _ (id : ℕ) where
  create-Keeps :
      (user : AuthenticatedUser) (dto : CreateBriefDto) (key now : ℕ)
      → key ≢ id
      → Keeps (IsNotOpen id) (create_brief user dto key now)
  unfolding create_brief
  create-Keeps user dto key now other = search (writes, other) depth 15

  update-Keeps :
      (k : ℕ) (user : AuthenticatedUser) (dto : UpdateBriefDto) (now : ℕ)
      → Keeps (IsNotOpen id) (update_brief k user dto now)
  unfolding update_brief
  update-Keeps k user dto now = search writes depth 15

  remove-Keeps : (k : ℕ) (user : AuthenticatedUser) → Keeps (IsNotOpen id) (remove_brief k user)
  unfolding remove_brief
  remove-Keeps k user = search writes depth 15

  close-Keeps :
      (k : ℕ) (user : AuthenticatedUser) (now : ℕ) → Keeps (IsNotOpen id) (close_brief k user now)
  unfolding close_brief
  close-Keeps k user now = search writes depth 15

  archive-Keeps :
      (k : ℕ) (user : AuthenticatedUser) (now : ℕ) → Keeps (IsNotOpen id) (archive_brief k user now)
  unfolding archive_brief
  archive-Keeps k user now = search writes depth 15

  apply-Keeps :
      (user : AuthenticatedUser) (dto : CreateApplicationDto) (key notification : ℕ)
      → Keeps (IsNotOpen id) (apply_for user dto key notification)
  unfolding apply_for find_brief_with_brand_or_throw insert_application notify
  apply-Keeps user dto key notification = record { apply = λ s h. ground (arith, h) }

  withdraw-Keeps :
      (k : ℕ) (user : AuthenticatedUser) (notification now : ℕ)
      → Keeps (IsNotOpen id) (withdraw_application k user notification now)
  unfolding withdraw_application find_application_or_throw find_brief_with_brand_or_throw
      update_application notify
  withdraw-Keeps k user notification now = record { apply = λ s h. ground (arith, h) }

  decide-Keeps :
      (k : ℕ) (user : AuthenticatedUser) (decision : Decision) (notification now : ℕ)
      → Keeps (IsNotOpen id) (decide_application k user decision notification now)
  unfolding decide_application find_application_or_throw find_brief_with_brand_or_throw
      assert_brief_owner_or_admin update_application notify
  decide-Keeps k user decision notification now = record { apply = λ s h. ground (arith, h) }

  IsNotOpen-quiet : IgnoresNotifications (IsNotOpen id)
  IsNotOpen-quiet s t h = h

  step-IsNotOpen :
      (c : Call) (s : BriefsDb) → AvoidsKey id c → IsNotOpen id s → IsNotOpen id (step c s)
  unfolding step
  step-IsNotOpen (create_call user dto key now) s other h =
      (create-Keeps user dto key now other).apply s h
  step-IsNotOpen (update_call k user dto now) s other h = (update-Keeps k user dto now).apply s h
  step-IsNotOpen (remove_call k user) s other h = (remove-Keeps k user).apply s h
  step-IsNotOpen (close_call k user now) s other h = (close-Keeps k user now).apply s h
  step-IsNotOpen (archive_call k user now) s other h = (archive-Keeps k user now).apply s h
  step-IsNotOpen (apply_call user dto key n) s other h = (apply-Keeps user dto key n).apply s h
  step-IsNotOpen (withdraw_call k user n now) s other h = (withdraw-Keeps k user n now).apply s h
  step-IsNotOpen (decide_call k user decision n now) s other h =
      (decide-Keeps k user decision n now).apply s h
  step-IsNotOpen (read_call k user) s other h = (mark_read-Keeps IsNotOpen-quiet k user).apply s h
  step-IsNotOpen (read_all_call user) s other h =
      (mark_all_read-Keeps IsNotOpen-quiet user).apply s h

  run-IsNotOpen :
      (cs : List Call) (s : BriefsDb) → AllAvoidKey id cs → IsNotOpen id s → IsNotOpen id (run cs s)
  unfolding run
  run-IsNotOpen [] s others h = h
  run-IsNotOpen (c ∷ cs) s others h =
      run-IsNotOpen cs (step c s) others.1 (step-IsNotOpen c s others.0 h)

  close-IsNotOpen :
      (user : AuthenticatedUser) (now : ℕ) (s : BriefsDb)
      → IsDistinct s.briefs
      → OnSuccess (λ _ t. IsNotOpen id t) (close_brief id user now s)
  unfolding close_brief find_brief_or_throw assert_brand_owner_or_admin write_brief
  close-IsNotOpen user now s distinct =
      ground (arith, distinct, open_count-closed id now s.briefs distinct)

apply_refused :
    (user : AuthenticatedUser) (dto : CreateApplicationDto) (key notification : ℕ) (s : BriefsDb)
    → IsNotOpen dto.brief_id s
    → is_ok (apply_for user dto key notification s).0 ≡ false
unfolding apply_for find_brief_with_brand_or_throw
apply_refused user dto key notification s h =
    elim (Option-cases (find_unique dto.brief_id s.briefs)) [
      | inl e ↦ ground (arith, e)
      | inr (b, e) ↦ ground (
        arith,
        e,
        h,
        count_pos (λ k x. k == dto.brief_id && x.status is BriefStatus.open_brief) dto.brief_id
            s.briefs b e,
      )
    ]

-- Once a brief is closed, nobody's application for it succeeds, whatever calls of briefs and
-- applications come between, if the keys of briefs were distinct and no call makes a new brief
-- under the same key.
pub closed_takes_none :
    (owner user : AuthenticatedUser) (dto : CreateApplicationDto) (now key notification : ℕ)
    (closed : Brief) (cs : List Call) (s : BriefsDb)
    → IsDistinct s.briefs
    → AllAvoidKey dto.brief_id cs
    → (close_brief dto.brief_id owner now s).0 ≡ ok closed
    → is_ok
        (apply_for user dto key notification (run cs (close_brief dto.brief_id owner now s).1)).0
      ≡ false
closed_takes_none owner user dto now key notification closed cs s distinct others h =
    apply_refused user dto key notification (run cs (close_brief dto.brief_id owner now s).1) (
      run-IsNotOpen dto.brief_id cs (close_brief dto.brief_id owner now s).1 others (
        of_success (IsNotOpen dto.brief_id) (close_brief dto.brief_id owner now s) closed h
          (close-IsNotOpen dto.brief_id owner now s distinct)))
