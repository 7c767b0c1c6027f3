-- ===== src/Drops/Courses.antt =====
-- What the calls do to the status of a drop (src/drops/services/drops.service.ts).
use native.Mathlib.Decide.{ℕ_discrete}
use collabos_backend.Base.{
  Option-cases, inl, inr, ℕ, ◌≡◌, refl, ap, sym, ◌∙◌, Bool, true, false, ◌||◌, ◌is◌, Option, none,
  some, List, [], ◌∷◌, String, arith, AuthenticatedUser, Keeps, Keeps-pure, keeps_rules,
}
use collabos_backend.Prisma.{
  Table, find_unique, update, find_unique-update_self, find_unique-update_ne,
}
use collabos_backend.Schema.Launches.{Drop, DropStatus, drop_status_enum, DropVisibility}
use collabos_backend.Drops.State.{DropsDb, find_drop_or_throw, assert_brand_owner, write_drop}
use collabos_backend.Drops.Service.{
  CreateDropDto, assert_deal_of_brand, insert_drop, create_drop, renamed, update_drop,
  enqueue_publish_job, to_scheduled, schedule_drop, to_published, publish_drop, publish_found,
  publish_scheduled, to_archived, archive_drop, update_visibility,
}
use collabos_backend.Drops.Machine.{
  Course, can_become, can_become-Course, can_become_refl, archived_last, scheduled_next,
  published_next,
}
use collabos_backend.Drops.Calls.{
  Call, create_call, update_call, schedule_call, publish_call, archive_call, visibility_call,
  job_call, step, run,
}

-- The drop is there, with a status that the first one may become.
abbrev pub has_become : ℕ → DropStatus → Table Drop → Bool
has_become id start t = elim (find_unique id t) [
  | none ↦ false
  | some d ↦ can_become start d.status
]

abbrev HasBecome : ℕ → DropStatus → DropsDb → Type 0
HasBecome id start s = has_become id start s.drops ≡ true

module _ (id : ℕ) (start : DropStatus) where
  -- A write that moves the status of the drop along.
  has_become-update :
      (k : ℕ) (f : Drop → Drop) (t : Table Drop)
      → ((d : Drop)
          → can_become start d.status ≡ true
          → find_unique k t ≡ some d
          → can_become start (f d).status ≡ true)
      → has_become id start t ≡ true
      → has_become id start (update k f t) ≡ true
  has_become-update k f t moves h = elim (Option-cases (find_unique id t)) [
    | inl e ↦ absurd (ground (arith, e, h))
    | inr (d, e) ↦ elim (ℕ_discrete id k) [
      | no other ↦ ground (arith, h, find_unique-update_ne id k f t other)
      | yes same ↦
          (let found = ap (λ i. find_unique i t) (sym same) ∙ e in
            let moved = moves d (ground (arith, e, h)) found in
            let after =
              ap (λ i. find_unique i (update k f t)) same ∙ find_unique-update_self k f t d found in
            ground (arith, moved, after))
    ]
  ]

  kept :
      (k : ℕ) (f : Drop → Drop)
      → ((d : Drop) → (f d).status ≡ d.status)
      → Keeps (HasBecome id start) (write_drop k f)
  unfolding write_drop
  kept k f same = record {
    apply = λ s h. ground (
      arith,
      h,
      has_become-update k f s.drops (λ d now e. ap (can_become start) (same d) ∙ now) h,
    );
  }

  becomes :
      (k : ℕ) (f : Drop → Drop) (s : DropsDb)
      → ((d : Drop)
          → can_become start d.status ≡ true
          → find_unique k s.drops ≡ some d
          → can_become start (f d).status ≡ true)
      → HasBecome id start s
      → HasBecome id start (write_drop k f s).1
  unfolding write_drop
  becomes k f s moves h = ground (arith, h, has_become-update k f s.drops moves h)

  guard_brand-Keeps :
      (k : ℕ) (user : AuthenticatedUser) → Keeps (HasBecome id start) (assert_brand_owner k user)
  unfolding assert_brand_owner
  guard_brand-Keeps k user = search keeps_rules depth 12

  guard_deal-Keeps :
      (k : ℕ) (deal : Option ℕ) → Keeps (HasBecome id start) (assert_deal_of_brand k deal)
  unfolding assert_deal_of_brand
  guard_deal-Keeps k none = Keeps-pure tt
  guard_deal-Keeps k (some deal) = search keeps_rules depth 12

  find_drop-Keeps : (k : ℕ) → Keeps (HasBecome id start) (find_drop_or_throw k)
  unfolding find_drop_or_throw
  find_drop-Keeps k = search keeps_rules depth 9

  insert-Keeps : (k : ℕ) (d : Drop) → Keeps (HasBecome id start) (insert_drop k d)
  unfolding insert_drop
  insert-Keeps k d = record { apply = λ s h. ground (arith, h) }

  create-Keeps :
      (user : AuthenticatedUser) (dto : CreateDropDto) (fuel : ℕ) (base : String)
      (draw : ℕ → String) (key : ℕ)
      → Keeps (HasBecome id start) (create_drop user dto fuel base draw key)
  unfolding create_drop
  create-Keeps user dto fuel base draw key =
      search (keeps_rules, guard_brand-Keeps, guard_deal-Keeps, insert-Keeps) depth 20

  renamed_status :
      (title description : Option String) (d : Drop)
      → (renamed title description d).status ≡ d.status
  renamed_status title none d = refl
  renamed_status title (some text) d = refl

  update-Keeps :
      (k : ℕ) (user : AuthenticatedUser) (title description : Option String)
      → Keeps (HasBecome id start) (update_drop k user title description)
  unfolding update_drop
  update-Keeps k user title description =
      search (keeps_rules, find_drop-Keeps, guard_brand-Keeps, kept, renamed_status) depth 15

  shown :
      (k : ℕ) (visibility : DropVisibility)
      → Keeps (HasBecome id start) (write_drop k (λ d. record d { visibility = visibility }))
  shown k visibility = kept k (λ d. record d { visibility = visibility }) (λ d. refl)

  visibility-Keeps :
      (k : ℕ) (user : AuthenticatedUser) (visibility : DropVisibility)
      → Keeps (HasBecome id start) (update_visibility k user visibility)
  unfolding update_visibility
  visibility-Keeps k user visibility =
      search (keeps_rules, find_drop-Keeps, guard_brand-Keeps, shown) depth 15

  archived_write :
      (k now : ℕ) (t : Table Drop)
      → has_become id start t ≡ true
      → has_become id start (update k (to_archived now) t) ≡ true
  archived_write k now t h =
      has_become-update k (to_archived now) t (λ d reached e. archived_last start) h

  scheduled_write :
      (k at : ℕ) (d : Drop) (t : Table Drop)
      → find_unique k t ≡ some d
      → d.status is DropStatus.draft ≡ true
      → has_become id start t ≡ true
      → has_become id start (update k (to_scheduled at) t) ≡ true
  scheduled_write k at d t found now h =
      has_become-update k (to_scheduled at) t
        (λ x reached e. scheduled_next start x.status reached (ground (arith, e, found, now))) h

  published_write :
      (k now : ℕ) (d : Drop) (t : Table Drop)
      → find_unique k t ≡ some d
      → (d.status is DropStatus.draft || d.status is DropStatus.scheduled) ≡ true
      → has_become id start t ≡ true
      → has_become id start (update k (to_published now) t) ≡ true
  published_write k now d t found open_status h =
      has_become-update k (to_published now) t
        (λ x reached e.
          published_next start x.status reached (ground (arith, e, found, open_status)))
        h

  schedule-Keeps :
      (k : ℕ) (user : AuthenticatedUser) (at now : ℕ)
      → Keeps (HasBecome id start) (schedule_drop k user at now)
  unfolding schedule_drop find_drop_or_throw assert_brand_owner write_drop enqueue_publish_job
  schedule-Keeps k user at now = record {
    apply = λ s h. elim (Option-cases (find_unique k s.drops)) [
      | inl e ↦ ground (arith, e, h)
      | inr (d, e) ↦ ground (arith, e, h, scheduled_write k at d s.drops e)
    ];
  }

  publish-Keeps :
      (k : ℕ) (user : AuthenticatedUser) (now : ℕ)
      → Keeps (HasBecome id start) (publish_drop k user now)
  unfolding publish_drop find_drop_or_throw assert_brand_owner write_drop
  publish-Keeps k user now = record {
    apply = λ s h. elim (Option-cases (find_unique k s.drops)) [
      | inl e ↦ ground (arith, e, h)
      | inr (d, e) ↦ ground (arith, e, h, published_write k now d s.drops e)
    ];
  }

  job-Keeps : (k now : ℕ) → Keeps (HasBecome id start) (publish_scheduled k now)
  unfolding publish_scheduled publish_found write_drop
  job-Keeps k now = record {
    apply = λ s h. elim (Option-cases (find_unique k s.drops)) [
      | inl e ↦ ground (arith, e, h)
      | inr (d, e) ↦ ground (arith, e, h, published_write k now d s.drops e)
    ];
  }

  archive-Keeps :
      (k : ℕ) (user : AuthenticatedUser) (now : ℕ)
      → Keeps (HasBecome id start) (archive_drop k user now)
  unfolding archive_drop find_drop_or_throw assert_brand_owner write_drop
  archive-Keeps k user now = record {
    apply = λ s h. ground (arith, h, archived_write k now s.drops h);
  }

  step-HasBecome : (c : Call) (s : DropsDb) → HasBecome id start s → HasBecome id start (step c s)
  unfolding step
  step-HasBecome (create_call user dto fuel base draw key) s h =
      (create-Keeps user dto fuel base draw key).apply s h
  step-HasBecome (update_call k user title text) s h = (update-Keeps k user title text).apply s h
  step-HasBecome (schedule_call k user at now) s h = (schedule-Keeps k user at now).apply s h
  step-HasBecome (publish_call k user now) s h = (publish-Keeps k user now).apply s h
  step-HasBecome (archive_call k user now) s h = (archive-Keeps k user now).apply s h
  step-HasBecome (visibility_call k user v) s h = (visibility-Keeps k user v).apply s h
  step-HasBecome (job_call k now) s h = (job-Keeps k now).apply s h

  run-HasBecome :
      (cs : List Call) (s : DropsDb) → HasBecome id start s → HasBecome id start (run cs s)
  unfolding run
  run-HasBecome [] s h = h
  run-HasBecome (c ∷ cs) s h = run-HasBecome cs (step c s) (step-HasBecome c s h)

-- The status of a drop in the tables, where the drop is there.
abbrev pub Follows : DropStatus → Option Drop → Type 0
Follows start none = ⊥
Follows start (some d) = Course start d.status

follows :
    (start : DropStatus) (found : Option Drop)
    → elim found [ none ↦ false | some d ↦ can_become start d.status ] ≡ true
    → Follows start found
follows start none h = absurd (ground (arith, h))
follows start (some d) h = can_become-Course start d.status h

-- Over any sequence of calls of the endpoints and jobs of the queue, a drop stays in the tables
-- and its status takes a course of the state machine: from draft to scheduled, from both to
-- published, from any of these to archived, and never back.
pub run-Follows :
    (cs : List Call) (id : ℕ) (d : Drop) (s : DropsDb)
    → find_unique id s.drops ≡ some d
    → Follows d.status (find_unique id (run cs s).drops)
run-Follows cs id d s e =
    follows d.status (find_unique id (run cs s).drops)
      (run-HasBecome id d.status cs s (ground (arith, e, can_become_refl d.status)))
