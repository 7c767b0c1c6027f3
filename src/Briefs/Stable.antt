-- ===== src/Briefs/Stable.antt =====
-- Predicates of the tables that the writes of the services keep, and with them every call
-- (src/briefs, src/applications).
use collabos_backend.Base.{
  ℕ, ◌≡◌, Option, none, some, Bool, String, List, [], ◌∷◌, arith, Keeps, Keeps-modify, Keeps-pure,
  keeps_rules, AuthenticatedUser,
}
use collabos_backend.Prisma.{Table, create, update, update_many}
use collabos_backend.Schema.Collaboration.{Notification}
use collabos_backend.Briefs.State.{
  BriefsDb, BriefWithBrand, find_brief_or_throw, assert_brand_owner_or_admin,
  find_brief_with_brand_or_throw, assert_brief_owner_or_admin,
}
use collabos_backend.Briefs.Service.{assert_future_deadline}
use collabos_backend.Briefs.Notifications.{notify, mark_read, mark_all_read, is_unread_of, read}
use collabos_backend.Briefs.Applications.{find_application_or_throw}

-- The guards read and throw, so they keep any predicate.
module _ {P : BriefsDb → Type 0} where
  pub find_brief-Keeps : (id : ℕ) → Keeps P (find_brief_or_throw id)
  unfolding find_brief_or_throw
  find_brief-Keeps id = search keeps_rules depth 9

  pub assert_brand-Keeps :
      (id : ℕ) (user : AuthenticatedUser) → Keeps P (assert_brand_owner_or_admin id user)
  unfolding assert_brand_owner_or_admin
  assert_brand-Keeps id user = search keeps_rules depth 12

  pub find_with_brand-Keeps : (id : ℕ) → Keeps P (find_brief_with_brand_or_throw id)
  unfolding find_brief_with_brand_or_throw
  find_with_brand-Keeps id = search keeps_rules depth 15

  pub assert_brief-Keeps :
      (brief : BriefWithBrand) (user : AuthenticatedUser)
      → Keeps P (assert_brief_owner_or_admin brief user)
  unfolding assert_brief_owner_or_admin
  assert_brief-Keeps brief user = search keeps_rules

  pub deadline-Keeps : (d : Option ℕ) (now : ℕ) → Keeps P (assert_future_deadline d now)
  unfolding assert_future_deadline
  deadline-Keeps none now = Keeps-pure tt
  deadline-Keeps (some d) now = search keeps_rules

  pub find_application-Keeps : (id : ℕ) → Keeps P (find_application_or_throw id)
  unfolding find_application_or_throw
  find_application-Keeps id = search keeps_rules depth 9

pub ruleset guards = (
  keeps_rules, find_brief-Keeps, assert_brand-Keeps, find_with_brand-Keeps, assert_brief-Keeps,
  deadline-Keeps, find_application-Keeps,
)

-- The predicate does not look at notifications.
abbrev pub IgnoresNotifications : (BriefsDb → Type 0) → Type 0
IgnoresNotifications P =
    (s : BriefsDb) (t : Table Notification) → P s → P (record s { notifications = t })

module _ {P : BriefsDb → Type 0} (quiet : IgnoresNotifications P) where
  pub notify-Keeps : (key : ℕ) (n : Notification) → Keeps P (notify key n)
  unfolding notify
  notify-Keeps key n = record {
    apply = λ s h. ground (arith, h, quiet s (create key n s.notifications) h);
  }

  pub mark_read-Keeps : (id user : ℕ) → Keeps P (mark_read id user)
  unfolding mark_read
  mark_read-Keeps id user = record {
    apply = λ s h. ground (arith, h, quiet s (update id read s.notifications) h);
  }

  pub mark_all_read-Keeps : (user : ℕ) → Keeps P (mark_all_read user)
  unfolding mark_all_read
  mark_all_read-Keeps user =
      search
        (
          keeps_rules,
          Keeps-modify
              (λ s. record s {
                notifications = update_many (is_unread_of user) read s.notifications;
              })
              (λ s h. quiet s (update_many (is_unread_of user) read s.notifications) h),
        )
        depth 9
