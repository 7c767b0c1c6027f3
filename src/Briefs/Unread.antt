-- ===== src/Briefs/Unread.antt =====
-- Unread notifications (src/applications/services/notifications.service.ts).
use collabos_backend.Base.{ℕ, ◌≡◌, ◌≢◌, refl, true, some, ok, [], ◌∷◌, arith}
use collabos_backend.Prisma.{Table, find_unique, update_many}
use collabos_backend.Schema.Collaboration.{Notification}
use collabos_backend.Briefs.State.{BriefsDb}
use collabos_backend.Briefs.Notifications.{unread_count, is_unread_of, read, mark_all_read}

unread_count-read_all :
    (user : ℕ) (t : Table Notification)
    → unread_count user (update_many (is_unread_of user) read t) ≡ 0
unread_count-read_all user [] = refl
unread_count-read_all user ((k, n) ∷ t) = ground (arith, unread_count-read_all user t)

find_unique-read_other :
    (user k : ℕ) (n : Notification) (t : Table Notification)
    → n.user_id ≢ user
    → find_unique k t ≡ some n
    → find_unique k (update_many (is_unread_of user) read t) ≡ some n
find_unique-read_other user k n [] other h = h
find_unique-read_other user k n ((j, m) ∷ t) other h =
    ground (arith, other, h, find_unique-read_other user k n t other)

find_unique-read_own :
    (user k : ℕ) (n : Notification) (t : Table Notification)
    → n.user_id ≡ user
    → find_unique k t ≡ some n
    → find_unique k (update_many (is_unread_of user) read t) ≡ some (record n { is_read = true })
find_unique-read_own user k n [] own h = absurd (ground (arith, h))
find_unique-read_own user k n ((j, m) ∷ t) own h =
    ground (arith, own, h, find_unique-read_own user k n t own)

-- Marking all notifications as read answers how many of the user's were unread and leaves none of
-- them unread; each notification of the user is then read and otherwise as it was, and each of
-- another user stays exactly as it is.
pub mark_all_read-clears :
    (user : ℕ) (s : BriefsDb)
    → ((mark_all_read user s).0 ≡ ok (unread_count user s.notifications))
      × (unread_count user (mark_all_read user s).1.notifications ≡ 0)
      × ((k : ℕ) (n : Notification)
          → n.user_id ≡ user
          → find_unique k s.notifications ≡ some n
          → find_unique k (mark_all_read user s).1.notifications
            ≡ some (record n { is_read = true }))
      × ((k : ℕ) (n : Notification)
          → n.user_id ≢ user
          → find_unique k s.notifications ≡ some n
          → find_unique k (mark_all_read user s).1.notifications ≡ some n)
unfolding mark_all_read
mark_all_read-clears user s = (
  refl,
  unread_count-read_all user s.notifications,
  λ k n own h. find_unique-read_own user k n s.notifications own h,
  λ k n other h. find_unique-read_other user k n s.notifications other h,
)
