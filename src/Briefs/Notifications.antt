-- ===== src/Briefs/Notifications.antt =====
-- NotificationsService of the applications (src/applications/services/notifications.service.ts).
use collabos_backend.Base.{
  ℕ, Bool, true, false, not, ◌&&◌, none, String, List, Action, ◌>>=◌, ◌>>◌, pure, throw_if, gets,
  modify, some_or_throw, ◌==◌, not_found, record_not_found, unique_violation,
}
use collabos_backend.Prisma.{Table, find_unique, has_key, create, update, update_many, count}
use collabos_backend.Schema.Collaboration.{Notification, NotificationType}
use collabos_backend.Briefs.State.{BriefsDb}

abbrev pub new_notification :
    ℕ → NotificationType → String → String → List (String × ℕ) → Notification
new_notification user kind title message metadata = record {
  user_id = user;
  kind = kind;
  template_key = none;
  title = title;
  message = message;
  metadata = metadata;
  is_read = false;
  read_at = none;
}

-- `create`, with the key that the database makes
unfoldable pub notify : ℕ → Notification → Action BriefsDb (Unit {0})
notify key n = do
  used ← gets (λ s. has_key key s.notifications)
  throw_if used unique_violation
  modify (λ s. record s { notifications = create key n s.notifications })

abbrev pub is_unread_of : ℕ → ℕ → Notification → Bool
is_unread_of user _ n = n.user_id == user && not n.is_read

abbrev pub unread_count : ℕ → Table Notification → ℕ
unread_count user = count (is_unread_of user)

abbrev pub read : Notification → Notification
read n = record n { is_read = true }

unfoldable pub mark_read : ℕ → ℕ → Action BriefsDb Notification
mark_read id user = do
  found ← gets (λ s. find_unique id s.notifications)
  notification ← some_or_throw found (not_found "Notification not found")
  throw_if (not (notification.user_id == user)) (not_found "Notification not found")
  throw_if (not (← gets (λ s. has_key id s.notifications))) record_not_found
  modify (λ s. record s { notifications = update id read s.notifications })
  pure (read notification)

-- `markAllRead`, which answers how many rows it wrote
unfoldable pub mark_all_read : ℕ → Action BriefsDb ℕ
mark_all_read user = do
  updated ← gets (λ s. unread_count user s.notifications)
  modify (λ s. record s { notifications = update_many (is_unread_of user) read s.notifications })
  pure updated
