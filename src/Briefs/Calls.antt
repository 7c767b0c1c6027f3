-- ===== src/Briefs/Calls.antt =====
-- The calls of the endpoints of briefs, applications and their notifications, as steps on the
-- tables.
use collabos_backend.Base.{ℕ, List, [], ◌∷◌, AuthenticatedUser}
use collabos_backend.Briefs.State.{BriefsDb}
use collabos_backend.Briefs.Service.{
  CreateBriefDto, UpdateBriefDto, create_brief, update_brief, remove_brief, close_brief,
  archive_brief,
}
use collabos_backend.Briefs.Notifications.{mark_read, mark_all_read}
use collabos_backend.Briefs.Applications.{
  CreateApplicationDto, Decision, apply_for, withdraw_application, decide_application,
}

-- A call with its caller, its body, the keys of the rows that it may insert and its time.
pub data Call : Type 0 where
  create_call : AuthenticatedUser → CreateBriefDto → ℕ → ℕ → Call
  update_call : ℕ → AuthenticatedUser → UpdateBriefDto → ℕ → Call
  remove_call : ℕ → AuthenticatedUser → Call
  close_call archive_call : ℕ → AuthenticatedUser → ℕ → Call
  apply_call : AuthenticatedUser → CreateApplicationDto → ℕ → ℕ → Call
  withdraw_call : ℕ → AuthenticatedUser → ℕ → ℕ → Call
  decide_call : ℕ → AuthenticatedUser → Decision → ℕ → ℕ → Call
  read_call : ℕ → ℕ → Call
  read_all_call : ℕ → Call

-- The tables after a call, which may throw.
unfoldable pub step : Call → BriefsDb → BriefsDb
step (create_call user dto key now) s = (create_brief user dto key now s).1
step (update_call id user dto now) s = (update_brief id user dto now s).1
step (remove_call id user) s = (remove_brief id user s).1
step (close_call id user now) s = (close_brief id user now s).1
step (archive_call id user now) s = (archive_brief id user now s).1
step (apply_call user dto key notification) s = (apply_for user dto key notification s).1
step (withdraw_call id user notification now) s =
    (withdraw_application id user notification now s).1
step (decide_call id user decision notification now) s =
    (decide_application id user decision notification now s).1
step (read_call id user) s = (mark_read id user s).1
step (read_all_call user) s = (mark_all_read user s).1

unfoldable pub run : List Call → BriefsDb → BriefsDb
unfolding step
run [] s = s
run (c ∷ cs) s = run cs (step c s)
