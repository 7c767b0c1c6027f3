-- ===== src/Drops/Calls.antt =====
-- The calls of the drop endpoints and the jobs of the queue, as steps on the tables.
use collabos_backend.Base.{ℕ, Option, String, List, [], ◌∷◌, AuthenticatedUser}
use collabos_backend.Schema.Launches.{DropVisibility}
use collabos_backend.Drops.State.{DropsDb}
use collabos_backend.Drops.Service.{
  CreateDropDto, create_drop, update_drop, schedule_drop, publish_drop, publish_scheduled,
  archive_drop, update_visibility,
}

pub data Call : Type 0 where
  create_call : AuthenticatedUser → CreateDropDto → ℕ → String → (ℕ → String) → ℕ → Call
  update_call : ℕ → AuthenticatedUser → Option String → Option String → Call
  schedule_call : ℕ → AuthenticatedUser → ℕ → ℕ → Call
  publish_call archive_call : ℕ → AuthenticatedUser → ℕ → Call
  visibility_call : ℕ → AuthenticatedUser → DropVisibility → Call
  -- the worker takes a job of the queue
  job_call : ℕ → ℕ → Call

-- The tables after a call, which may throw.
unfoldable pub step : Call → DropsDb → DropsDb
step (create_call user dto fuel base draw key) s = (create_drop user dto fuel base draw key s).1
step (update_call id user title description) s = (update_drop id user title description s).1
step (schedule_call id user at now) s = (schedule_drop id user at now s).1
step (publish_call id user now) s = (publish_drop id user now s).1
step (archive_call id user now) s = (archive_drop id user now s).1
step (visibility_call id user visibility) s = (update_visibility id user visibility s).1
step (job_call id now) s = (publish_scheduled id now s).1

unfoldable pub run : List Call → DropsDb → DropsDb
unfolding step
run [] s = s
run (c ∷ cs) s = run cs (step c s)
