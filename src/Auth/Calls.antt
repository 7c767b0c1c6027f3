-- ===== src/Auth/Calls.antt =====
-- The calls of the endpoints of AuthController, as steps on the tables.
use collabos_backend.Base.{String, List, [], ◌∷◌}
use collabos_backend.Auth.State.{AuthDb, Crypto, Request}
use collabos_backend.Auth.Sessions.{LoginDto, login, refresh, logout}
use collabos_backend.Auth.Accounts.{register, forgot_password, reset_password, verify_email}

pub data Call : Type 0 where
  register_call login_call : LoginDto → Request → Call
  refresh_call logout_call forgot_call verify_call : String → Request → Call
  reset_call : String → String → Request → Call

-- The tables after a call, which may throw.
unfoldable pub step : Crypto → Call → AuthDb → AuthDb
step c (register_call dto req) s = (register c dto req s).1
step c (login_call dto req) s = (login c dto req s).1
step c (refresh_call token req) s = (refresh c token req s).1
step c (logout_call token req) s = (logout c token req s).1
step c (forgot_call email req) s = (forgot_password c email req s).1
step c (verify_call token req) s = (verify_email c token req s).1
step c (reset_call token password req) s = (reset_password c token password req s).1

unfoldable pub run : Crypto → List Call → AuthDb → AuthDb
unfolding step
run c [] s = s
run c (call ∷ calls) s = run c calls (step c call s)
