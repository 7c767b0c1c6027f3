-- ===== src/Auth/Lockout.antt =====
-- A user who was removed (src/users/services/users.service.ts) and the guards of requests.
use collabos_backend.Base.{
  Option-cases, inl, inr, ℕ, ◌≡◌, ◌≢◌, Bool, true, false, Option, none, some, String, List, [], ◌∷◌,
  arith, ok, err, unauthorized, OnSuccess, of_success,
}
use collabos_backend.Prisma.{Table, update, find_unique, has_key}
use collabos_backend.Schema.Identity.{User}
use collabos_backend.Auth.State.{AuthDb, Crypto, JwtPayload}
use collabos_backend.Auth.Accounts.{
  remove_user, ensure_exists, update_user, update_active, with_active,
}
use collabos_backend.Auth.Calls.{Call, step}
use collabos_backend.Auth.Guards.{validate}
use collabos_backend.Auth.Stable.{step-IsStable}
use collabos_backend.Auth.Deactivated.{is_deactivated, IsDeactivated, IsDeactivated-IsStable}

is_deactivated-update_found :
    (id : ℕ) (t : Table User)
    → has_key id t ≡ true
    → is_deactivated id (update id (with_active (some false)) t) ≡ true
is_deactivated-update_found id [] h = ground arith
is_deactivated-update_found id ((j, u) ∷ t) h = ground (arith, is_deactivated-update_found id t)

remove-IsDeactivated :
    (id : ℕ) (s : AuthDb) → OnSuccess (λ _ t. IsDeactivated id t) (remove_user id s)
unfolding remove_user ensure_exists update_user
remove-IsDeactivated id s = ground (arith, is_deactivated-update_found id s.users)

validate_refused :
    (payload : JwtPayload) (s : AuthDb)
    → IsDeactivated payload.sub s
    → validate payload s ≡ (err (unauthorized "Invalid or expired session"), s)
unfolding validate
validate_refused payload s h = elim (Option-cases (find_unique payload.sub s.users)) [
  | inl e ↦ ground (arith, e, h)
  | inr (v, e) ↦ ground (arith, e, h)
]

-- What may come after: a call of an endpoint of AuthController, a write of `isActive` by
-- UsersService.update or by AdminUsersService.suspend and reactivate, a removal.
pub data UserCall : Type 0 where
  auth_call : Call → UserCall
  update_call : ℕ → Option Bool → UserCall
  remove_call : ℕ → UserCall

unfoldable pub user_step : Crypto → UserCall → AuthDb → AuthDb
user_step c (auth_call call) s = step c call s
user_step c (update_call id active) s = (update_active id active s).1
user_step c (remove_call id) s = (remove_user id s).1

unfoldable pub user_run : Crypto → List UserCall → AuthDb → AuthDb
unfolding user_step
user_run c [] s = s
user_run c (call ∷ calls) s = user_run c calls (user_step c call s)

-- The call does not make the user active again.
abbrev pub LeavesInactive : ℕ → UserCall → Type 0
LeavesInactive user (update_call id (some true)) = id ≢ user
LeavesInactive user _ = Unit

abbrev pub AllLeaveInactive : ℕ → List UserCall → Type 0
AllLeaveInactive user [] = Unit
AllLeaveInactive user (c ∷ cs) = LeavesInactive user c × AllLeaveInactive user cs

is_deactivated-update_active :
    (user id : ℕ) (active : Option Bool) (t : Table User)
    → LeavesInactive user (update_call id active)
    → is_deactivated user t ≡ true
    → is_deactivated user (update id (with_active active) t) ≡ true
is_deactivated-update_active user id none [] left h = ground (arith, h)
is_deactivated-update_active user id (some true) [] left h = ground (arith, h)
is_deactivated-update_active user id (some false) [] left h = ground (arith, h)
is_deactivated-update_active user id none ((j, u) ∷ t) left h =
    ground (arith, h, is_deactivated-update_active user id none t left)
is_deactivated-update_active user id (some true) ((j, u) ∷ t) left h =
    ground (arith, h, left, is_deactivated-update_active user id (some true) t left)
is_deactivated-update_active user id (some false) ((j, u) ∷ t) left h =
    ground (arith, h, is_deactivated-update_active user id (some false) t left)

user_step-IsDeactivated :
    (c : Crypto) (user : ℕ) (call : UserCall) (s : AuthDb)
    → LeavesInactive user call
    → IsDeactivated user s
    → IsDeactivated user (user_step c call s)
unfolding user_step update_active remove_user ensure_exists update_user
user_step-IsDeactivated c user (auth_call call) s left h =
    step-IsStable (IsDeactivated user) (IsDeactivated-IsStable user) c call s h
user_step-IsDeactivated c user (update_call id active) s left h =
    ground (arith, h, is_deactivated-update_active user id active s.users left h)
user_step-IsDeactivated c user (remove_call id) s left h =
    ground (arith, h, is_deactivated-update_active user id (some false) s.users tt h)

user_run-IsDeactivated :
    (c : Crypto) (user : ℕ) (calls : List UserCall) (s : AuthDb)
    → AllLeaveInactive user calls
    → IsDeactivated user s
    → IsDeactivated user (user_run c calls s)
unfolding user_run
user_run-IsDeactivated c user [] s left h = h
user_run-IsDeactivated c user (call ∷ calls) s left h =
    user_run-IsDeactivated c user calls (user_step c call s) left.1
      (user_step-IsDeactivated c user call s left.0 h)

-- Once a user is removed, no access token of the user passes JwtStrategy, not even one that is
-- still valid, whatever calls of the authentication endpoints, updates of users and removals come
-- between, as long as none of them sets the user's `isActive` to true.
pub removed_locked_out :
    (c : Crypto) (payload : JwtPayload) (answer : String) (s : AuthDb) (calls : List UserCall)
    → (remove_user payload.sub s).0 ≡ ok answer
    → AllLeaveInactive payload.sub calls
    → validate payload (user_run c calls (remove_user payload.sub s).1) ≡ (
      err (unauthorized "Invalid or expired session"),
      user_run c calls (remove_user payload.sub s).1,
    )
removed_locked_out c payload answer s calls h left =
    validate_refused payload (user_run c calls (remove_user payload.sub s).1) (
      user_run-IsDeactivated c payload.sub calls (remove_user payload.sub s).1 left (
        of_success (IsDeactivated payload.sub) (remove_user payload.sub s) answer h
          (remove-IsDeactivated payload.sub s)))
