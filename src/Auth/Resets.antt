-- ===== src/Auth/Resets.antt =====
-- What a reset of a password does to sessions and to the token that was used
-- (src/auth/auth.service.ts).
use collabos_backend.Base.{
  Option-cases, inl, inr, ℕ, ◌≡◌, true, some, String, List, [], ◌∷◌, arith, is_some, not, ◌&&◌,
  ◌==◌, ok, err, unauthorized, bad_request, same_text, OnSuccess, of_success,
}
use collabos_backend.Prisma.{Table, update, update_many, has_key_of_find_first, IsDistinct}
use collabos_backend.Schema.Identity.{RefreshToken, PasswordResetToken}
use collabos_backend.Auth.State.{AuthDb, Crypto, Request, find_refresh, find_reset, record_audit}
use collabos_backend.Auth.Sessions.{revoked, refresh}
use collabos_backend.Auth.Accounts.{
  reset_password, update_user, consume_reset, reset_consumed, revoke_all,
}
use collabos_backend.Auth.Calls.{Call, run}
use collabos_backend.Auth.Stable.{run-IsStable}
use collabos_backend.Auth.Revoked.{is_revoked, IsRevoked, IsRevoked-IsStable}
use collabos_backend.Auth.Consumed.{is_consumed, IsConsumed, IsConsumed-IsStable}
use collabos_backend.Auth.Rotation.{refused}

is_revoked-of_user :
    (hash : String) (user now k : ℕ) (r : RefreshToken) (t : Table RefreshToken)
    → r.user_id ≡ user
    → find_refresh hash t ≡ some (k, r)
    → is_revoked hash
        (update_many (λ _ x. x.user_id == user && not (is_some x.revoked_at)) (revoked now) t)
      ≡ true
is_revoked-of_user hash user now k r [] same h = ground arith
is_revoked-of_user hash user now k r ((j, x) ∷ t) same h =
    ground (arith, h, same, is_revoked-of_user hash user now k r t same)

is_consumed-update_found :
    (hash : String) (now k : ℕ) (r : PasswordResetToken) (t : Table PasswordResetToken)
    → IsDistinct t
    → find_reset hash t ≡ some (k, r)
    → is_consumed hash (update k (reset_consumed now) t) ≡ true
is_consumed-update_found hash now k r [] distinct h = ground arith
is_consumed-update_found hash now k r ((j, x) ∷ t) distinct h = ground (
  arith,
  distinct,
  h,
  is_consumed-update_found hash now k r t,
  has_key_of_find_first (λ _ y. same_text y.token_hash hash) t k r,
)

module _ (c : Crypto) (token password : String) (req : Request) (s : AuthDb) where
  reset-IsRevoked :
      (i k : ℕ) (stored : PasswordResetToken) (hash : String) (r : RefreshToken)
      → find_reset (c.sha256 token) s.reset_tokens ≡ some (i, stored)
      → find_refresh hash s.refresh_tokens ≡ some (k, r)
      → r.user_id ≡ stored.user_id
      → OnSuccess (λ _ t. IsRevoked hash t) (reset_password c token password req s)
  unfolding reset_password update_user consume_reset revoke_all record_audit
  reset-IsRevoked i k stored hash r e held same = ground (
    arith,
    e,
    held,
    same,
    is_revoked-of_user hash stored.user_id req.now k r s.refresh_tokens same held,
  )

  reset-IsConsumed :
      IsDistinct s.reset_tokens
      → OnSuccess (λ _ t. IsConsumed (c.sha256 token) t) (reset_password c token password req s)
  unfolding reset_password update_user consume_reset revoke_all record_audit
  reset-IsConsumed distinct = elim (Option-cases (find_reset (c.sha256 token) s.reset_tokens)) [
    | inl e ↦ ground (arith, e)
    | inr (v, e) ↦ ground (
      arith,
      e,
      is_consumed-update_found (c.sha256 token) req.now v.0 v.1 s.reset_tokens distinct e,
    )
  ]

reset_refused :
    (c : Crypto) (token password : String) (req : Request) (s : AuthDb)
    → IsConsumed (c.sha256 token) s
    → reset_password c token password req s
      ≡ (err (bad_request "Invalid or expired reset token"), s)
unfolding reset_password
reset_refused c token password req s h =
    elim (Option-cases (find_reset (c.sha256 token) s.reset_tokens)) [
      | inl e ↦ ground (arith, e, h)
      | inr (v, e) ↦ ground (arith, e, h)
    ]

-- After a successful reset of a password, every refresh token that the user of the reset token
-- held before is refused, whatever calls of the authentication endpoints come between.
pub reset_ends_sessions :
    (c : Crypto) (token password session answer : String) (req later : Request) (s : AuthDb)
    (calls : List Call) (i k : ℕ) (stored : PasswordResetToken) (r : RefreshToken)
    → find_reset (c.sha256 token) s.reset_tokens ≡ some (i, stored)
    → find_refresh (c.sha256 session) s.refresh_tokens ≡ some (k, r)
    → r.user_id ≡ stored.user_id
    → (reset_password c token password req s).0 ≡ ok answer
    → refresh c session later (run c calls (reset_password c token password req s).1) ≡ (
      err (unauthorized "Invalid or expired refresh token"),
      run c calls (reset_password c token password req s).1,
    )
reset_ends_sessions c token password session answer req later s calls i k stored r e held same h =
    refused c session later (run c calls (reset_password c token password req s).1) (
      run-IsStable (IsRevoked (c.sha256 session)) (IsRevoked-IsStable (c.sha256 session)) c calls
        (reset_password c token password req s).1
        (of_success (IsRevoked (c.sha256 session)) (reset_password c token password req s) answer h
          (reset-IsRevoked c token password req s i k stored (c.sha256 session) r e held same)))

-- A token that reset a password once resets none again, whatever calls of the authentication
-- endpoints come between, if the keys of the reset tokens were distinct.
pub reset_once :
    (c : Crypto) (token password again answer : String) (req later : Request) (s : AuthDb)
    (calls : List Call)
    → IsDistinct s.reset_tokens
    → (reset_password c token password req s).0 ≡ ok answer
    → reset_password c token again later (run c calls (reset_password c token password req s).1) ≡ (
      err (bad_request "Invalid or expired reset token"),
      run c calls (reset_password c token password req s).1,
    )
reset_once c token password again answer req later s calls distinct h =
    reset_refused c token again later (run c calls (reset_password c token password req s).1) (
      run-IsStable (IsConsumed (c.sha256 token)) (IsConsumed-IsStable (c.sha256 token)) c calls
        (reset_password c token password req s).1
        (of_success (IsConsumed (c.sha256 token)) (reset_password c token password req s) answer h
          (reset-IsConsumed c token password req s distinct)))
