-- ===== src/Auth/Deactivated.antt =====
-- A user who is deactivated (src/users/services/users.service.ts).
use collabos_backend.Base.{
  ℕ, ◌≡◌, Bool, true, false, not, Option, none, some, [], ◌∷◌, arith, Keeps,
}
use collabos_backend.Prisma.{Table, find_unique, update}
use collabos_backend.Schema.Identity.{User}
use collabos_backend.Auth.State.{AuthDb, Crypto, Request, record_audit, create_refresh}
use collabos_backend.Auth.Sessions.{revoke}
use collabos_backend.Auth.Accounts.{
  create_user, issue_email_verification_token, request_reset, update_user, consume_reset,
  revoke_all, consume_verification,
}
use collabos_backend.Auth.Stable.{IsStable}

-- The user's row is there and not active.
abbrev pub is_deactivated : ℕ → Table User → Bool
is_deactivated id t = elim (find_unique id t) [ none ↦ false | some u ↦ not u.is_active ]

abbrev pub IsDeactivated : ℕ → AuthDb → Type 0
IsDeactivated id s = is_deactivated id s.users ≡ true

module _ (user : ℕ) where
  is_deactivated-update :
      (k : ℕ) (f : User → User) (t : Table User)
      → ((u : User) → (f u).is_active ≡ u.is_active)
      → is_deactivated user t ≡ true
      → is_deactivated user (update k f t) ≡ true
  is_deactivated-update k f [] same h = ground arith
  is_deactivated-update k f ((j, u) ∷ t) same h =
      ground (arith, same u, is_deactivated-update k f t same)

  Keeps-request_reset :
      (c : Crypto) (req : Request) (found : Option (ℕ × User))
      → Keeps (IsDeactivated user) (request_reset c req found)
  unfolding request_reset record_audit
  Keeps-request_reset c req none = record { apply = λ s h. h }
  Keeps-request_reset c req (some (id, u)) = record { apply = λ s h. ground (arith, h) }

  pub IsDeactivated-IsStable : IsStable (IsDeactivated user)
  unfolding create_refresh revoke revoke_all record_audit create_user issue_email_verification_token
      update_user consume_reset consume_verification
  IsDeactivated-IsStable = record {
    keeps_create_refresh = λ k r. record { apply = λ s h. ground (arith, h) };
    keeps_revoke = λ id now. record { apply = λ s h. ground (arith, h) };
    keeps_revoke_all = λ id now. record { apply = λ s h. h };
    keeps_audit = λ action u metadata req. record { apply = λ s h. h };
    keeps_create_user = λ k email password. record { apply = λ s h. ground (arith, h) };
    keeps_issue = λ c u req. record { apply = λ s h. ground (arith, h) };
    keeps_request = Keeps-request_reset;
    keeps_update_user = λ id f same. record {
      apply = λ s h. ground (arith, h, is_deactivated-update id f s.users same h);
    };
    keeps_consume_reset = λ id now. record { apply = λ s h. ground (arith, h) };
    keeps_consume_verification = λ id now. record { apply = λ s h. ground (arith, h) };
  }
