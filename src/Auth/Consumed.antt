-- ===== src/Auth/Consumed.antt =====
-- A password-reset token that is consumed (src/auth/auth.service.ts).
use collabos_backend.Base.{
  Bool-cases, Option-cases, inl, inr, ℕ, ◌≡◌, ap, Bool, true, false, Option, none, some, String, [],
  ◌∷◌, arith, is_some, same_text, same_text_path, Keeps,
}
use collabos_backend.Prisma.{Table, update, create}
use collabos_backend.Schema.Identity.{PasswordResetToken, User}
use collabos_backend.Auth.State.{AuthDb, Crypto, Request, find_reset, record_audit, create_refresh}
use collabos_backend.Auth.Sessions.{revoke}
use collabos_backend.Auth.Accounts.{
  create_user, issue_email_verification_token, request_reset, new_reset_token, update_user,
  consume_reset, reset_consumed, revoke_all, consume_verification,
}
use collabos_backend.Auth.Stable.{IsStable}

-- The row under the hash is there and consumed.
abbrev pub is_consumed : String → Table PasswordResetToken → Bool
is_consumed hash t = elim (find_reset hash t) [ none ↦ false | some (k, r) ↦ is_some r.consumed_at ]

abbrev pub IsConsumed : String → AuthDb → Type 0
IsConsumed hash s = is_consumed hash s.reset_tokens ≡ true

module _ (hash : String) where
  pub is_consumed-update :
      (k now : ℕ) (t : Table PasswordResetToken)
      → is_consumed hash t ≡ true
      → is_consumed hash (update k (reset_consumed now) t) ≡ true
  is_consumed-update k now [] h = ground arith
  is_consumed-update k now ((j, r) ∷ t) h = ground (arith, is_consumed-update k now t)

  is_consumed-create :
      (k : ℕ) (r : PasswordResetToken) (t : Table PasswordResetToken)
      → find_reset r.token_hash t ≡ none
      → is_consumed hash t ≡ true
      → is_consumed hash (create k r t) ≡ true
  is_consumed-create k r t free h = elim (Bool-cases (same_text r.token_hash hash)) [
    | inl e ↦ ground (arith, h, free, ap (λ x. find_reset x t) (same_text_path r.token_hash hash e))
    | inr e ↦ ground (arith, e, h)
  ]

  Keeps-request_reset :
      (c : Crypto) (req : Request) (found : Option (ℕ × User))
      → Keeps (IsConsumed hash) (request_reset c req found)
  unfolding request_reset record_audit
  Keeps-request_reset c req none = record { apply = λ s h. h }
  Keeps-request_reset c req (some (id, user)) = record {
    apply = λ s h. elim (Option-cases (find_reset (c.sha256 req.random_bytes) s.reset_tokens)) [
      | inl e ↦ ground (
        arith,
        e,
        h,
        is_consumed-create req.token_key (new_reset_token c id req) s.reset_tokens e h,
      )
      | inr (v, e) ↦ ground (arith, e, h)
    ];
  }

  pub IsConsumed-IsStable : IsStable (IsConsumed hash)
  unfolding create_refresh revoke revoke_all record_audit create_user issue_email_verification_token
      update_user consume_reset consume_verification
  IsConsumed-IsStable = record {
    keeps_create_refresh = λ k r. record { apply = λ s h. ground (arith, h) };
    keeps_revoke = λ id now. record { apply = λ s h. ground (arith, h) };
    keeps_revoke_all = λ user now. record { apply = λ s h. h };
    keeps_audit = λ action user metadata req. record { apply = λ s h. h };
    keeps_create_user = λ k email password. record { apply = λ s h. ground (arith, h) };
    keeps_issue = λ c user req. record { apply = λ s h. ground (arith, h) };
    keeps_request = Keeps-request_reset;
    keeps_update_user = λ id f same. record { apply = λ s h. ground (arith, h) };
    keeps_consume_reset = λ id now. record {
      apply = λ s h. ground (arith, h, is_consumed-update id now s.reset_tokens h);
    };
    keeps_consume_verification = λ id now. record { apply = λ s h. ground (arith, h) };
  }
