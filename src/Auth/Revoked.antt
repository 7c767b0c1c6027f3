-- ===== src/Auth/Revoked.antt =====
-- A refresh token that is revoked (src/auth/auth.service.ts).
use collabos_backend.Base.{
  Bool-cases, Option-cases, inl, inr, ℕ, ◌≡◌, ap, Bool, true, false, Option, none, some, String, [],
  ◌∷◌, arith, is_some, same_text, same_text_path, Keeps,
}
use collabos_backend.Prisma.{Table, update, update_many, create}
use collabos_backend.Schema.Identity.{RefreshToken, User}
use collabos_backend.Auth.State.{
  AuthDb, Crypto, Request, find_refresh, record_audit, create_refresh,
}
use collabos_backend.Auth.Sessions.{revoked, revoke}
use collabos_backend.Auth.Accounts.{
  create_user, issue_email_verification_token, request_reset, update_user, consume_reset,
  revoke_all, consume_verification,
}
use collabos_backend.Auth.Stable.{IsStable}

-- The row under the hash is there and revoked.
abbrev pub is_revoked : String → Table RefreshToken → Bool
is_revoked hash t = elim (find_refresh hash t) [ none ↦ false | some (k, r) ↦ is_some r.revoked_at ]

abbrev pub IsRevoked : String → AuthDb → Type 0
IsRevoked hash s = is_revoked hash s.refresh_tokens ≡ true

module _ (hash : String) where
  pub is_revoked-update :
      (k now : ℕ) (t : Table RefreshToken)
      → is_revoked hash t ≡ true
      → is_revoked hash (update k (revoked now) t) ≡ true
  is_revoked-update k now [] h = ground arith
  is_revoked-update k now ((j, r) ∷ t) h = ground (arith, is_revoked-update k now t)

  is_revoked-update_many :
      (p : ℕ → RefreshToken → Bool) (now : ℕ) (t : Table RefreshToken)
      → is_revoked hash t ≡ true
      → is_revoked hash (update_many p (revoked now) t) ≡ true
  is_revoked-update_many p now [] h = ground arith
  is_revoked-update_many p now ((j, r) ∷ t) h = ground (arith, is_revoked-update_many p now t)

  is_revoked-create :
      (k : ℕ) (r : RefreshToken) (t : Table RefreshToken)
      → find_refresh r.token_hash t ≡ none
      → is_revoked hash t ≡ true
      → is_revoked hash (create k r t) ≡ true
  is_revoked-create k r t free h = elim (Bool-cases (same_text r.token_hash hash)) [
    | inl e ↦
        ground (arith, h, free, ap (λ x. find_refresh x t) (same_text_path r.token_hash hash e))
    | inr e ↦ ground (arith, e, h)
  ]

  Keeps-create_refresh : (k : ℕ) (r : RefreshToken) → Keeps (IsRevoked hash) (create_refresh k r)
  unfolding create_refresh
  Keeps-create_refresh k r = record {
    apply = λ s h. elim (Option-cases (find_refresh r.token_hash s.refresh_tokens)) [
      | inl e ↦ ground (arith, e, h, is_revoked-create k r s.refresh_tokens e h)
      | inr (v, e) ↦ ground (arith, e, h)
    ];
  }

  Keeps-request_reset :
      (c : Crypto) (req : Request) (found : Option (ℕ × User))
      → Keeps (IsRevoked hash) (request_reset c req found)
  unfolding request_reset record_audit
  Keeps-request_reset c req none = record { apply = λ s h. h }
  Keeps-request_reset c req (some (id, user)) = record { apply = λ s h. ground (arith, h) }

  pub IsRevoked-IsStable : IsStable (IsRevoked hash)
  unfolding revoke revoke_all record_audit create_user issue_email_verification_token update_user
      consume_reset consume_verification
  IsRevoked-IsStable = record {
    keeps_create_refresh = Keeps-create_refresh;
    keeps_revoke = λ id now. record {
      apply = λ s h. ground (arith, h, is_revoked-update id now s.refresh_tokens h);
    };
    keeps_revoke_all =
        λ user now. record { apply = λ s h. is_revoked-update_many _ now s.refresh_tokens h };
    keeps_audit = λ action user metadata req. record { apply = λ s h. h };
    keeps_create_user = λ k email password. record { apply = λ s h. ground (arith, h) };
    keeps_issue = λ c user req. record { apply = λ s h. ground (arith, h) };
    keeps_request = Keeps-request_reset;
    keeps_update_user = λ id f same. record { apply = λ s h. ground (arith, h) };
    keeps_consume_reset = λ id now. record { apply = λ s h. ground (arith, h) };
    keeps_consume_verification = λ id now. record { apply = λ s h. ground (arith, h) };
  }
