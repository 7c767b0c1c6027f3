-- ===== src/Auth/Rotation.antt =====
-- Refresh tokens that are used once, and sessions that end (src/auth/auth.service.ts).
use collabos_backend.Base.{
  Option-cases, inl, inr, ℕ, ◌≡◌, true, some, String, List, [], ◌∷◌, arith, ok, err, unauthorized,
  Action, pure, Keeps, Ensures-of_Keeps, keeps_rules, Reaches, Reaches-gets, Reaches-throw_if,
  Reaches-some, Reaches-bind, of_reached, ◌>>◌, ◌>>=◌, same_text,
}
use collabos_backend.Prisma.{Table, update, has_key_of_find_first, IsDistinct}
use collabos_backend.Schema.Identity.{AuditAction, RefreshToken, User}
use collabos_backend.Auth.State.{
  AuthDb, Crypto, Request, AuthTokensResponse, RefreshTokenPayload, find_refresh,
  verify_refresh_token, issue_token_pair, record_audit,
}
use collabos_backend.Auth.Sessions.{revoked, revoke, refresh}
use collabos_backend.Auth.Calls.{Call, run}
use collabos_backend.Auth.Stable.{run-IsStable, Keeps-issue_token_pair}
use collabos_backend.Auth.Revoked.{is_revoked, IsRevoked, IsRevoked-IsStable}

is_revoked-update_found :
    (hash : String) (now k : ℕ) (r : RefreshToken) (t : Table RefreshToken)
    → IsDistinct t
    → find_refresh hash t ≡ some (k, r)
    → is_revoked hash (update k (revoked now) t) ≡ true
is_revoked-update_found hash now k r [] distinct h = ground arith
is_revoked-update_found hash now k r ((j, x) ∷ t) distinct h = ground (
  arith,
  distinct,
  h,
  is_revoked-update_found hash now k r t,
  has_key_of_find_first (λ _ y. same_text y.token_hash hash) t k r,
)

pub refused :
    (c : Crypto) (token : String) (req : Request) (s : AuthDb)
    → IsRevoked (c.sha256 token) s
    → refresh c token req s ≡ (err (unauthorized "Invalid or expired refresh token"), s)
unfolding refresh verify_refresh_token
refused c token req s h = elim (Option-cases (find_refresh (c.sha256 token) s.refresh_tokens)) [
  | inl e ↦ ground (arith, e, h)
  | inr (v, e) ↦ ground (arith, e, h)
]

-- The session's tail after the revocation keeps what the revocation established.
revoke-Reaches :
    (hash : String) (now k : ℕ) (r : RefreshToken) (s : AuthDb)
    → IsDistinct s.refresh_tokens
    → find_refresh hash s.refresh_tokens ≡ some (k, r)
    → Reaches (λ _ t. IsRevoked hash t) s (revoke k now)
unfolding revoke
revoke-Reaches hash now k r s distinct h = record {
  apply = ground (arith, is_revoked-update_found hash now k r s.refresh_tokens distinct h);
}

Reaches-verify :
    {B : Type 0} {Q : B → AuthDb → Type 0} {s : AuthDb} (c : Crypto) (now : ℕ) (token : String)
    (g : RefreshTokenPayload → Action AuthDb B)
    → ((payload : RefreshTokenPayload) → Reaches Q s (g payload))
    → Reaches Q s (verify_refresh_token c now token >>= g)
unfolding verify_refresh_token
Reaches-verify c now token g h = elim (Option-cases (c.verify_refresh now token)) [
  | inl e ↦ record { apply = ground (arith, e) }
  | inr (payload, e) ↦ record { apply = ground (arith, e, (h payload).apply) }
]

module _ (c : Crypto) (token : String) (req : Request) (s : AuthDb)
    (distinct : IsDistinct s.refresh_tokens) where
  session-Keeps :
      (id : ℕ) (user : User)
      → Keeps (IsRevoked (c.sha256 token)) (
          issue_token_pair c id user req >>= λ tokens.
          record_audit AuditAction.token_refresh (some id) [] req >> pure tokens)
  session-Keeps id user =
      search
        (
          keeps_rules,
          Keeps-issue_token_pair (IsRevoked (c.sha256 token)) (IsRevoked-IsStable (c.sha256 token)),
          (IsRevoked-IsStable (c.sha256 token)).keeps_audit,
        )
        depth 12

  rotation-Reaches :
      (id : ℕ) (user : User) (stored : ℕ × RefreshToken)
      → find_refresh (c.sha256 token) s.refresh_tokens ≡ some stored
      → Reaches
          (λ _ t. IsRevoked (c.sha256 token) t)
          s
          (revoke stored.0 req.now
            >> (issue_token_pair c id user req >>= λ tokens.
                record_audit AuditAction.token_refresh (some id) [] req >> pure tokens))
  rotation-Reaches id user stored e =
      Reaches-bind (λ _ t. IsRevoked (c.sha256 token) t) (revoke stored.0 req.now) _
        (revoke-Reaches (c.sha256 token) req.now stored.0 stored.1 s distinct e)
        (λ done. Ensures-of_Keeps (session-Keeps id user))

  refresh-Reaches : Reaches (λ _ t. IsRevoked (c.sha256 token) t) s (refresh c token req)
  unfolding refresh
  refresh-Reaches =
      search (Reaches-verify, Reaches-gets, Reaches-some, Reaches-throw_if, rotation-Reaches) depth
        20

-- A refresh token that gave new tokens once is refused from then on, whatever calls of the
-- authentication endpoints come between, if the keys of the refresh tokens were distinct.
pub refresh_once :
    (c : Crypto) (token : String) (req : Request) (s : AuthDb) (tokens : AuthTokensResponse)
    (calls : List Call) (later : Request)
    → IsDistinct s.refresh_tokens
    → (refresh c token req s).0 ≡ ok tokens
    → refresh c token later (run c calls (refresh c token req s).1) ≡ (
      err (unauthorized "Invalid or expired refresh token"),
      run c calls (refresh c token req s).1,
    )
refresh_once c token req s tokens calls later distinct h =
    refused c token later (run c calls (refresh c token req s).1) (
      run-IsStable (IsRevoked (c.sha256 token)) (IsRevoked-IsStable (c.sha256 token)) c calls
        (refresh c token req s).1
        (of_reached (λ _ t. IsRevoked (c.sha256 token) t) s (refresh c token req) tokens
          (refresh-Reaches c token req s distinct) h))
