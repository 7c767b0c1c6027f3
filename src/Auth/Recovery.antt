-- ===== src/Auth/Recovery.antt =====
-- The way back into an account: forgotPassword, resetPassword and login (src/auth/auth.service.ts).
use collabos_backend.Base.{
  is_ok, ℕ, ◌+◌, ◌≤◌, ◌≡◌, refl, ap, ◌∙◌, Bool, true, false, none, some, String, [], ◌∷◌, arith,
  is_some, not, ◌&&◌, ◌==◌, same_text, same_text_refl,
}
use collabos_backend.Prisma.{
  Table, create, update, update_many, has_key, has_key_of_find_first, IsDistinct,
}
use collabos_backend.Schema.Identity.{User, RefreshToken, PasswordResetToken}
use collabos_backend.Auth.State.{
  AuthDb, Crypto, Request, find_by_email, find_refresh, find_reset, record_audit, create_refresh,
  issue_token_pair, generate_refresh_token,
}
use collabos_backend.Auth.Sessions.{login, login_found, refuse_login, revoked}
use collabos_backend.Auth.Accounts.{
  password_reset_ttl_ms, new_reset_token, forgot_password, request_reset, reset_password,
  update_user, with_password, consume_reset, revoke_all,
}

module _ (c : Crypto) (email password : String) where
  forgot_creates :
      (req : Request) (s : AuthDb) (id : ℕ) (user : User)
      → find_by_email email s.users ≡ some (id, user)
      → find_reset (c.sha256 req.random_bytes) s.reset_tokens ≡ none
      → has_key req.token_key s.reset_tokens ≡ false
      → ((forgot_password c email req s).1.users ≡ s.users)
        × ((forgot_password c email req s).1.refresh_tokens ≡ s.refresh_tokens)
        × ((forgot_password c email req s).1.reset_tokens
            ≡ create req.token_key (new_reset_token c id req) s.reset_tokens)
  unfolding forgot_password request_reset record_audit
  forgot_creates req s id user e free unused = ground (arith, e, free, unused)

  reset_writes :
      (token : String) (req : Request) (s : AuthDb) (k : ℕ) (stored : PasswordResetToken)
      → find_reset (c.sha256 token) s.reset_tokens ≡ some (k, stored)
      → is_some stored.consumed_at ≡ false
      → req.now ≤ stored.expires_at
      → has_key stored.user_id s.users ≡ true
      → has_key k s.reset_tokens ≡ true
      → ((reset_password c token password req s).1.users
          ≡ update stored.user_id (with_password (c.bcrypt_hash req.salt password)) s.users)
        × ((reset_password c token password req s).1.refresh_tokens
            ≡ update_many
                (λ _ t. t.user_id == stored.user_id && not (is_some t.revoked_at))
                (revoked req.now)
                s.refresh_tokens)
  unfolding reset_password update_user consume_reset revoke_all record_audit
  reset_writes token req s k stored e fresh valid exists kept =
      ground (arith, e, fresh, valid, exists, kept)

  login_succeeds :
      (req : Request) (s : AuthDb) (id : ℕ) (user : User)
      → find_by_email email s.users ≡ some (id, user)
      → c.bcrypt_compare password user.password_hash ≡ true
      → user.is_active ≡ true
      → find_refresh (c.sha256 (generate_refresh_token c id req.uuid)) s.refresh_tokens ≡ none
      → has_key req.token_key s.refresh_tokens ≡ false
      → is_ok (login c (record { email = email; password = password }) req s).0 ≡ true
  unfolding login login_found refuse_login issue_token_pair create_refresh record_audit
  login_succeeds req s id user e same active free unused =
      ground (arith, e, same, active, free, unused)

find_by_email-update :
    (email hash : String) (id : ℕ) (user : User) (t : Table User)
    → IsDistinct t
    → find_by_email email t ≡ some (id, user)
    → find_by_email email (update id (with_password hash) t) ≡ some (id, with_password hash user)
find_by_email-update email hash id user [] distinct h = ground arith
find_by_email-update email hash id user ((j, u) ∷ t) distinct h = ground (
  arith,
  h,
  distinct,
  find_by_email-update email hash id user t,
  has_key_of_find_first (λ _ y. same_text y.email email) t id user,
)

find_refresh-update_many :
    (hash : String) (p : ℕ → RefreshToken → Bool) (now : ℕ) (t : Table RefreshToken)
    → find_refresh hash t ≡ none
    → find_refresh hash (update_many p (revoked now) t) ≡ none
find_refresh-update_many hash p now [] h = refl
find_refresh-update_many hash p now ((j, r) ∷ t) h =
    ground (arith, h, find_refresh-update_many hash p now t)

has_key-update_many :
    (k : ℕ) (p : ℕ → RefreshToken → Bool) (now : ℕ) (t : Table RefreshToken)
    → has_key k t ≡ false
    → has_key k (update_many p (revoked now) t) ≡ false
has_key-update_many k p now [] h = refl
has_key-update_many k p now ((j, r) ∷ t) h = ground (arith, h, has_key-update_many k p now t)

find_reset-create :
    (c : Crypto) (id : ℕ) (req : Request) (t : Table PasswordResetToken)
    → find_reset (c.sha256 req.random_bytes) (create req.token_key (new_reset_token c id req) t)
      ≡ some (req.token_key, new_reset_token c id req)
find_reset-create c id req t = ground (arith, same_text_refl (c.sha256 req.random_bytes))

has_key-create_self :
    (c : Crypto) (id : ℕ) (req : Request) (t : Table PasswordResetToken)
    → has_key req.token_key (create req.token_key (new_reset_token c id req) t) ≡ true
has_key-create_self c id req t = ground arith

module _ (c : Crypto) (email password : String) (asked answered : Request) (s : AuthDb) where
  abbrev pub asked_for : AuthDb
  asked_for = (forgot_password c email asked s).1

  abbrev pub recovered : AuthDb
  recovered = (reset_password c asked.random_bytes password answered asked_for).1

  recovered_tables :
      (id : ℕ) (user : User)
      → find_by_email email s.users ≡ some (id, user)
      → answered.now ≤ asked.now + password_reset_ttl_ms
      → find_reset (c.sha256 asked.random_bytes) s.reset_tokens ≡ none
      → has_key asked.token_key s.reset_tokens ≡ false
      → (recovered.users ≡ update id (with_password (c.bcrypt_hash answered.salt password)) s.users)
        × (recovered.refresh_tokens
            ≡ update_many
                (λ _ t. t.user_id == id && not (is_some t.revoked_at))
                (revoked answered.now)
                s.refresh_tokens)
  recovered_tables id user e soon free unused =
      let asks = forgot_creates c email password asked s id user e free unused in
      let writes =
        reset_writes c email password asked.random_bytes answered asked_for asked.token_key
          (new_reset_token c id asked)
          (ap (find_reset (c.sha256 asked.random_bytes)) asks.2
            ∙ find_reset-create c id asked s.reset_tokens)
          refl soon
          (ap (has_key id) asks.0
            ∙ has_key_of_find_first (λ _ y. same_text y.email email) s.users id user e)
          (ap (has_key asked.token_key) asks.2 ∙ has_key-create_self c id asked s.reset_tokens) in
      (
        writes.0 ∙ ap (update id (with_password (c.bcrypt_hash answered.salt password))) asks.0,
        writes.1
            ∙ ap
                (update_many (λ _ t. t.user_id == id && not (is_some t.revoked_at))
                  (revoked answered.now))
                asks.1,
      )

  -- A user who asks for a reset of the password and uses the token that was mailed within the
  -- hour can log in with the new password, even if the mail server reported an error. It is
  -- assumed that the user is active, that keys of users are distinct, that the random tokens and
  -- the keys of new rows are not in use, and that bcrypt accepts a password against its own hash.
  pub recovery_succeeds :
      (back : Request) (id : ℕ) (user : User)
      → IsDistinct s.users
      → find_by_email email s.users ≡ some (id, user)
      → user.is_active ≡ true
      → answered.now ≤ asked.now + password_reset_ttl_ms
      → find_reset (c.sha256 asked.random_bytes) s.reset_tokens ≡ none
      → has_key asked.token_key s.reset_tokens ≡ false
      → find_refresh (c.sha256 (generate_refresh_token c id back.uuid)) s.refresh_tokens ≡ none
      → has_key back.token_key s.refresh_tokens ≡ false
      → ((salt plain : String) → c.bcrypt_compare plain (c.bcrypt_hash salt plain) ≡ true)
      → is_ok (login c (record { email = email; password = password }) back recovered).0 ≡ true
  recovery_succeeds back id user distinct e active soon free unused fresh vacant accepts =
      let tables = recovered_tables id user e soon free unused in
      login_succeeds c email password back recovered id
        (with_password (c.bcrypt_hash answered.salt password) user)
        (ap (find_by_email email) tables.0
          ∙ find_by_email-update email (c.bcrypt_hash answered.salt password) id user s.users
              distinct e)
        (accepts answered.salt password) active
        (ap (find_refresh (c.sha256 (generate_refresh_token c id back.uuid))) tables.1
          ∙ find_refresh-update_many (c.sha256 (generate_refresh_token c id back.uuid)) _
              answered.now s.refresh_tokens fresh)
        (ap (has_key back.token_key) tables.1
          ∙ has_key-update_many back.token_key _ answered.now s.refresh_tokens vacant)
