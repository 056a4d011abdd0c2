-- ===== src/Auth/Recovery.antt =====
-- The tokens of mails of backend/src/auth/auth.service.ts: `signup`, `verifyEmail`,
-- `resendVerification`, `forgotPassword` and `resetPassword`. Argon2, SHA-256 and `toLowerCase` are
-- parameters; the time that a new row gets is an argument beside the time that the service reads.
use rolebrief.Common.{
  ℕ, suc, ◌+◌, Bool, true, false, not, ◌&&◌, ◌||◌, Option, none, some, List, [], ◌∷◌, map, String,
  trim, str_eq, ◌==◌, leb, ltb, find, any, is_some, if◌then◌else◌,
}
use rolebrief.Auth.Types.{
  User, user, Tables, UserStatus, pending_verification, active, is_active, is_disabled,
  is_pending_verification, SingleUseToken, AuthError, bad_request, conflict, too_many_requests,
  Reply, grants, denies, add_seconds, find_user, update_user, revoke_where, with_audit, with_mail,
  verification, password_reset, password_changed,
}
use rolebrief.Auth.Sessions.Revocation.{of_user}
use rolebrief.Auth.Login.{normalize_email}
pub mod Reset

abbrev pub is_open : SingleUseToken → Bool
is_open k = not (is_some k.consumed_at)

-- `updateMany` of a user's open tokens from before the time.
abbrev pub consume_older : ℕ → ℕ → List SingleUseToken → List SingleUseToken
consume_older now user_id ks =
    map
      (λ (k : SingleUseToken).
        if (k.user_id == user_id && is_open k) && ltb k.created_at now
        then record k { consumed_at = some now }
        else k)
      ks

abbrev pub consume_token : ℕ → ℕ → List SingleUseToken → List SingleUseToken
consume_token now id ks =
    map (λ (k : SingleUseToken). if k.id == id then record k { consumed_at = some now } else k) ks

abbrev pub find_token : String → List SingleUseToken → Option SingleUseToken
find_token hash ks = find (λ (k : SingleUseToken). str_eq k.token_hash hash) ks

abbrev pub new_token : ℕ → ℕ → String → ℕ → ℕ → SingleUseToken
new_token id user_id hash expires_at stored = record {
  id = id;
  user_id = user_id;
  token_hash = hash;
  expires_at = expires_at;
  consumed_at = none;
  created_at = stored;
}

abbrev pub recovery_response : String
recovery_response = "If the account can be recovered, instructions will be sent."

abbrev pub invalid_reset : AuthError
invalid_reset = bad_request "Reset link is invalid or expired."

-- The update of `resetPassword` on the account.
abbrev pub with_new_password : ℕ → String → User → User
with_new_password now hash u = record u {
  password_hash = hash;
  password_changed_at = some now;
  failed_login_attempts = 0;
  locked_until = none;
  status = active;
}

module _ (hash_token to_lower hash_password : String → String) where
  -- `createEmailVerificationToken`, valid for a day.
  unfoldable pub create_email_verification_token : ℕ → ℕ → ℕ → String → Tables → ℕ × Tables
  create_email_verification_token now stored user_id token t = (
    t.next_id,
    record t {
      verification_tokens = consume_older now user_id (
          new_token t.next_id user_id (hash_token token) (add_seconds now 86400) stored
          ∷ t.verification_tokens);
      next_id = suc t.next_id;
    },
  )

  -- `createPasswordResetToken`, valid for half an hour.
  unfoldable pub create_password_reset_token : ℕ → ℕ → ℕ → String → Tables → ℕ × Tables
  create_password_reset_token now stored user_id token t = (
    t.next_id,
    record t {
      reset_tokens = consume_older now user_id (
          new_token t.next_id user_id (hash_token token) (add_seconds now 1800) stored
          ∷ t.reset_tokens);
      next_id = suc t.next_id;
    },
  )

  -- `signup`
  unfoldable pub signup :
      Bool → ℕ → ℕ → String → String → String → String → Tables → Reply String × Tables
  signup admitted now stored name email password token t =
      let normalized = normalize_email to_lower email in
      let id = t.next_id in
      let row : User = record {
        id = id;
        name = trim name;
        email = email;
        normalized_email = normalized;
        password_hash = hash_password password;
        role = user;
        status = pending_verification;
        email_verified_at = none;
        failed_login_attempts = 0;
        locked_until = none;
        password_changed_at = none;
        last_login_at = none;
      } in
      let (token_id, t') =
        create_email_verification_token now stored id token
          (record t { users = row ∷ t.users; next_id = suc id }) in
      if not admitted
      then (denies too_many_requests, t)
      else if any (λ (u : User). str_eq u.email email || str_eq u.normalized_email normalized)
          t.users
      then (denies (conflict "An account with this email already exists."), t)
      else (
        grants "Check your email to verify your account.",
        with_audit "signup" true none (some id) (with_mail (verification id token_id token) t'),
      )

  -- `verifyEmail`
  unfoldable pub verify_email : Bool → ℕ → String → Tables → Reply String × Tables
  verify_email admitted now token t =
      if admitted
      then (elim (find_token (hash_token token) t.verification_tokens) [
        | none ↦ (denies (bad_request "Verification link is invalid or expired."), t)
        | some k ↦ elim (find_user k.user_id t.users) [
          | none ↦ (denies (bad_request "Verification link is invalid or expired."), t)
          | some u ↦
              if is_some k.consumed_at || is_active u.status
              then (grants "Email is already verified. You can log in.", t)
              else if leb k.expires_at now
              then (
                denies (bad_request "Verification link has expired. Please request a new one."),
                t,
              )
              else (
                grants "Email verified. You can now log in.",
                with_audit "email.verified" true none (some k.user_id) (record t {
                  verification_tokens = consume_token now k.id t.verification_tokens;
                  users =
                      update_user k.user_id
                        (λ v. record v { status = active; email_verified_at = some now }) t.users;
                }),
              )
        ]
      ])
      else (denies too_many_requests, t)

  abbrev pub find_by_email : String → Tables → Option User
  find_by_email email t =
      find (λ (u : User). str_eq u.normalized_email (normalize_email to_lower email)) t.users

  -- `resendVerification`
  unfoldable pub resend_verification :
      Bool → ℕ → ℕ → String → String → Tables → Reply String × Tables
  resend_verification false now stored email token t = (denies too_many_requests, t)
  resend_verification true now stored email token t = elim (find_by_email email t) [
    | none ↦ (grants recovery_response, t)
    | some u ↦
        let (id, t') = create_email_verification_token now stored u.id token t in
        if is_pending_verification u.status
        then (grants recovery_response, with_mail (verification u.id id token) t')
        else (grants recovery_response, t)
  ]

  -- `forgotPassword`
  unfoldable pub forgot_password : Bool → ℕ → ℕ → String → String → Tables → Reply String × Tables
  forgot_password false now stored email token t = (denies too_many_requests, t)
  forgot_password true now stored email token t = elim (find_by_email email t) [
    | none ↦ (grants recovery_response, t)
    | some u ↦
        let (id, t') = create_password_reset_token now stored u.id token t in
        if is_disabled u.status
        then (grants recovery_response, t)
        else (grants recovery_response, with_mail (password_reset u.id id token) t')
  ]

  -- `resetPassword`
  unfoldable pub reset_password : Bool → ℕ → String → String → Tables → Reply String × Tables
  reset_password admitted now token password t =
      if admitted
      then (elim (find_token (hash_token token) t.reset_tokens) [
        | none ↦ (denies invalid_reset, t)
        | some k ↦
            if is_some k.consumed_at || leb k.expires_at now then (denies invalid_reset, t) else (
              grants "Password updated. Please log in again.",
              with_mail (password_changed k.user_id) (record t {
                reset_tokens = consume_token now k.id t.reset_tokens;
                users =
                    update_user k.user_id (with_new_password now (hash_password password)) t.users;
                sessions = revoke_where (of_user k.user_id) now "password_reset" t.sessions;
              }),
            )
      ])
      else (denies too_many_requests, t)
