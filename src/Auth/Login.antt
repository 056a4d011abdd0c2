-- ===== src/Auth/Login.antt =====
-- `signup`, `login` and `recordFailedLogin` of backend/src/auth/auth.service.ts. `passwords` (Argon2),
-- SHA-256 and `toLowerCase` are parameters.
use rolebrief.Common.{
  ℕ, suc, ◌+◌, Bool, true, false, not, ◌||◌, Option, none, some, List, [], ◌∷◌, map, String, trim,
  str_eq, ◌==◌, leb, ltb, find, any, if◌then◌else◌,
}
use rolebrief.Auth.Types.{
  User, user, Tables, UserStatus, pending_verification, locked, is_active, is_disabled, is_locked,
  AuthError, unauthorized, too_many_requests, Reply, grants, denies, add_seconds, find_user,
  update_user, with_audit,
}
use rolebrief.Auth.Sessions.{AuthConfig, Client, FreshTokens, AuthCookies, create_session}
pub mod Lockout

abbrev pub invalid : AuthError
invalid = unauthorized "Invalid email or password."

-- `user.lockedUntil && user.lockedUntil > new Date()`
abbrev pub is_held : ℕ → Option ℕ → Bool
is_held now none = false
is_held now (some until) = ltb now until

-- The update of `recordFailedLogin`, from the row that was read.
abbrev pub failed_login : ℕ → User → User → User
failed_login now read u =
    let attempts = suc read.failed_login_attempts in
    record u {
      failed_login_attempts = attempts;
      locked_until = if leb 8 attempts then some (add_seconds now 900) else none;
      status = if leb 8 attempts then locked else read.status;
    }

unfoldable pub record_failed_login : ℕ → User → Tables → Tables
record_failed_login now read t = record t {
  users = update_user read.id (failed_login now read) t.users;
}

abbrev pub succeeded_login : ℕ → User → User
succeeded_login now u = record u {
  failed_login_attempts = 0;
  locked_until = none;
  last_login_at = some now;
}

-- `normalizeEmail`
abbrev pub normalize_email : (String → String) → String → String
normalize_email to_lower email = to_lower (trim email)

module _ (hash_token to_lower : String → String) (verify : String → String → Bool)
    (config : AuthConfig) where
  -- `login`, with the family that `randomUUID` gives a new session.
  unfoldable pub login :
      Bool
      → ℕ
      → String
      → String
      → String
      → FreshTokens
      → Client
      → Tables
      → Reply AuthCookies × Tables
  login admitted now email password family tokens client t =
      if admitted
      then (elim (find (λ (u : User). str_eq u.normalized_email (normalize_email to_lower email))
          t.users) [
            | none ↦ (denies invalid, t)
            | some u ↦
                if is_disabled u.status || is_locked u.status || is_held now u.locked_until
                then (denies invalid, t)
                else if not (is_active u.status)
                then (denies (unauthorized "Email verification required."), t)
                else if not (verify u.password_hash password)
                then (
                  denies invalid,
                  with_audit "login.failed" false none (some u.id) (record_failed_login now u t),
                )
                else (let (cookies, t') =
                      create_session hash_token config now u.id family tokens client
                        (record t { users = update_user u.id (succeeded_login now) t.users }) in
                    (grants cookies, with_audit "login.success" true (some u.id) (some u.id) t'))
          ])
      else (denies too_many_requests, t)
