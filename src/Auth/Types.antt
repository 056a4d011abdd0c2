-- ===== src/Auth/Types.antt =====
-- The tables behind backend/src/auth/auth.service.ts (backend/prisma/schema.prisma). An instant is in
-- milliseconds; a token of the client is told from the hash that is stored.
use rolebrief.Common.{
  ℕ, ◌+◌, ◌*◌, Bool, true, false, not, ◌&&◌, Option, some, List, ◌∷◌, map, String, str_eq, ◌==◌,
  is_some, find, if◌then◌else◌,
}

pub data Role : Type 0 where
  user admin : Role

pub data UserStatus : Type 0 where
  pending_verification active locked disabled : UserStatus

abbrev pub is_active : UserStatus → Bool
is_active active = true
is_active _ = false

abbrev pub is_disabled : UserStatus → Bool
is_disabled disabled = true
is_disabled _ = false

abbrev pub is_locked : UserStatus → Bool
is_locked locked = true
is_locked _ = false

abbrev pub is_pending_verification : UserStatus → Bool
is_pending_verification pending_verification = true
is_pending_verification _ = false

abbrev pub is_admin : Role → Bool
is_admin admin = true
is_admin user = false

pub record User : Type 0 where
  pub id : ℕ
  pub name : String
  pub email : String
  pub normalized_email : String
  pub password_hash : String
  pub role : Role
  pub status : UserStatus
  pub email_verified_at : Option ℕ
  pub failed_login_attempts : ℕ
  pub locked_until : Option ℕ
  pub password_changed_at : Option ℕ
  pub last_login_at : Option ℕ

pub record Session : Type 0 where
  pub id : ℕ
  pub user_id : ℕ
  pub access_token_hash : String
  pub refresh_token_hash : String
  pub token_family_id : String
  pub expires_at : ℕ
  pub access_expires_at : ℕ
  pub revoked_at : Option ℕ
  pub revoked_reason : Option String
  pub replaced_by_session_id : Option ℕ
  pub last_used_at : ℕ
  pub created_at : ℕ
  pub ip_address : Option String
  pub user_agent : Option String

-- A row of `EmailVerificationToken` or of `PasswordResetToken`.
pub record SingleUseToken : Type 0 where
  pub id : ℕ
  pub user_id : ℕ
  pub token_hash : String
  pub expires_at : ℕ
  pub consumed_at : Option ℕ
  pub created_at : ℕ

-- A row of `AuthAuditEvent`.
pub record AuditEvent : Type 0 where
  pub event_type : String
  pub success : Bool
  pub actor_user_id : Option ℕ
  pub target_user_id : Option ℕ

-- A mail that is handed to the queue.
pub data Mail : Type 0 where
  verification password_reset : ℕ → ℕ → String → Mail
  password_changed : ℕ → Mail

pub record Tables : Type 0 where
  pub users : List User
  pub sessions : List Session
  pub verification_tokens : List SingleUseToken
  pub reset_tokens : List SingleUseToken
  pub audit_events : List AuditEvent
  pub mails : List Mail
  pub next_id : ℕ

pub data AuthError : Type 0 where
  unauthorized bad_request conflict forbidden missing : String → AuthError
  too_many_requests : AuthError

pub data Reply (A : Type 0) : Type 0 where
  grants : A → Reply A
  denies : AuthError → Reply A

abbrev pub is_granted : {A : Type 0} → Reply A → Bool
is_granted (grants a) = true
is_granted (denies e) = false

-- `addSeconds`
abbrev pub add_seconds : ℕ → ℕ → ℕ
add_seconds date seconds = date + seconds * 1000

-- `revokedAt: null`
abbrev pub is_live : Session → Bool
is_live s = not (is_some s.revoked_at)

abbrev pub in_family : String → Session → Bool
in_family family s = str_eq s.token_family_id family

-- `updateMany` of the live sessions that a `where` asks for, by a `revokedAt` and its reason.
abbrev pub revoke_where : (Session → Bool) → ℕ → String → List Session → List Session
revoke_where p now reason ss =
    map
      (λ s.
        if p s && is_live s
        then record s { revoked_at = some now; revoked_reason = some reason }
        else s)
      ss

abbrev pub update_user : ℕ → (User → User) → List User → List User
update_user id f us = map (λ (u : User). if u.id == id then f u else u) us

abbrev pub find_user : ℕ → List User → Option User
find_user id us = find (λ (u : User). u.id == id) us

abbrev pub with_audit : String → Bool → Option ℕ → Option ℕ → Tables → Tables
with_audit event_type success actor target t = record t {
  audit_events =
      record {
        event_type = event_type;
        success = success;
        actor_user_id = actor;
        target_user_id = target;
      }
      ∷ t.audit_events;
}

abbrev pub with_mail : Mail → Tables → Tables
with_mail m t = record t { mails = m ∷ t.mails }
