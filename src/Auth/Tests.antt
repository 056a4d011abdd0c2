-- ===== src/Auth/Tests.antt =====
-- Examples of accounts and sessions (backend/src/auth/auth.service.ts).
use rolebrief.Common.{
  ℕ, trim, true, false, not, Option, none, some, List, [], ◌∷◌, String, str_eq, ltb, keep, length,
  ◌≡◌, refl,
}
use rolebrief.Auth.Types.{
  User, Role, user, active, Session, SingleUseToken, Tables, denies, is_granted, in_family,
}
use rolebrief.Auth.Sessions.{
  AuthConfig, Client, FreshTokens, begin_refresh, refresh, logout, logout_session, can_activate,
  required,
}
use rolebrief.Auth.Login.Lockout.{log_in, log_in_repeatedly, locked_after_eight}
use rolebrief.Auth.Reuse.{lets_pass, rotates}
use rolebrief.Auth.Ended.{reuse_ends_family, logout_ends_family}

abbrev pub plain : String → String
plain s = s

abbrev pub account : ℕ → Role → User
account id role = record {
  id = id;
  name = "Ada";
  email = "ada@example.org";
  normalized_email = "ada@example.org";
  password_hash = "secret";
  role = role;
  status = active;
  email_verified_at = none;
  failed_login_attempts = 0;
  locked_until = none;
  password_changed_at = none;
  last_login_at = none;
}

abbrev session : ℕ → String → String → Option ℕ → Session
session id token family revoked_at = record {
  id = id;
  user_id = 1;
  access_token_hash = token;
  refresh_token_hash = token;
  token_family_id = family;
  expires_at = 1000000;
  access_expires_at = 1000;
  revoked_at = revoked_at;
  revoked_reason = none;
  replaced_by_session_id = none;
  last_used_at = 0;
  created_at = 0;
  ip_address = none;
  user_agent = none;
}

-- The first session was rotated to the second; the third is that of another device.
abbrev pub old_session : Session
old_session = session 1 "old" "laptop" (some 5)

abbrev pub laptop : Session
laptop = session 2 "new" "laptop" none

abbrev pub phone : Session
phone = session 3 "other" "phone" none

abbrev reset_token : SingleUseToken
reset_token = record {
  id = 4;
  user_id = 1;
  token_hash = "reset";
  expires_at = 100;
  consumed_at = none;
  created_at = 0;
}

abbrev pub tables : Tables
tables = record {
  users = account 1 user ∷ [];
  sessions = old_session ∷ laptop ∷ phone ∷ [];
  verification_tokens = [];
  reset_tokens = reset_token ∷ [];
  audit_events = [];
  mails = [];
  next_id = 5;
}

abbrev pub config : AuthConfig
config = record { access_token_ttl_seconds = 900; refresh_session_ttl_seconds = 86400 }

abbrev pub client : Client
client = record { ip_address = none; user_agent = none }

abbrev pub tokens : FreshTokens
tokens = record { access_token = "a"; refresh_token = "r"; csrf = "c" }

-- Before the old token comes again, the guard passes the session that replaced its own.
laptop_passes :
    lets_pass (in_family "laptop") (can_activate plain config 10 (some "new") tables).0 ≡ true
unfolding can_activate
laptop_passes = refl

reuse_ends_family_example :
    ((refresh plain config true 10 (some "old") tokens client tables).0 ≡ denies required)
    × (lets_pass
          (in_family "laptop")
          (can_activate plain config 11
            (some "new")
            (refresh plain config true 10 (some "old") tokens client tables).1).0
        ≡ false)
    × (rotates
          (in_family "laptop")
          (begin_refresh plain config true 11
            (some "new")
            (refresh plain config true 10 (some "old") tokens client tables).1).0
        ≡ false)
    × (keep
          (λ s. not (in_family "laptop" s))
          (refresh plain config true 10 (some "old") tokens client tables).1.sessions
        ≡ keep (λ s. not (in_family "laptop" s)) tables.sessions)
reuse_ends_family_example =
    reuse_ends_family plain config 10 11 "old" (some "new") (some "new") tokens client old_session
      tables refl refl

logout_ends_family_example :
    (lets_pass
        (in_family "laptop")
        (can_activate plain config 11
          (some "new")
          (logout plain config 10 none (some "new") tables)).0
      ≡ false)
    × (rotates
          (in_family "laptop")
          (begin_refresh plain config true 11
            (some "new")
            (logout plain config 10 none (some "new") tables)).0
        ≡ false)
    × (keep
          (λ s. not (in_family "laptop" s))
          (logout plain config 10 none (some "new") tables).sessions
        ≡ keep (λ s. not (in_family "laptop" s)) tables.sessions)
unfolding logout_session
logout_ends_family_example =
    logout_ends_family plain config 10 11 none (some "new") (some "new") (some "new") laptop tables
      refl

abbrev guesses : List (ℕ × String)
guesses = (1, "guess") ∷ (2, "Secret") ∷ []

locked_after_eight_example :
    is_granted
      (log_in plain plain str_eq config "ada@example.org" "tablet" tokens client 3 "secret" (
        log_in_repeatedly plain plain str_eq config "ada@example.org" "tablet" tokens client guesses
          tables)).0
    ≡ ltb (length guesses) 8
unfolding trim
locked_after_eight_example =
    locked_after_eight plain plain str_eq config "ada@example.org" "tablet" tokens client 3 "secret"
      guesses (account 1 user) tables refl refl refl refl (refl, (refl, tt)) refl
