-- ===== src/Auth/Sessions.antt =====
-- The sessions of backend/src/auth/auth.service.ts and the guard of backend/src/auth/auth.guard.ts.
-- SHA-256 and HMAC are parameters; random tokens are arguments; cookies are the answer, and
-- an empty one is none. The limiter
-- of the requests is `RateLimit`; here it has let the request pass, or not. A transaction is a step.
use rolebrief.Common.{
  ℕ, suc, ◌+◌, ◌-◌, ◌*◌, Bool, true, false, not, ◌&&◌, ◌||◌, Option, none, some, List, [], ◌∷◌, map,
  String, str_eq, ◌==◌, is_some, find, keep, any, length, leb, ltb, if◌then◌else◌,
}
use rolebrief.Auth.Types.{
  User, Session, Tables, UserStatus, is_active, AuthError, unauthorized, bad_request,
  too_many_requests, Reply, grants, denies, add_seconds, is_live, in_family, revoke_where,
  find_user, update_user, with_audit, with_mail, password_changed,
}
pub mod Revocation

pub record AuthConfig : Type 0 where
  pub access_token_ttl_seconds : ℕ
  pub refresh_session_ttl_seconds : ℕ

-- `ipAddress` and `userAgent`, cut to their columns.
pub record Client : Type 0 where
  pub ip_address : Option String
  pub user_agent : Option String

-- The random tokens of one request.
pub record FreshTokens : Type 0 where
  pub access_token : String
  pub refresh_token : String
  pub csrf : String

pub record AuthCookies : Type 0 where
  pub user_id : ℕ
  pub session_id : ℕ
  pub tokens : FreshTokens

abbrev pub required : AuthError
required = unauthorized "Authentication required."

abbrev pub with_sessions : List Session → Tables → Tables
with_sessions ss t = record t { sessions = ss }

module _ (hash_token : String → String) (config : AuthConfig) where
  -- The row that `createSession` and the transaction of `refresh` create.
  abbrev pub new_session : ℕ → ℕ → ℕ → String → ℕ → FreshTokens → Client → Session
  new_session id now user_id family expires_at tokens client = record {
    id = id;
    user_id = user_id;
    access_token_hash = hash_token tokens.access_token;
    refresh_token_hash = hash_token tokens.refresh_token;
    token_family_id = family;
    expires_at = expires_at;
    access_expires_at = add_seconds now config.access_token_ttl_seconds;
    revoked_at = none;
    revoked_reason = none;
    replaced_by_session_id = none;
    last_used_at = now;
    created_at = now;
    ip_address = client.ip_address;
    user_agent = client.user_agent;
  }

  -- `createSession`
  unfoldable pub create_session :
      ℕ → ℕ → String → FreshTokens → Client → Tables → AuthCookies × Tables
  create_session now user_id family tokens client t = (
    record { user_id = user_id; session_id = t.next_id; tokens = tokens },
    record t {
      sessions =
          new_session t.next_id now user_id family
            (add_seconds now config.refresh_session_ttl_seconds) tokens client
          ∷ t.sessions;
      next_id = suc t.next_id;
    },
  )

  -- `refresh`, to where its transaction begins: the session that may be rotated.
  unfoldable pub begin_refresh : Bool → ℕ → Option String → Tables → Reply Session × Tables
  begin_refresh admitted now none t = (denies (if admitted then required else too_many_requests), t)
  begin_refresh admitted now (some token) t =
      if admitted
      then (elim (find (λ (s : Session). str_eq s.refresh_token_hash (hash_token token))
          t.sessions) [
            | none ↦ (denies required, t)
            | some existing ↦
                if is_some existing.revoked_at
                then (
                  denies required,
                  with_sessions
                      (revoke_where (in_family existing.token_family_id) now
                        "refresh_reuse_detected" t.sessions)
                      t,
                )
                else if leb existing.expires_at now
                then (denies required, t)
                else (elim (find_user existing.user_id t.users) [
                  | none ↦ (denies required, t)
                  | some u ↦ (if is_active u.status then grants existing else denies required, t)
                ])
          ])
      else (denies too_many_requests, t)

  -- The update of the transaction on the session that it replaces.
  abbrev pub rotated : ℕ → ℕ → ℕ → Session → Session
  rotated now id next s =
      if s.id == id
      then record s {
        revoked_at = some now;
        revoked_reason = some "rotated";
        replaced_by_session_id = some next;
        last_used_at = now;
      }
      else s

  -- The read of the transaction of `refresh`, and its test: the session that was read before the
  -- transaction is still there and not revoked.
  unfoldable pub check_refresh : Session → Tables → Bool
  check_refresh existing t = elim (find (λ (s : Session). s.id == existing.id) t.sessions) [
    | none ↦ false
    | some current ↦ not (is_some current.revoked_at)
  ]

  -- The writes of the transaction, which name the replaced session by its identifier only. Its row is
  -- there, since no session is ever deleted.
  unfoldable pub rotate_session :
      ℕ → Session → FreshTokens → Client → Tables → Reply AuthCookies × Tables
  rotate_session now existing tokens client t = (
    grants (record { user_id = existing.user_id; session_id = t.next_id; tokens = tokens }),
    record t {
      sessions =
          new_session t.next_id now existing.user_id existing.token_family_id existing.expires_at
            tokens client
          ∷ map (rotated now existing.id t.next_id) t.sessions;
      next_id = suc t.next_id;
    },
  )

  -- The transaction of `refresh` where nobody writes between its read and its writes, for a session
  -- that was read before it, at the time read before it.
  unfoldable pub finish_refresh :
      ℕ → Session → FreshTokens → Client → Tables → Reply AuthCookies × Tables
  finish_refresh now existing tokens client t =
      if check_refresh existing t
      then rotate_session now existing tokens client t
      else (denies required, t)

  -- `refresh`, from its beginning on.
  abbrev pub continue_refresh :
      ℕ → FreshTokens → Client → Reply Session × Tables → Reply AuthCookies × Tables
  continue_refresh now tokens client (denies e, t) = (denies e, t)
  continue_refresh now tokens client (grants existing, t) =
      finish_refresh now existing tokens client t

  -- `refresh`
  unfoldable pub refresh :
      Bool → ℕ → Option String → FreshTokens → Client → Tables → Reply AuthCookies × Tables
  refresh admitted now token tokens client t =
      continue_refresh now tokens client (begin_refresh admitted now token t)

  -- The session that `logout` finds: by the access token, else by the refresh token.
  unfoldable pub logout_session : Option String → Option String → List Session → Option Session
  logout_session access refresh_token ss = elim (by_access access) [
    | some s ↦ some s
    | none ↦ by_refresh refresh_token
  ]
    where
      by_access : Option String → Option Session
      by_access none = none
      by_access (some token) =
          find (λ (s : Session). str_eq s.access_token_hash (hash_token token)) ss

      by_refresh : Option String → Option Session
      by_refresh none = none
      by_refresh (some token) =
          find (λ (s : Session). str_eq s.refresh_token_hash (hash_token token)) ss

  -- `logout`; the cookies are cleared in every case.
  unfoldable pub logout : ℕ → Option String → Option String → Tables → Tables
  logout now access refresh_token t = elim (logout_session access refresh_token t.sessions) [
    | none ↦ t
    | some s ↦
        with_audit "logout" true (some s.user_id) (some s.user_id)
          (with_sessions (revoke_where (in_family s.token_family_id) now "logout" t.sessions) t)
  ]

  -- The session and the user that the guard of the requests lets pass, and the table, where the
  -- session's last use is noted, at most once in 15 minutes.
  unfoldable pub can_activate : ℕ → Option String → Tables → Reply (Session × User) × Tables
  can_activate now none t = (denies required, t)
  can_activate now (some token) t =
      elim (find (λ (s : Session). str_eq s.access_token_hash (hash_token token)) t.sessions) [
        | none ↦ (denies required, t)
        | some s ↦
            if (is_some s.revoked_at || leb s.expires_at now) || leb s.access_expires_at now
            then (denies required, t)
            else (elim (find_user s.user_id t.users) [
              | none ↦ (denies required, t)
              | some u ↦
                  if is_active u.status
                  then (
                    grants (s, u),
                    if ltb (15 * 60 * 1000) (now - s.last_used_at)
                        then with_sessions
                            (map
                              (λ (r : Session).
                                if r.id == s.id then record r { last_used_at = now } else r)
                              t.sessions)
                            t
                        else t,
                  )
                  else (denies (unauthorized "Account is not active."), t)
            ])
      ]
