-- ===== src/Auth/Sessions/Revocation.antt =====
-- The other operations of backend/src/auth/auth.service.ts that end sessions. `passwords` (Argon2) and
-- HMAC are parameters. The limiters have let the request pass.
use rolebrief.Common.{
  ℕ, Bool, true, false, not, ◌&&◌, Option, none, some, List, String, str_eq, ◌==◌, find, keep,
  length, if◌then◌else◌,
}
use rolebrief.Auth.Types.{
  Session, Tables, unauthorized, missing, Reply, grants, denies, is_live, in_family, revoke_where,
  find_user, update_user, with_mail, password_changed,
}
use rolebrief.Auth.Sessions.{with_sessions}

abbrev pub of_user : ℕ → Session → Bool
of_user id s = s.user_id == id

abbrev pub find_session : ℕ → List Session → Option Session
find_session id ss = find (λ (s : Session). s.id == id) ss

-- `tokenFamilyId: { not: ... }`; with `undefined` Prisma asks for nothing.
abbrev pub outside : Option Session → Session → Bool
outside none s = true
outside (some current) s = not (in_family current.token_family_id s)

-- The parameters: the test of a password against a hash, and the hash of a new one.
unfoldable pub change_password :
    (String → String → Bool)
    → (String → String)
    → ℕ
    → ℕ
    → ℕ
    → String
    → String
    → Tables
    → Reply Unit × Tables
change_password verify hash now user_id session_id current_password new_password t =
    elim (find_user user_id t.users) [
      | none ↦ (denies (missing "No User found"), t)
      | some existing ↦
          if verify existing.password_hash current_password
          then (
            grants tt,
            with_mail (password_changed existing.id) (record t {
              users =
                  update_user user_id
                    (λ u. record u {
                      password_hash = hash new_password;
                      password_changed_at = some now;
                    })
                    t.users;
              sessions =
                  revoke_where
                    (λ s. of_user user_id s && outside (find_session session_id t.sessions) s) now
                    "password_changed" t.sessions;
            }),
          )
          else (denies (unauthorized "Current password is incorrect."), t)
    ]

-- `revokeSession`: whether the current session was revoked, and the tables after it. `public_id` is
-- `derivePublicSessionId`.
unfoldable pub revoke_session : (String → String) → ℕ → ℕ → ℕ → String → Tables → Bool × Tables
revoke_session public_id now user_id session_id public_session_id t =
    elim (find (λ (s : Session). str_eq (public_id s.token_family_id) public_session_id)
      (keep (λ s. of_user user_id s && is_live s) t.sessions)) [
        | none ↦ (false, t)
        | some target ↦ (
          same_family target.token_family_id (find_session session_id t.sessions),
          with_sessions
              (revoke_where (λ s. of_user user_id s && in_family target.token_family_id s) now
                "user_revoked" t.sessions)
              t,
        )
      ]
  where
    same_family : String → Option Session → Bool
    same_family family none = false
    same_family family (some s) = in_family family s

-- `revokeOtherSessions`: the number of the sessions revoked; no answer where the source throws.
unfoldable pub revoke_other_sessions : ℕ → ℕ → ℕ → Tables → Option ℕ × Tables
revoke_other_sessions now user_id session_id t = elim (find_session session_id t.sessions) [
  | none ↦ (none, t)
  | some current ↦
      let others : Session → Bool =
        λ s. of_user user_id s && not (in_family current.token_family_id s) in
      (
        some (length (keep (λ s. others s && is_live s) t.sessions)),
        with_sessions (revoke_where others now "user_revoked_others" t.sessions) t,
      )
]

-- `logoutAll`
unfoldable pub logout_all : ℕ → ℕ → Tables → Tables
logout_all now user_id t =
    with_sessions (revoke_where (of_user user_id) now "logout_all" t.sessions) t
