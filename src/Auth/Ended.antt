-- ===== src/Auth/Ended.antt =====
-- What is over after a token is used again, and after a logout
-- (backend/src/auth/auth.service.ts).
use rolebrief.Common.{
  ℕ, true, false, not, Option, some, List, String, str_eq, find, keep, keep-map, is_some,
  if◌then◌else◌, ◌≡◌, refl, ◌&&◌, ap, arith, All-intro, Bool-cases, inl, inr,
}
use rolebrief.Auth.Types.{Session, Tables, in_family, is_live, revoke_where, denies}
use rolebrief.Auth.Sessions.{
  AuthConfig, Client, FreshTokens, begin_refresh, refresh, continue_refresh, required, logout,
  logout_session, can_activate,
}
use rolebrief.Auth.Reuse.{lets_pass, rotates, revoked-AreOver, over-refused, over-kept}

-- The sessions of other families are left as they were.
others_kept :
    (family : String) (now : ℕ) (reason : String) (ss : List Session)
    → keep (λ s. not (in_family family s)) (revoke_where (in_family family) now reason ss)
      ≡ keep (λ s. not (in_family family s)) ss
others_kept family now reason ss = keep-map _ _ ss (All-intro _ ss spared)
  where
    revoked : Session → Session
    revoked s =
        if in_family family s && is_live s
        then record s { revoked_at = some now; revoked_reason = some reason }
        else s

    spared :
        (s : Session)
        → (not (in_family family (revoked s)) ≡ not (in_family family s))
          × (not (in_family family s) ≡ true → revoked s ≡ s)
    spared s = elim (Bool-cases (in_family family s && is_live s)) [
      | inl hit ↦ (rw hit refl, λ h. ground arith)
      | inr miss ↦ (rw miss refl, λ h. rw miss refl)
    ]

module _ (hash_token : String → String) (config : AuthConfig) where
  begin_reused :
      (now : ℕ) (token : String) (existing : Session) (t : Tables)
      → find (λ (s : Session). str_eq s.refresh_token_hash (hash_token token)) t.sessions
        ≡ some existing
      → is_some existing.revoked_at ≡ true
      → begin_refresh hash_token config true now (some token) t ≡ (
        denies required,
        record t {
          sessions =
              revoke_where
                (in_family existing.token_family_id)
                now
                "refresh_reuse_detected"
                t.sessions;
        },
      )
  unfolding begin_refresh
  begin_reused now token existing t found reused = rw (found, reused, begin_refresh) refl

  -- A refresh with a token of a session that is revoked is refused and ends every session of that
  -- session's family: whatever tokens come later, the guard passes none of them and no refresh
  -- rotates one. The sessions of the other families stay as they were.
  pub reuse_ends_family :
      (now later : ℕ) (token : String) (access refresh_token : Option String) (tokens : FreshTokens)
      (client : Client) (existing : Session) (t : Tables)
      → find (λ (s : Session). str_eq s.refresh_token_hash (hash_token token)) t.sessions
        ≡ some existing
      → is_some existing.revoked_at ≡ true
      → ((refresh hash_token config true now (some token) tokens client t).0 ≡ denies required)
        × (lets_pass
              (in_family existing.token_family_id)
              (can_activate hash_token config later access
                (refresh hash_token config true now (some token) tokens client t).1).0
            ≡ false)
        × (rotates
              (in_family existing.token_family_id)
              (begin_refresh hash_token config true later refresh_token
                (refresh hash_token config true now (some token) tokens client t).1).0
            ≡ false)
        × (keep
              (λ s. not (in_family existing.token_family_id s))
              (refresh hash_token config true now (some token) tokens client t).1.sessions
            ≡ keep (λ s. not (in_family existing.token_family_id s)) t.sessions)
  unfolding refresh
  reuse_ends_family now later token access refresh_token tokens client existing t found reused =
      let family = in_family existing.token_family_id in
      let over = revoked-AreOver family family now "refresh_reuse_detected" t.sessions (λ s h. h) in
      let after : Tables = record t {
        sessions = revoke_where family now "refresh_reuse_detected" t.sessions;
      } in
      let same : refresh hash_token config true now (some token) tokens client t
          ≡ (denies required, after) =
        ap (continue_refresh hash_token config now tokens client)
          (begin_reused now token existing t found reused) in
      rw same (
        refl,
        over-refused hash_token config family later access after over,
        over-kept hash_token config family later refresh_token after over,
        others_kept existing.token_family_id now "refresh_reuse_detected" t.sessions,
      )

  -- A logout that finds a session, by either cookie, ends its whole family: whatever tokens come
  -- later, the guard passes none of its sessions and no refresh rotates one. The sessions of the
  -- other families stay as they were.
  pub logout_ends_family :
      (now later : ℕ) (mine yours access refresh_token : Option String) (s : Session) (t : Tables)
      → logout_session hash_token config mine yours t.sessions ≡ some s
      → (lets_pass
            (in_family s.token_family_id)
            (can_activate hash_token config later access
              (logout hash_token config now mine yours t)).0
          ≡ false)
        × (rotates
              (in_family s.token_family_id)
              (begin_refresh hash_token config true later refresh_token
                (logout hash_token config now mine yours t)).0
            ≡ false)
        × (keep
              (λ r. not (in_family s.token_family_id r))
              (logout hash_token config now mine yours t).sessions
            ≡ keep (λ r. not (in_family s.token_family_id r)) t.sessions)
  unfolding logout
  logout_ends_family now later mine yours access refresh_token s t found =
      let family = in_family s.token_family_id in
      let over = revoked-AreOver family family now "logout" t.sessions (λ r h. h) in
      rw (found, logout)
        (
          over-refused hash_token config family later access _ over,
          over-kept hash_token config family later refresh_token _ over,
          others_kept s.token_family_id now "logout" t.sessions,
        )
