-- ===== src/Auth/Reuse.antt =====
-- Sessions that are over: after a token is used again, after a logout
-- (backend/src/auth/auth.service.ts and backend/src/auth/auth.guard.ts).
use rolebrief.Common.{
  ℕ, Bool, true, false, ◌&&◌, ◌||◌, Option, none, some, List, String, str_eq, leb, find, is_some,
  if◌then◌else◌, ◌≡◌, refl, arith, All, All-map, All-find, All-intro, Bool-cases, Option-cases, inl,
  inr,
}
use rolebrief.Auth.Types.{
  User, Session, Tables, is_active, is_live, revoke_where, Reply, grants, denies, find_user,
}
use rolebrief.Auth.Sessions.{AuthConfig, begin_refresh, can_activate}

-- A reply lets pass a session that the test is about.
abbrev pub lets_pass : (Session → Bool) → Reply (Session × User) → Bool
lets_pass p (grants (s, u)) = p s
lets_pass p (denies e) = false

abbrev pub rotates : (Session → Bool) → Reply Session → Bool
rotates p (grants s) = p s
rotates p (denies e) = false

-- No session that the test is about is live.
abbrev pub AreOver : (Session → Bool) → List Session → Type 0
AreOver p ss = All (λ s. p s ≡ true → is_live s ≡ false) ss

pub revoked-AreOver :
    (p q : Session → Bool) (now : ℕ) (reason : String) (ss : List Session)
    → ((s : Session) → q s ≡ true → p s ≡ true)
    → AreOver q (revoke_where p now reason ss)
revoked-AreOver p q now reason ss within =
    All-map (λ (s : Session). Unit {0}) _ _ ss over_row (All-intro _ ss (λ s. tt))
  where
    over_row :
        (s : Session)
        → Unit {0}
        → q (
            if p s && is_live s
            then record s { revoked_at = some now; revoked_reason = some reason }
            else s)
          ≡ true
        → is_live (
            if p s && is_live s
            then record s { revoked_at = some now; revoked_reason = some reason }
            else s)
          ≡ false
    over_row s u h = elim (Bool-cases (is_live s)) [
      | inr dead ↦ elim (Bool-cases (p s)) [
        | inl hit ↦ rw (hit, dead) dead
        | inr miss ↦ rw miss dead
      ]
      | inl live ↦ elim (Bool-cases (p s)) [
        | inl hit ↦ rw (hit, live) refl
        | inr miss ↦ cc (within s (rw miss at h), miss)
      ]
    ]

module _ (hash_token : String → String) (config : AuthConfig) where
  -- The guard passes no session that is over.
  pub over-refused :
      (p : Session → Bool) (later : ℕ) (access : Option String) (t : Tables)
      → AreOver p t.sessions
      → lets_pass p (can_activate hash_token config later access t).0 ≡ false
  unfolding can_activate
  over-refused p later none t over = refl
  over-refused p later (some token) t over =
      let by_hash : Session → Bool = λ s. str_eq s.access_token_hash (hash_token token) in
      elim (Option-cases (find by_hash t.sessions)) [
        | inl missing ↦ rw (missing, can_activate) refl
        | inr (s, found) ↦
            elim (Bool-cases
              ((is_some s.revoked_at || leb s.expires_at later) || leb s.access_expires_at later)) [
                | inl ended ↦ rw (found, ended, can_activate) refl
                | inr current ↦ elim (Option-cases (find_user s.user_id t.users)) [
                  | inl nobody ↦ rw (found, current, nobody, can_activate) refl
                  | inr (u, known) ↦ elim (Bool-cases (is_active u.status)) [
                    | inr idle ↦ rw (found, current, known, idle, can_activate) refl
                    | inl ready ↦
                        rw (found, current, known, ready, can_activate)
                          (not_about s (All-find _ by_hash t.sessions over found) current)
                  ]
                ]
              ]
      ]
    where
      not_about :
          (s : Session)
          → (p s ≡ true → is_live s ≡ false)
          → ((is_some s.revoked_at || leb s.expires_at later) || leb s.access_expires_at later)
            ≡ false
          → p s ≡ false
      not_about s dead current = elim (Bool-cases (p s)) [
        | inr other ↦ other
        | inl about ↦ ground (arith, dead about)
      ]

  -- No session that is over is rotated.
  pub over-kept :
      (p : Session → Bool) (later : ℕ) (token : Option String) (t : Tables)
      → AreOver p t.sessions
      → rotates p (begin_refresh hash_token config true later token t).0 ≡ false
  unfolding begin_refresh
  over-kept p later none t over = refl
  over-kept p later (some token) t over =
      let by_hash : Session → Bool = λ s. str_eq s.refresh_token_hash (hash_token token) in
      elim (Option-cases (find by_hash t.sessions)) [
        | inl missing ↦ rw (missing, begin_refresh) refl
        | inr (s, found) ↦ elim (Bool-cases (is_some s.revoked_at)) [
          | inl ended ↦ rw (found, ended, begin_refresh) refl
          | inr live ↦ elim (Bool-cases (leb s.expires_at later)) [
            | inl late ↦ rw (found, live, late, begin_refresh) refl
            | inr current ↦ elim (Option-cases (find_user s.user_id t.users)) [
              | inl nobody ↦ rw (found, live, current, nobody, begin_refresh) refl
              | inr (u, known) ↦ elim (Bool-cases (is_active u.status)) [
                | inr idle ↦ rw (found, live, current, known, idle, begin_refresh) refl
                | inl ready ↦
                    rw (found, live, current, known, ready, begin_refresh)
                      (not_about s (All-find _ by_hash t.sessions over found) live)
              ]
            ]
          ]
        ]
      ]
    where
      not_about :
          (s : Session)
          → (p s ≡ true → is_live s ≡ false)
          → is_some s.revoked_at ≡ false
          → p s ≡ false
      not_about s dead live = elim (Bool-cases (p s)) [
        | inr other ↦ other
        | inl about ↦ ground (arith, dead about)
      ]
