-- ===== src/Auth/Keeping.antt =====
-- What a login, and the first half of a refresh, do to the families
-- (backend/src/auth/auth.service.ts).
use rolebrief.Common.{
  ℕ, ◌≤◌, ◌<◌, Bool, true, false, ◌&&◌, ◌||◌, Option, none, some, List, map, String, str_eq, leb,
  find, is_some, if◌then◌else◌, ◌≡◌, ◌≢◌, refl, sym, ap, arith, All, All-map_le, All-find,
  Bool-cases, Option-cases, inl, inr,
}
use rolebrief.Common.Keys
use rolebrief.Auth.Types.{
  User, Session, Tables, is_active, is_live, is_disabled, is_locked, find_user, in_family,
}
use rolebrief.Auth.Sessions.{AuthConfig, Client, FreshTokens, create_session, begin_refresh}
use rolebrief.Auth.Login.{login, is_held, normalize_email, record_failed_login}
use rolebrief.Auth.Families.{IsAlone, Fades-IsAlone, revoke-Fades, added-IsAlone}
use rolebrief.Auth.Requests.{World, Flights, after_read}

-- What holds of the world.
abbrev pub IsOrderly : World → Type 0
IsOrderly w = IsAlone w.tables.sessions w.tables.next_id w.flights

abbrev pub Keeps : Tables → Tables → Type 0
Keeps t t' =
    (flights : Flights)
    → IsAlone t.sessions t.next_id flights
    → IsAlone t'.sessions t'.next_id flights

pub revoked-Keeps :
    (p : Session → Bool) (now : ℕ) (reason : String) (t : Tables) (flights : Flights)
    → IsAlone t.sessions t.next_id flights
    → IsAlone
        (map
          (λ s.
            if p s && is_live s
            then record s { revoked_at = some now; revoked_reason = some reason }
            else s)
          t.sessions)
        t.next_id
        flights
revoked-Keeps p now reason t flights =
    Fades-IsAlone _ t.sessions t.next_id flights (revoke-Fades p now reason)

-- Identifiers that are used up elsewhere do no harm.
pub later-IsAlone :
    (ss : List Session) (next after : ℕ) (flights : Flights)
    → next ≤ after
    → IsAlone ss next flights
    → IsAlone ss after flights
later-IsAlone ss next after flights le inv = record {
  fresh = All-map_le _ _ ss (λ (s : Session) (h : s.id < next). omega (arith, h)) inv.fresh;
  apart = inv.apart;
  alone = inv.alone;
  known = All-map_le _ _ flights.waiting (λ (e : Session) h. (omega (arith, h.0), h.1)) inv.known;
  only = inv.only;
  parted = inv.parted;
}

module _ (hash_token to_lower : String → String) (verify : String → String → Bool)
    (hash_password public_id : String → String) (config : AuthConfig) where
  created-Keeps :
      (now user_id : ℕ) (family : String) (tokens : FreshTokens) (client : Client) (t : Tables)
      → All (λ (s : Session). family ≢ s.token_family_id) t.sessions
      → (flights : Flights) → All (λ (s : Session). family ≢ s.token_family_id) flights.checked
      → IsAlone t.sessions t.next_id flights
      → IsAlone
          (create_session hash_token config now user_id family tokens client t).1.sessions
          (create_session hash_token config now user_id family tokens client t).1.next_id
          flights
  unfolding create_session
  created-Keeps now user_id family tokens client t new flights others =
      added-IsAlone _ t.sessions t.next_id flights refl
        (All-map_le _ _ t.sessions (λ (s : Session) other. λ same. elim (other same) [ ]) new)
        others

  pub login-Keeps :
      (admitted : Bool) (now : ℕ) (email password family : String) (tokens : FreshTokens)
      (client : Client) (t : Tables)
      → All (λ (s : Session). family ≢ s.token_family_id) t.sessions
      → (flights : Flights) → All (λ (s : Session). family ≢ s.token_family_id) flights.checked
      → IsAlone t.sessions t.next_id flights
      → let after =
          (login hash_token to_lower verify config admitted now email password family tokens client
            t).1 in
        IsAlone after.sessions after.next_id flights
  unfolding login record_failed_login
  login-Keeps false now email password family tokens client t new flights others inv = inv
  login-Keeps true now email password family tokens client t new flights others inv =
      elim (Option-cases
        (find (λ (u : User). str_eq u.normalized_email (normalize_email to_lower email)) t.users)) [
          | inl missing ↦ rw (missing, login) inv
          | inr (u, found) ↦
              elim (Bool-cases
                (is_disabled u.status || is_locked u.status || is_held now u.locked_until)) [
                  | inl barred ↦ rw (found, barred, login) inv
                  | inr open_account ↦ elim (Bool-cases (is_active u.status)) [
                    | inr unverified ↦ rw (found, open_account, unverified, login) inv
                    | inl ready ↦ elim (Bool-cases (verify u.password_hash password)) [
                      | inr wrong ↦ rw (found, open_account, ready, wrong, login) inv
                      | inl right ↦
                          rw (found, open_account, ready, right, login)
                            (created-Keeps now u.id family tokens client _ new flights others inv)
                    ]
                  ]
                ]
        ]

  pub begin-Keeps :
      (admitted : Bool) (now : ℕ) (token : Option String) (w : World)
      → IsOrderly w
      → IsOrderly (after_read w (begin_refresh hash_token config admitted now token w.tables))
  unfolding begin_refresh
  begin-Keeps admitted now none w inv = inv
  begin-Keeps false now (some token) w inv = inv
  begin-Keeps true now (some token) w inv =
      let t = w.tables in
      let by_hash : Session → Bool = λ s. str_eq s.refresh_token_hash (hash_token token) in
      elim (Option-cases (find by_hash t.sessions)) [
        | inl missing ↦ rw (missing, begin_refresh) inv
        | inr (existing, found) ↦ elim (Bool-cases (is_some existing.revoked_at)) [
          | inl reused ↦
              rw (found, reused, begin_refresh)
                (revoked-Keeps (in_family existing.token_family_id) now "refresh_reuse_detected" t
                  w.flights inv)
          | inr live ↦ elim (Bool-cases (leb existing.expires_at now)) [
            | inl expired ↦ rw (found, live, expired, begin_refresh) inv
            | inr current ↦ elim (Option-cases (find_user existing.user_id t.users)) [
              | inl nobody ↦ rw (found, live, current, nobody, begin_refresh) inv
              | inr (u, known) ↦ elim (Bool-cases (is_active u.status)) [
                | inr idle ↦ rw (found, live, current, known, idle, begin_refresh) inv
                | inl ready ↦
                    rw (found, live, current, known, ready, begin_refresh)
                      (record {
                        fresh = inv.fresh;
                        apart = inv.apart;
                        alone = inv.alone;
                        known = (
                          (
                            All-find _ by_hash t.sessions inv.fresh found,
                            All-map_le _ _ t.sessions
                                (λ (s : Session) (own : existing.id ≡ s.id → s ≡ existing).
                                  λ same. ap (λ (r : Session). r.token_family_id) (own (sym same)))
                                (All-find _ by_hash t.sessions
                                  (Keys.owners (λ (s : Session). s.id) t.sessions inv.apart) found),
                          ),
                          inv.known,
                        );
                        only = inv.only;
                        parted = inv.parted;
                      })
              ]
            ]
          ]
        ]
      ]
