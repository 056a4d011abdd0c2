-- ===== src/Auth/Login/Lockout.antt =====
-- Wrong passwords, and the right one after them (`login` and `recordFailedLogin` of
-- backend/src/auth/auth.service.ts).
use rolebrief.Common.{
  ℕ, suc, ◌+◌, ◌≤◌, ◌<◌, Bool, true, false, ◌||◌, none, some, List, [], ◌∷◌, String, str_eq, ◌==◌,
  ==_refl, leb, ltb, lt→ltb, find, find-map, length, if◌then◌else◌, ◌≡◌, refl, sym, ap, ◌∙◌, subst,
  arith, All, Bool-cases, inl, inr, ◌⊎◌,
}
use rolebrief.Auth.Types.{
  User, Tables, active, locked, is_active, is_disabled, is_locked, Reply, is_granted,
}
use rolebrief.Auth.Sessions.{AuthConfig, AuthCookies, Client, FreshTokens}
use rolebrief.Auth.Login.{login, failed_login, record_failed_login, is_held, normalize_email}

module _ (hash_token to_lower : String → String) (verify : String → String → Bool)
    (config : AuthConfig) (email family : String) (tokens : FreshTokens) (client : Client) where
  abbrev pub log_in : ℕ → String → Tables → Reply AuthCookies × Tables
  log_in now password t =
      login hash_token to_lower verify config true now email password family tokens client t

  -- Attempts at times, with passwords, one after the other.
  unfoldable pub log_in_repeatedly : List (ℕ × String) → Tables → Tables
  log_in_repeatedly [] t = t
  log_in_repeatedly ((now, password) ∷ rest) t = log_in_repeatedly rest (log_in now password t).1

  abbrev pub by_email : User → Bool
  by_email u = str_eq u.normalized_email (normalize_email to_lower email)

  -- The account after so many wrong passwords in a row.
  abbrev pub IsTried : String → ℕ → User → Type 0
  IsTried hash k u =
      (u.password_hash ≡ hash)
      × (((k < 8) × (u.failed_login_attempts ≡ k) × (u.locked_until ≡ none) × (u.status ≡ active))
          ⊎ ((8 ≤ k) × (u.status ≡ locked)))

  open_for :
      (now : ℕ) (u : User)
      → u.locked_until ≡ none
      → u.status ≡ active
      → (is_disabled u.status || is_locked u.status || is_held now u.locked_until) ≡ false
  open_for now u free ready = rw (ready, free) refl

  shut_for :
      (now : ℕ) (u : User)
      → u.status ≡ locked
      → (is_disabled u.status || is_locked u.status || is_held now u.locked_until) ≡ true
  shut_for now u shut = rw shut refl

  failed-IsTried :
      (now k : ℕ) (hash : String) (u : User)
      → u.password_hash ≡ hash
      → k < 8
      → u.failed_login_attempts ≡ k
      → u.status ≡ active
      → IsTried hash (suc k) (failed_login now u u)
  failed-IsTried now k hash u same few count ready =
      elim (Bool-cases (leb 8 (suc u.failed_login_attempts))) [
        | inl full ↦ (same, inr (ground (arith, count), rw full refl))
        | inr more ↦ (same, inl (ground (arith, count), ap suc count, rw more refl, rw more ready))
      ]

  rejected :
      (now : ℕ) (password : String) (u : User) (t : Tables)
      → find by_email t.users ≡ some u
      → (is_disabled u.status || is_locked u.status || is_held now u.locked_until) ≡ false
      → is_active u.status ≡ true
      → verify u.password_hash password ≡ false
      → find by_email (log_in now password t).1.users ≡ some (failed_login now u u)
  unfolding login record_failed_login
  rejected now password u t found unbarred ready wrong =
      rw (found, unbarred, ready, wrong, login)
        (find-map by_email (λ (w : User). if w.id == u.id then failed_login now u w else w) t.users
            {x = u} (λ (w : User). ground arith) found
          ∙ ap (λ b. some (if b then failed_login now u u else u)) (==_refl u.id))

  log_in-IsTried :
      (now k : ℕ) (password hash : String) (u : User) (t : Tables)
      → find by_email t.users ≡ some u
      → IsTried hash k u
      → verify hash password ≡ false
      → (v : User) × (find by_email (log_in now password t).1.users ≡ some v)
        × IsTried hash (suc k) v
  unfolding login
  log_in-IsTried now k password hash u t found (same, inr (many, shut)) wrong =
      (u, rw (found, shut_for now u shut, login) found, (same, inr (omega (arith, many), shut)))
  log_in-IsTried now k password hash u t found (same, inl (few, count, free, ready)) wrong = (
    failed_login now u u,
    rejected now password u t found (open_for now u free ready)
        (subst (λ x. is_active x ≡ true) (sym ready) refl)
        (subst (λ x. verify x password ≡ false) (sym same) wrong),
    failed-IsTried now k hash u same few count ready,
  )

  IsTried-after :
      (k : ℕ) (hash : String) (attempts : List (ℕ × String)) (u : User) (t : Tables)
      → find by_email t.users ≡ some u
      → IsTried hash k u
      → All (λ (a : ℕ × String). verify hash a.1 ≡ false) attempts
      → (v : User) × (find by_email (log_in_repeatedly attempts t).users ≡ some v)
        × IsTried hash (k + length attempts) v
  unfolding log_in_repeatedly
  IsTried-after k hash [] u t found tried wrong =
      (u, found, subst (λ n. IsTried hash n u) (omega arith) tried)
  IsTried-after k hash ((now, password) ∷ rest) u t found tried wrong =
      let (v, there, more) = log_in-IsTried now k password hash u t found tried wrong.0 in
      let (w, last, all) =
        IsTried-after (suc k) hash rest v (log_in now password t).1 there more wrong.1 in
      (w, last, subst (λ n. IsTried hash n w) (omega arith) all)

  right_after :
      (now k : ℕ) (password hash : String) (u : User) (t : Tables)
      → find by_email t.users ≡ some u
      → IsTried hash k u
      → verify hash password ≡ true
      → is_granted (log_in now password t).0 ≡ ltb k 8
  unfolding login
  right_after now k password hash u t found (same, inr (many, shut)) right =
      rw (found, shut_for now u shut, login) (ground arith)
  right_after now k password hash u t found (same, inl (few, count, free, ready)) right =
      rw (found, open_for now u free ready, login) (rw (ready, same, right) (sym (lt→ltb k 8 few)))

  -- An active account without failed logins, found by its address, takes the right password after a
  -- row of wrong ones exactly if those are fewer than eight; at whatever times they come, and however
  -- long after them it is.
  pub locked_after_eight :
      (now : ℕ) (password : String) (attempts : List (ℕ × String)) (u : User) (t : Tables)
      → find by_email t.users ≡ some u
      → u.status ≡ active
      → u.failed_login_attempts ≡ 0
      → u.locked_until ≡ none
      → All (λ (a : ℕ × String). verify u.password_hash a.1 ≡ false) attempts
      → verify u.password_hash password ≡ true
      → is_granted (log_in now password (log_in_repeatedly attempts t)).0 ≡ ltb (length attempts) 8
  locked_after_eight now password attempts u t found ready zero_failed free wrong right =
      let (v, there, tried) =
        IsTried-after 0 u.password_hash attempts u t found
          (refl, inl (omega arith, zero_failed, free, ready)) wrong in
      right_after now (length attempts) password u.password_hash v (log_in_repeatedly attempts t)
        there (subst (λ n. IsTried u.password_hash n v) (omega arith) tried) right
