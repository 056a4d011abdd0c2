-- ===== src/Auth/Others.antt =====
-- What the other requests do to the families
-- (backend/src/auth/auth.service.ts).
use rolebrief.Common.{
  ℕ, ◌*◌, ◌-◌, Bool, true, false, not, ◌&&◌, ◌||◌, Option, none, some, String, str_eq, leb, ltb,
  find, keep, is_some, Bool-cases, Option-cases, inl, inr,
}
use rolebrief.Auth.Types.{
  User, Session, Tables, AuthError, Reply, is_active, is_live, find_user, in_family,
}
use rolebrief.Auth.Sessions.{AuthConfig, logout, logout_session, can_activate}
use rolebrief.Auth.Sessions.Revocation.{
  change_password, revoke_session, revoke_other_sessions, logout_all, of_user, find_session,
}
use rolebrief.Auth.Recovery.{reset_password, find_token}
use rolebrief.Auth.Admins.{
  AdminRequest, sets_status, sets_role, handle, update_status, update_role, change_account, guarded,
}
use rolebrief.Auth.Families.{Fades-IsAlone, touched-Fades}
use rolebrief.Auth.Keeping.{Keeps, revoked-Keeps}

module _ (hash_token to_lower : String → String) (verify : String → String → Bool)
    (hash_password public_id : String → String) (config : AuthConfig) where
  pub logout-Keeps :
      (now : ℕ) (access refresh_token : Option String) (t : Tables)
      → Keeps t (logout hash_token config now access refresh_token t)
  unfolding logout
  logout-Keeps now access refresh_token t flights inv =
      elim (Option-cases (logout_session hash_token config access refresh_token t.sessions)) [
        | inl nothing ↦ rw (nothing, logout) inv
        | inr (s, found) ↦
            rw (found, logout)
              (revoked-Keeps (in_family s.token_family_id) now "logout" t flights inv)
      ]

  pub guard-Keeps :
      (now : ℕ) (access : Option String) (t : Tables)
      → Keeps t (can_activate hash_token config now access t).1
  unfolding can_activate
  guard-Keeps now none t flights inv = inv
  guard-Keeps now (some token) t flights inv =
      elim (Option-cases
        (find (λ (s : Session). str_eq s.access_token_hash (hash_token token)) t.sessions)) [
          | inl missing ↦ rw (missing, can_activate) inv
          | inr (s, found) ↦
              elim (Bool-cases
                ((is_some s.revoked_at || leb s.expires_at now) || leb s.access_expires_at now)) [
                  | inl over ↦ rw (found, over, can_activate) inv
                  | inr current ↦ elim (Option-cases (find_user s.user_id t.users)) [
                    | inl nobody ↦ rw (found, current, nobody, can_activate) inv
                    | inr (u, known) ↦ elim (Bool-cases (is_active u.status)) [
                      | inr idle ↦ rw (found, current, known, idle, can_activate) inv
                      | inl ready ↦
                          elim (Bool-cases (ltb (15 * 60 * 1000) (now - s.last_used_at))) [
                            | inr recent ↦
                                rw (found, current, known, ready, recent, can_activate) inv
                            | inl stale ↦
                                rw (found, current, known, ready, stale, can_activate)
                                  (Fades-IsAlone _ t.sessions t.next_id flights
                                    (touched-Fades s.id now) inv)
                          ]
                    ]
                  ]
                ]
        ]

  pub revoke_session-Keeps :
      (now user_id session_id : ℕ) (public_session_id : String) (t : Tables)
      → Keeps t (revoke_session public_id now user_id session_id public_session_id t).1
  unfolding revoke_session
  revoke_session-Keeps now user_id session_id public_session_id t flights inv =
      elim (Option-cases (
        find (λ (s : Session). str_eq (public_id s.token_family_id) public_session_id)
          (keep (λ s. of_user user_id s && is_live s) t.sessions))) [
            | inl missing ↦ rw (missing, revoke_session) inv
            | inr (s, found) ↦
                rw (found, revoke_session) (revoked-Keeps _ now "user_revoked" t flights inv)
          ]

  pub revoke_others-Keeps :
      (now user_id session_id : ℕ) (t : Tables)
      → Keeps t (revoke_other_sessions now user_id session_id t).1
  unfolding revoke_other_sessions
  revoke_others-Keeps now user_id session_id t flights inv =
      elim (Option-cases (find_session session_id t.sessions)) [
        | inl missing ↦ rw (missing, revoke_other_sessions) inv
        | inr (s, found) ↦
            rw (found, revoke_other_sessions)
              (revoked-Keeps _ now "user_revoked_others" t flights inv)
      ]

  pub change_password-Keeps :
      (now user_id session_id : ℕ) (current_password new_password : String) (t : Tables)
      → Keeps t
          (change_password verify hash_password now user_id session_id current_password new_password
            t).1
  unfolding change_password
  change_password-Keeps now user_id session_id current_password new_password t flights inv =
      elim (Option-cases (find_user user_id t.users)) [
        | inl missing ↦ rw (missing, change_password) inv
        | inr (u, found) ↦ elim (Bool-cases (verify u.password_hash current_password)) [
          | inr wrong ↦ rw (found, wrong, change_password) inv
          | inl right ↦
              rw (found, right, change_password)
                (revoked-Keeps _ now "password_changed" t flights inv)
        ]
      ]

  pub reset_password-Keeps :
      (admitted : Bool) (now : ℕ) (token password : String) (t : Tables)
      → Keeps t (reset_password hash_token to_lower hash_password admitted now token password t).1
  unfolding reset_password
  reset_password-Keeps false now token password t flights inv = inv
  reset_password-Keeps true now token password t flights inv =
      elim (Option-cases (find_token (hash_token token) t.reset_tokens)) [
        | inl missing ↦ rw (missing, reset_password) inv
        | inr (k, found) ↦ elim (Bool-cases (is_some k.consumed_at || leb k.expires_at now)) [
          | inl used ↦ rw (found, used, reset_password) inv
          | inr usable ↦
              rw (found, usable, reset_password)
                (revoked-Keeps (of_user k.user_id) now "password_reset" t flights inv)
        ]
      ]

  pub logout_all-Keeps : (now user_id : ℕ) (t : Tables) → Keeps t (logout_all now user_id t)
  unfolding logout_all
  logout_all-Keeps now user_id t flights =
      revoked-Keeps (of_user user_id) now "logout_all" t flights

  account-Keeps :
      (now actor id : ℕ) (f : User → User) (ends : Bool) (reason event : String) (t : Tables)
      → Keeps t (change_account now actor id f ends reason event t).1
  account-Keeps now actor id f ends reason event t flights inv =
      elim (Option-cases (find_user id t.users)) [
        | inl missing ↦ rw (missing, change_account) inv
        | inr (u, found) ↦ elim (Bool-cases ends) [
          | inr stay ↦ rw (found, stay, change_account) inv
          | inl over ↦
              rw (found, over, change_account) (revoked-Keeps (of_user id) now reason t flights inv)
        ]
      ]

  guarded-Keeps :
      (e : Option AuthError) (change : Reply Unit × Tables) (t : Tables)
      → Keeps t change.1
      → Keeps t (guarded e change t).1
  guarded-Keeps none change t keeps flights inv = keeps flights inv
  guarded-Keeps (some e) change t keeps flights inv = inv

  pub admin-Keeps : (r : AdminRequest) (t : Tables) → Keeps t (handle r t)
  unfolding update_status update_role
  admin-Keeps (sets_status now actor id status) t = guarded-Keeps _ _ t (
      account-Keeps now actor id (λ u. record u { status = status }) (not (is_active status))
        "admin_status_change" "admin.user.status" t)
  admin-Keeps (sets_role now actor id role) t = guarded-Keeps _ _ t (
      account-Keeps now actor id (λ u. record u { role = role }) true "admin_role_change"
        "admin.user.role" t)
