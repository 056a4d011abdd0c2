-- ===== src/Auth/Admins.antt =====
-- `ensureCanRemoveFinalAdmin` of backend/src/auth/auth.service.ts, and the two updates of accounts of
-- backend/src/admin/admin.controller.ts that call it. The DTOs have checked the status and the role.
use rolebrief.Common.{
  ℕ, Bool, true, false, not, ◌&&◌, Option, none, some, List, [], ◌∷◌, ◌==◌, leb, keep, length,
  String, if◌then◌else◌, String,
}
use rolebrief.Auth.Types.{
  User, Role, is_admin, UserStatus, is_active, Tables, AuthError, forbidden, missing, Reply, grants,
  denies, find_user, update_user, revoke_where, with_audit,
}
use rolebrief.Auth.Sessions.Revocation.{of_user}
pub mod Remaining

abbrev pub is_active_admin : User → Bool
is_active_admin u = is_admin u.role && is_active u.status

abbrev pub active_admins : List User → List User
active_admins us = keep is_active_admin us

-- `ensureCanRemoveFinalAdmin`: an error, or none.
unfoldable pub ensure_can_remove_final_admin : ℕ → Tables → Option AuthError
ensure_can_remove_final_admin target_id t = elim (find_user target_id t.users) [
  | none ↦ some (missing "No User found")
  | some target ↦
      if is_active_admin target && leb (length (active_admins t.users)) 1
      then some (forbidden "Cannot remove or disable the final active administrator.")
      else none
]

-- The update of the account, the end of its sessions where that is asked for, and the audit event.
abbrev pub change_account :
    ℕ → ℕ → ℕ → (User → User) → Bool → String → String → Tables → Reply Unit × Tables
change_account now actor id f ends reason event t = elim (find_user id t.users) [
  | none ↦ (denies (missing "No User found"), t)
  | some u ↦ (
    grants tt,
    with_audit event true (some actor) (some id) (record t {
      users = update_user id f t.users;
      sessions = if ends then revoke_where (of_user id) now reason t.sessions else t.sessions;
    }),
  )
]

abbrev pub guarded : Option AuthError → Reply Unit × Tables → Tables → Reply Unit × Tables
guarded none change t = change
guarded (some e) change t = (denies e, t)

-- `status`, of the controller.
unfoldable pub update_status : ℕ → ℕ → ℕ → UserStatus → Tables → Reply Unit × Tables
update_status now actor id status t =
    let change =
      change_account now actor id (λ u. record u { status = status }) (not (is_active status))
        "admin_status_change" "admin.user.status" t in
    guarded (if is_active status then none else ensure_can_remove_final_admin id t) change t

-- `role`, of the controller.
unfoldable pub update_role : ℕ → ℕ → ℕ → Role → Tables → Reply Unit × Tables
update_role now actor id role t =
    let change =
      change_account now actor id (λ u. record u { role = role }) true "admin_role_change"
        "admin.user.role" t in
    guarded (if is_admin role then none else ensure_can_remove_final_admin id t) change t

pub data AdminRequest : Type 0 where
  sets_status : ℕ → ℕ → ℕ → UserStatus → AdminRequest
  sets_role : ℕ → ℕ → ℕ → Role → AdminRequest

abbrev pub handle : AdminRequest → Tables → Tables
handle (sets_status now actor id status) t = (update_status now actor id status t).1
handle (sets_role now actor id role) t = (update_role now actor id role t).1

-- The requests, each after the one before it.
unfoldable pub handle_all : List AdminRequest → Tables → Tables
handle_all [] t = t
handle_all (r ∷ rest) t = handle_all rest (handle r t)
