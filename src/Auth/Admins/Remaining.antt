-- ===== src/Auth/Admins/Remaining.antt =====
-- An active administrator remains (backend/src/admin/admin.controller.ts).
use rolebrief.Common.{
  String, ℕ, suc, ◌≤◌, Bool, true, false, not, none, some, some-injective, List, [], ◌∷◌, ◌==◌,
  ==_iff, leb, length, if◌then◌else◌, ◌≡◌, ◌≢◌, refl, sym, ap, ◌∙◌, subst, arith, All, Pairs,
  Pairs-map, Bool-cases, Option-cases, inl, inr,
}
use rolebrief.Auth.Types.{User, is_admin, is_active, Tables, find_user, update_user}
use rolebrief.Auth.Admins.{
  is_active_admin, active_admins, ensure_can_remove_final_admin, change_account, update_status,
  update_role, AdminRequest, sets_status, sets_role, handle, handle_all,
}

abbrev pub Distinct : User → User → Type 0
Distinct a b = a.id ≢ b.id

abbrev row : ℕ → (User → User) → User → User
row id f u = if u.id == id then f u else u

untouched :
    (id : ℕ) (f : User → User) (us : List User)
    → All (λ (u : User). id ≢ u.id) us
    → update_user id f us ≡ us
untouched id f [] h = refl
untouched id f (u ∷ us) h = elim (Bool-cases (u.id == id)) [
  | inl hit ↦ elim (h.0 (sym ((==_iff u.id id).0 hit))) [ ]
  | inr miss ↦ rw miss (ap (λ l. u ∷ l) (untouched id f us h.1))
]

-- An update of one row takes at most one away.
one_less :
    (id : ℕ) (f : User → User) (us : List User)
    → Pairs Distinct us
    → length (active_admins us) ≤ suc (length (active_admins (update_user id f us)))
one_less id f [] d = omega arith
one_less id f (u ∷ us) d = elim (Bool-cases (u.id == id)) [
  | inl hit ↦
      rw
        (
          hit,
          untouched id f us
              (subst (λ i. All (λ (v : User). i ≢ v.id) us) ((==_iff u.id id).0 hit) d.0),
        )
        (ground arith)
  | inr miss ↦ rw miss (elim (Bool-cases (is_active_admin u)) [
    | inl counted ↦ rw counted (omega (arith, one_less id f us d.1))
    | inr other ↦ rw other (one_less id f us d.1)
  ])
]

-- An update of a row that is not counted, or stays so, takes none away.
none_less :
    (id : ℕ) (f : User → User) (us : List User) (target : User)
    → Pairs Distinct us
    → find_user id us ≡ some target
    → is_active_admin target ≡ false
    → length (active_admins us) ≤ length (active_admins (update_user id f us))
none_less id f [] target d found other = omega arith
none_less id f (u ∷ us) target d found other = elim (Bool-cases (u.id == id)) [
  | inl hit ↦
      let same : u ≡ target = some-injective u target (rw hit at found) in
      let mine : is_active_admin u ≡ false =
        subst (λ v. is_active_admin v ≡ false) (sym same) other in
      rw
        (
          hit,
          untouched id f us
              (subst (λ i. All (λ (v : User). i ≢ v.id) us) ((==_iff u.id id).0 hit) d.0),
        )
        (rw mine (ground arith))
  | inr miss ↦ rw miss (elim (Bool-cases (is_active_admin u)) [
    | inl counted ↦
        rw counted (omega (arith, none_less id f us target d.1 (rw miss at found) other))
    | inr skipped ↦ rw skipped (none_less id f us target d.1 (rw miss at found) other)
  ])
]

kept_counted :
    (id : ℕ) (f : User → User) (us : List User)
    → ((u : User) → is_active_admin u ≡ true → is_active_admin (f u) ≡ true)
    → length (active_admins us) ≤ length (active_admins (update_user id f us))
kept_counted id f [] keeps = omega arith
kept_counted id f (u ∷ us) keeps = elim (Bool-cases (is_active_admin u)) [
  | inr other ↦ rw other (elim (Bool-cases (is_active_admin (row id f u))) [
    | inl gained ↦ rw gained (omega (arith, kept_counted id f us keeps))
    | inr still ↦ rw still (kept_counted id f us keeps)
  ])
  | inl counted ↦ rw (counted, stays counted) (omega (arith, kept_counted id f us keeps))
]
  where
    stays : is_active_admin u ≡ true → is_active_admin (row id f u) ≡ true
    stays h = elim (Bool-cases (u.id == id)) [ inl hit ↦ rw hit (keeps u h) | inr miss ↦ rw miss h ]

-- The accounts are told apart, and one is that of an active administrator.
pub record IsManned (us : List User) : Type 0 where
  pub distinct : Pairs Distinct us
  pub manned : 1 ≤ length (active_admins us)

still-Distinct :
    (id : ℕ) (f : User → User) (us : List User)
    → ((u : User) → (f u).id ≡ u.id)
    → Pairs Distinct us
    → Pairs Distinct (update_user id f us)
still-Distinct id f us same =
    Pairs-map Distinct Distinct (row id f) us
      (λ a b other equal. other (sym (kept a) ∙ equal ∙ kept b))
  where
    kept : (u : User) → (row id f u).id ≡ u.id
    kept u = elim (Bool-cases (u.id == id)) [ inl hit ↦ rw hit (same u) | inr miss ↦ rw miss refl ]

removal-IsManned :
    (id : ℕ) (f : User → User) (t : Tables)
    → ((u : User) → (f u).id ≡ u.id)
    → ensure_can_remove_final_admin id t ≡ none
    → IsManned t.users
    → IsManned (update_user id f t.users)
unfolding ensure_can_remove_final_admin
removal-IsManned id f t same allowed m = record {
  distinct = still-Distinct id f t.users same m.distinct;
  manned = elim (Option-cases (find_user id t.users)) [
    | inl nobody ↦ cc (rw (nobody, ensure_can_remove_final_admin) at allowed)
    | inr (target, found) ↦ elim (Bool-cases (is_active_admin target)) [
      | inr other ↦ omega (arith, m.manned, none_less id f t.users target m.distinct found other)
      | inl counted ↦ elim (Bool-cases (leb (length (active_admins t.users)) 1)) [
        | inl final ↦ cc (rw (found, counted, final, ensure_can_remove_final_admin) at allowed)
        | inr more ↦ ground (arith, one_less id f t.users m.distinct, more)
      ]
    ]
  ];
}

promotion-IsManned :
    (id : ℕ) (f : User → User) (t : Tables)
    → ((u : User) → (f u).id ≡ u.id)
    → ((u : User) → is_active_admin u ≡ true → is_active_admin (f u) ≡ true)
    → IsManned t.users
    → IsManned (update_user id f t.users)
promotion-IsManned id f t same keeps m = record {
  distinct = still-Distinct id f t.users same m.distinct;
  manned = omega (arith, m.manned, kept_counted id f t.users keeps);
}

changed-IsManned :
    (now actor id : ℕ) (f : User → User) (ends : Bool) (reason event : String) (t : Tables)
    → IsManned (update_user id f t.users)
    → IsManned t.users
    → IsManned (change_account now actor id f ends reason event t).1.users
changed-IsManned now actor id f ends reason event t after before =
    elim (Option-cases (find_user id t.users)) [
      | inl nobody ↦ rw (nobody, change_account) before
      | inr (u, found) ↦ rw (found, change_account) after
    ]

handle-IsManned : (r : AdminRequest) (t : Tables) → IsManned t.users → IsManned (handle r t).users
unfolding update_status update_role
handle-IsManned (sets_status now actor id status) t m = elim (Bool-cases (is_active status)) [
  | inl reviving ↦
      rw (reviving, update_status, handle)
        (changed-IsManned now actor id _ (not true) "admin_status_change" "admin.user.status" t
          (promotion-IsManned id (λ u. record u { status = status }) t (λ u. refl)
            (λ u h. ground (arith, reviving)) m)
          m)
  | inr ending ↦ elim (Option-cases (ensure_can_remove_final_admin id t)) [
    | inr (e, refused) ↦ rw (ending, refused, update_status, handle) m
    | inl allowed ↦
        rw (ending, allowed, update_status, handle)
          (changed-IsManned now actor id _ (not false) "admin_status_change" "admin.user.status" t
            (removal-IsManned id (λ u. record u { status = status }) t (λ u. refl) allowed m) m)
  ]
]
handle-IsManned (sets_role now actor id role) t m = elim (Bool-cases (is_admin role)) [
  | inl raising ↦
      rw (raising, update_role, handle)
        (changed-IsManned now actor id _ true "admin_role_change" "admin.user.role" t
          (promotion-IsManned id (λ u. record u { role = role }) t (λ u. refl)
            (λ u h. ground (arith, raising)) m)
          m)
  | inr lowering ↦ elim (Option-cases (ensure_can_remove_final_admin id t)) [
    | inr (e, refused) ↦ rw (lowering, refused, update_role, handle) m
    | inl allowed ↦
        rw (lowering, allowed, update_role, handle)
          (changed-IsManned now actor id _ true "admin_role_change" "admin.user.role" t
            (removal-IsManned id (λ u. record u { role = role }) t (λ u. refl) allowed m) m)
  ]
]

-- However administrators change the status and the role of accounts, their own too, one request
-- after another, an active administrator remains if there was one and the accounts are told apart.
pub handle_all-IsManned :
    (requests : List AdminRequest) (t : Tables)
    → IsManned t.users
    → IsManned (handle_all requests t).users
unfolding handle_all
handle_all-IsManned [] t m = m
handle_all-IsManned (r ∷ rest) t m = handle_all-IsManned rest (handle r t) (handle-IsManned r t m)
