-- ===== src/Alerts/Service/Limited.antt =====
-- No request takes a user over the limit of alerts
-- (backend/src/modules/alerts/alerts.service.ts).
use rolebrief.Common.{
  ℕ, suc, ◌≤◌, true, false, Option, none, some, List, [], ◌∷◌, String, ◌==◌, ==_iff, leb, keep,
  find, length, ◌≡◌, refl, subst, arith, Bool-cases, Option-cases, inl, inr,
}
use rolebrief.Alerts.Types.{Alert, AlertCriteria, AlertStatus, active, paused}
use rolebrief.Alerts.Service.{
  Alerts, CreateAlert, UpdateAlert, UnsubscribeAction, pauses, deletes, is_disabled, counts_for,
  is_own, max_alerts_per_user, create_alert, read_alert, apply_dto, changed_criteria, update_alert,
  set_status, delete_alert, handle_unsubscribe,
}
use rolebrief.Alerts.Service.Limit.{
  AlertRequest, creates, updates, pauses_alert, resumes_alert, deletes_alert, unsubscribes, serve,
  serve_all, IsInUse, IsLimited, Spares, changed-IsLimited, without-IsLimited, commit-IsLimited,
}

-- One more row, of a user who has fewer than ten.
added-IsLimited :
    (row : Alert) (rows : List Alert)
    → IsInUse row
    → leb max_alerts_per_user (length (keep (counts_for row.user_id) rows)) ≡ false
    → IsLimited rows
    → IsLimited (row ∷ rows)
added-IsLimited row rows used room l = record {
  in_use = (used, l.in_use);
  few = λ user. elim (Bool-cases (counts_for user row)) [
    | inr other ↦ rw other (l.few user)
    | inl own ↦
        let same : row.user_id ≡ user = (==_iff row.user_id user).0 (owner user own) in
        rw own (
          subst (λ u. suc (length (keep (counts_for u) rows)) ≤ 10) same
            (one_more (length (keep (counts_for row.user_id) rows)) room))
  ];
}
  where
    owner : (user : ℕ) → counts_for user row ≡ true → (row.user_id == user) ≡ true
    owner user h = ground arith

    one_more : (n : ℕ) → leb 10 n ≡ false → suc n ≤ 10
    one_more n h = ground arith

status-Spares :
    (status : AlertStatus) → is_disabled status ≡ false → Spares (λ a. record a { status = status })
status-Spares status used = record { same_owner = λ a. refl; still_used = λ a h. used }

dto-Spares : (to_upper : String → String) (dto : UpdateAlert) → Spares (apply_dto to_upper dto)
dto-Spares to_upper dto = record {
  same_owner = λ a. owner dto.criteria _;
  still_used = λ a used. state dto.criteria _ used;
}
  where
    owner :
        (c : Option AlertCriteria) (a : Alert) → (changed_criteria to_upper c a).user_id ≡ a.user_id
    owner none a = refl
    owner (some c) a = refl

    state :
        (c : Option AlertCriteria) (a : Alert) → IsInUse a → IsInUse (changed_criteria to_upper c a)
    state none a used = used
    state (some c) a used = used

module _ (to_upper : String → String) where
  create-IsLimited :
      (user : ℕ) (dto : CreateAlert) (t : Alerts)
      → IsLimited t.rows
      → IsLimited (create_alert to_upper user dto t).1.rows
  unfolding create_alert
  create-IsLimited user dto t l =
      elim (Bool-cases (leb max_alerts_per_user (length (keep (counts_for user) t.rows)))) [
        | inl full ↦ rw (full, create_alert) l
        | inr room ↦ rw (room, create_alert) (added-IsLimited _ t.rows refl room l)
      ]

  delete-IsLimited :
      (user id : ℕ) (t : Alerts) → IsLimited t.rows → IsLimited (delete_alert user id t).1.rows
  unfolding delete_alert
  delete-IsLimited user id t l = elim (Option-cases (find (is_own user id) t.rows)) [
    | inl missing ↦ rw (missing, delete_alert) l
    | inr (a, found) ↦ rw (found, delete_alert) (without-IsLimited a.id t.rows l)
  ]

  unsubscribe-IsLimited :
      (action : UnsubscribeAction) (user id : ℕ) (t : Alerts)
      → IsLimited t.rows
      → IsLimited (handle_unsubscribe action user id t).1.rows
  unfolding handle_unsubscribe
  unsubscribe-IsLimited deletes user id t l = elim (Option-cases (find (is_own user id) t.rows)) [
    | inl missing ↦ rw (missing, handle_unsubscribe) l
    | inr (a, found) ↦ rw (found, handle_unsubscribe) (without-IsLimited a.id t.rows l)
  ]
  unsubscribe-IsLimited pauses user id t l = elim (Option-cases (find (is_own user id) t.rows)) [
    | inl missing ↦ rw (missing, handle_unsubscribe) l
    | inr (a, found) ↦
        rw (found, handle_unsubscribe)
          (changed-IsLimited _ t.rows
            (record { same_owner = λ b. ground arith; still_used = λ b used. ground arith }) l)
  ]

  serve-IsLimited :
      (r : AlertRequest) (t : Alerts) → IsLimited t.rows → IsLimited (serve to_upper r t).rows
  unfolding update_alert set_status
  serve-IsLimited (creates user dto) t l = create-IsLimited user dto t l
  serve-IsLimited (updates user id dto) t l =
      commit-IsLimited dto.expected_revision (apply_dto to_upper dto)
        (read_alert user id dto.expected_revision t) t (dto-Spares to_upper dto) l
  serve-IsLimited (pauses_alert user id expected) t l =
      commit-IsLimited expected _ (read_alert user id expected t) t (status-Spares paused refl) l
  serve-IsLimited (resumes_alert user id expected) t l =
      commit-IsLimited expected _ (read_alert user id expected t) t (status-Spares active refl) l
  serve-IsLimited (deletes_alert user id) t l = delete-IsLimited user id t l
  serve-IsLimited (unsubscribes action user id) t l = unsubscribe-IsLimited action user id t l

  -- Whatever requests are served one after another, no user ever has more than ten alerts, and none
  -- is ever disabled, if that is so at first.
  pub serve_all-IsLimited :
      (requests : List AlertRequest) (t : Alerts)
      → IsLimited t.rows
      → IsLimited (serve_all to_upper requests t).rows
  unfolding serve_all
  serve_all-IsLimited [] t l = l
  serve_all-IsLimited (r ∷ rest) t l =
      serve_all-IsLimited rest (serve to_upper r t) (serve-IsLimited r t l)
