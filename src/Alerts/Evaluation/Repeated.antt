-- ===== src/Alerts/Evaluation/Repeated.antt =====
-- An evaluation that is repeated, as when its event is dispatched again
-- (backend/src/modules/alerts/alert-evaluation.processor.ts).
use rolebrief.Common.{
  ℕ, Bool, true, false, not, ◌&&◌, ◌||◌, List, [], ◌∷◌, map, ◌==◌, ==_refl, any, keep,
  if◌then◌else◌, ◌≡◌, refl, ap, ◌∙◌, arith, All, All-map_le, Bool-cases, inl, inr,
}
use rolebrief.Alerts.Types.{Alert, AlertRow, JobEntity, AlertMatch, EmailDelivery, AlertTables}
use rolebrief.Alerts.Criteria.{fits, is_candidate}
use rolebrief.Alerts.Evaluation.{
  Fault, fails_at_match, fails_at_notification, fails_at_delivery, wants_in_app, wants_email,
  is_immediate, is_match, update_match, Surroundings, upsert_match, notify, queue_immediate_email,
  evaluate_alert, evaluate_alerts, process_alerts, delivers, email_key,
}
use rolebrief.Alerts.Evaluation.Matched.{
  is_listed, reaches, listed-evaluate_alert, listed-evaluate_alerts,
}

-- The alerts and jobs of the matches, in the order of the table.
abbrev pub match_keys : List AlertMatch → List (ℕ × ℕ)
match_keys = map (λ (r : AlertMatch). (r.alert_id, r.job_id))

keys-update :
    (id job : ℕ) (f : AlertMatch → AlertMatch) (ms : List AlertMatch)
    → ((r : AlertMatch) → ((f r).alert_id ≡ r.alert_id) × ((f r).job_id ≡ r.job_id))
    → match_keys (update_match id job f ms) ≡ match_keys ms
keys-update id job f [] same = refl
keys-update id job f (r ∷ ms) same = elim (Bool-cases (is_match id job r)) [
  | inl hit ↦
      rw (hit, (same r).0, (same r).1)
        (ap (λ l. (r.alert_id, r.job_id) ∷ l) (keys-update id job f ms same))
  | inr miss ↦ rw miss (ap (λ l. (r.alert_id, r.job_id) ∷ l) (keys-update id job f ms same))
]

module _ {Q : Type 0} (env : Surroundings Q) (faults : ℕ → Fault) (job : JobEntity) where
  keys-notify :
      (a : Alert) (t : AlertTables)
      → match_keys (notify env faults job a t).matches ≡ match_keys t.matches
  unfolding notify
  keys-notify a t =
      elim (Bool-cases (wants_in_app a.channel && not (fails_at_notification (faults a.id)))) [
        | inl done ↦ rw (done, notify) (keys-update a.id job.id _ t.matches (λ r. (refl, refl)))
        | inr left ↦ rw (left, notify) refl
      ]

  keys-queue_immediate_email :
      (row : AlertRow) (t : AlertTables) (q : Q)
      → match_keys (queue_immediate_email env faults job row t q).0.matches ≡ match_keys t.matches
  unfolding queue_immediate_email
  keys-queue_immediate_email row t q =
      elim (Bool-cases (not env.delivery_enabled || fails_at_delivery (faults row.alert.id))) [
        | inl skipped ↦ rw (skipped, queue_immediate_email) refl
        | inr tried ↦ elim (Bool-cases (env.add (email_key env faults job row.alert) q).0) [
          | inl added ↦
              rw (tried, added, queue_immediate_email)
                (keys-update row.alert.id job.id _ t.matches (λ r. (refl, refl)))
          | inr refused ↦
              rw (tried, refused, queue_immediate_email)
                (still
                  (any (delivers env faults job (email_key env faults job row.alert)) t.deliveries)
                  _)
        ]
      ]
    where
      still :
          (b : Bool) (ds : List EmailDelivery)
          → match_keys (if b then t else record t { deliveries = ds }).matches
            ≡ match_keys t.matches
      still true ds = refl
      still false ds = refl

  -- The match of the alert is there, if the alert gets as far as that.
  abbrev pub IsKnown : AlertTables → AlertRow → Type 0
  IsKnown t row = fits env.engines job row ≡ true → is_listed row.alert.id job.id t.matches ≡ true

  keys-upsert_match :
      (row : AlertRow) (t : AlertTables)
      → is_listed row.alert.id job.id t.matches ≡ true
      → match_keys (upsert_match env faults job row t).matches ≡ match_keys t.matches
  unfolding upsert_match
  keys-upsert_match row t there = rw (there, upsert_match) refl

  keys-evaluate_alert :
      (row : AlertRow) (t : AlertTables) (q : Q)
      → IsKnown t row
      → match_keys (evaluate_alert env faults job row t q).0.matches ≡ match_keys t.matches
  unfolding evaluate_alert
  keys-evaluate_alert row t q known =
      let noted = notify env faults job row.alert (upsert_match env faults job row t) in
      elim (Bool-cases (not (fits env.engines job row) || fails_at_match (faults row.alert.id))) [
        | inl passed_over ↦ rw (passed_over, evaluate_alert) refl
        | inr reached ↦
            let through : match_keys noted.matches ≡ match_keys t.matches =
              keys-notify row.alert (upsert_match env faults job row t)
              ∙ keys-upsert_match row t (known (fitting (fits env.engines job row) _ reached)) in
            elim (Bool-cases (wants_email row.alert.channel && is_immediate row.alert.cadence)) [
              | inl mailed ↦
                  rw (reached, mailed, evaluate_alert)
                    (keys-queue_immediate_email row noted q ∙ through)
              | inr quiet ↦ rw (reached, quiet, evaluate_alert) through
            ]
      ]
    where
      fitting : (a b : Bool) → (not a || b) ≡ false → a ≡ true
      fitting a b h = ground arith

  still_listed :
      (alert : ℕ) (row : AlertRow) (t : AlertTables) (q : Q)
      → is_listed alert job.id t.matches ≡ true
      → is_listed alert job.id (evaluate_alert env faults job row t q).0.matches ≡ true
  still_listed alert row t q there =
      listed-evaluate_alert env faults job alert row t q
      ∙ ap (λ b. b || (row.alert.id == alert && reaches env faults job alert row)) there

  keys-evaluate_alerts :
      (rows : List AlertRow) (t : AlertTables) (q : Q)
      → All (IsKnown t) rows
      → match_keys (evaluate_alerts env faults job rows t q).0.matches ≡ match_keys t.matches
  unfolding evaluate_alerts
  keys-evaluate_alerts [] t q known = refl
  keys-evaluate_alerts (row ∷ rows) t q known =
      let next = evaluate_alert env faults job row t q in
      keys-evaluate_alerts rows next.0 next.1 (
        All-map_le (IsKnown t) (IsKnown next.0) rows
          (λ r k. λ fit. still_listed r.alert.id row t q (k fit)) known.1)
      ∙ keys-evaluate_alert row t q known.0

  -- A run in which no match fails to be written knows its rows.
  pub evaluate_alerts-IsKnown :
      (rows : List AlertRow) (t : AlertTables) (q : Q)
      → ((alert : ℕ) → fails_at_match (faults alert) ≡ false)
      → All (IsKnown (evaluate_alerts env faults job rows t q).0) rows
  unfolding evaluate_alerts
  evaluate_alerts-IsKnown [] t q sound = tt
  evaluate_alerts-IsKnown (row ∷ rows) t q sound =
      let next = evaluate_alert env faults job row t q in
      (
        λ fit.
            listed-evaluate_alerts env faults job row.alert.id rows next.0 next.1
            ∙ ap
                (λ b.
                  b
                  || any (λ r. r.alert.id == row.alert.id && reaches env faults job row.alert.id r)
                      rows)
                (listed-evaluate_alert env faults job row.alert.id row t q
                  ∙ listed_now (is_listed row.alert.id job.id t.matches)
                      (row.alert.id == row.alert.id) (fits env.engines job row)
                      (fails_at_match (faults row.alert.id)) (==_refl row.alert.id) fit
                      (sound row.alert.id)),
        evaluate_alerts-IsKnown rows next.0 next.1 sound,
      )
    where
      listed_now :
          (a b c d : Bool) → b ≡ true → c ≡ true → d ≡ false → (a || (b && (c && not d))) ≡ true
      listed_now a b c d h k l = ground arith

module _ {Q : Type 0} (env : Surroundings Q) (faults faults' : ℕ → Fault) (job : JobEntity) where
  -- An evaluation in which every match could be written, repeated for the same alerts, whatever fails
  -- this time, adds no match and takes none away.
  pub process_alerts_again :
      (rows : List AlertRow) (t : AlertTables) (q q' : Q)
      → ((alert : ℕ) → fails_at_match (faults alert) ≡ false)
      → match_keys
          (process_alerts env faults' job rows
            (process_alerts env faults job rows t q).0
            q').0.matches
        ≡ match_keys (process_alerts env faults job rows t q).0.matches
  unfolding process_alerts
  process_alerts_again rows t q q' sound =
      keys-evaluate_alerts env faults' job (keep (is_candidate job) rows)
        (evaluate_alerts env faults job (keep (is_candidate job) rows) t q).0 q'
        (evaluate_alerts-IsKnown env faults job (keep (is_candidate job) rows) t q sound)
