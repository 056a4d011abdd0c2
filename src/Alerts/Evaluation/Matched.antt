-- ===== src/Alerts/Evaluation/Matched.antt =====
-- The matches that an evaluation leaves
-- (backend/src/modules/alerts/alert-evaluation.processor.ts).
use rolebrief.Common.{
  ℕ, Bool, true, false, not, ◌&&◌, ◌||◌, List, [], ◌∷◌, ◌==◌, ==_iff, ==_refl, any, keep,
  if◌then◌else◌, ◌≡◌, refl, ap, ◌∙◌, subst, arith, Bool-cases, inl, inr,
}
use rolebrief.Alerts.Types.{Alert, AlertRow, JobEntity, AlertMatch, EmailDelivery, AlertTables}
use rolebrief.Alerts.Criteria.{fits, is_candidate}
use rolebrief.Alerts.Evaluation.{
  Fault, fails_at_match, fails_at_notification, fails_at_delivery, wants_in_app, wants_email,
  is_immediate, is_match, update_match, Surroundings, upsert_match, notify, queue_immediate_email,
  evaluate_alert, evaluate_alerts, process_alerts, delivers, email_key,
}

abbrev pub is_listed : ℕ → ℕ → List AlertMatch → Bool
is_listed alert job ms = any (is_match alert job) ms

listed-update :
    (alert job id : ℕ) (f : AlertMatch → AlertMatch) (ms : List AlertMatch)
    → ((r : AlertMatch) → is_match alert job (f r) ≡ is_match alert job r)
    → is_listed alert job (update_match id job f ms) ≡ is_listed alert job ms
listed-update alert job id f [] same = refl
listed-update alert job id f (r ∷ ms) same = elim (Bool-cases (is_match id job r)) [
  | inl hit ↦
      rw (hit, same r) (ap (λ b. is_match alert job r || b) (listed-update alert job id f ms same))
  | inr miss ↦ rw miss (ap (λ b. is_match alert job r || b) (listed-update alert job id f ms same))
]

or_assoc : (a b c : Bool) → ((a || b) || c) ≡ (a || (b || c))
or_assoc a b c = ground arith

module _ {Q : Type 0} (env : Surroundings Q) (faults : ℕ → Fault) (job : JobEntity)
    (alert : ℕ) where
  abbrev pub listed : AlertTables → Bool
  listed t = is_listed alert job.id t.matches

  listed-upsert_match :
      (row : AlertRow) (t : AlertTables)
      → listed (upsert_match env faults job row t) ≡ (listed t || row.alert.id == alert)
  unfolding upsert_match
  listed-upsert_match row t = elim (Bool-cases (is_listed row.alert.id job.id t.matches)) [
    | inl there ↦ elim (Bool-cases (row.alert.id == alert)) [
      | inl same ↦
          let held : listed t ≡ true =
            subst (λ i. is_listed i job.id t.matches ≡ true) ((==_iff row.alert.id alert).0 same)
              there in
          rw (there, upsert_match) (rw (same, held) refl)
      | inr other ↦ rw (there, upsert_match) (rw other (ground arith))
    ]
    | inr missing ↦ rw (missing, upsert_match) (rw (==_refl job.id) (ground arith))
  ]

  listed-notify : (a : Alert) (t : AlertTables) → listed (notify env faults job a t) ≡ listed t
  unfolding notify
  listed-notify a t =
      elim (Bool-cases (wants_in_app a.channel && not (fails_at_notification (faults a.id)))) [
        | inl done ↦ rw (done, notify) (listed-update alert job.id a.id _ t.matches (λ r. refl))
        | inr left ↦ rw (left, notify) refl
      ]

  listed-queue_immediate_email :
      (row : AlertRow) (t : AlertTables) (q : Q)
      → listed (queue_immediate_email env faults job row t q).0 ≡ listed t
  unfolding queue_immediate_email
  listed-queue_immediate_email row t q =
      elim (Bool-cases (not env.delivery_enabled || fails_at_delivery (faults row.alert.id))) [
        | inl skipped ↦ rw (skipped, queue_immediate_email) refl
        | inr tried ↦ elim (Bool-cases (env.add (email_key env faults job row.alert) q).0) [
          | inl added ↦
              rw (tried, added, queue_immediate_email)
                (listed-update alert job.id row.alert.id _ t.matches (λ r. refl))
          | inr refused ↦
              rw (tried, refused, queue_immediate_email)
                (still
                  (any (delivers env faults job (email_key env faults job row.alert)) t.deliveries)
                  _)
        ]
      ]
    where
      still :
          (b : Bool) (ds : List EmailDelivery)
          → listed (if b then t else record t { deliveries = ds }) ≡ listed t
      still true ds = refl
      still false ds = refl

  -- The alert gets as far as its match.
  abbrev pub reaches : AlertRow → Bool
  reaches row = fits env.engines job row && not (fails_at_match (faults row.alert.id))

  pub listed-evaluate_alert :
      (row : AlertRow) (t : AlertTables) (q : Q)
      → listed (evaluate_alert env faults job row t q).0
        ≡ (listed t || (row.alert.id == alert && reaches row))
  unfolding evaluate_alert
  listed-evaluate_alert row t q =
      let noted = notify env faults job row.alert (upsert_match env faults job row t) in
      let through : listed noted ≡ (listed t || row.alert.id == alert) =
        listed-notify row.alert (upsert_match env faults job row t) ∙ listed-upsert_match row t in
      elim (Bool-cases (not (fits env.engines job row) || fails_at_match (faults row.alert.id))) [
        | inl passed_over ↦ rw (passed_over, evaluate_alert) (ground (arith, passed_over))
        | inr reached ↦
            elim (Bool-cases (wants_email row.alert.channel && is_immediate row.alert.cadence)) [
              | inl mailed ↦
                  rw (reached, mailed, evaluate_alert)
                    (listed-queue_immediate_email row noted q ∙ through ∙ full row t reached)
              | inr quiet ↦ rw (reached, quiet, evaluate_alert) (through ∙ full row t reached)
            ]
      ]
    where
      full :
          (r : AlertRow) (u : AlertTables)
          → (not (fits env.engines job r) || fails_at_match (faults r.alert.id)) ≡ false
          → (listed u || r.alert.id == alert) ≡ (listed u || (r.alert.id == alert && reaches r))
      full r u h = ground arith

  pub listed-evaluate_alerts :
      (rows : List AlertRow) (t : AlertTables) (q : Q)
      → listed (evaluate_alerts env faults job rows t q).0
        ≡ (listed t || any (λ r. r.alert.id == alert && reaches r) rows)
  unfolding evaluate_alerts
  listed-evaluate_alerts [] t q = ground arith
  listed-evaluate_alerts (row ∷ rows) t q =
      let (t', q') = evaluate_alert env faults job row t q in
      listed-evaluate_alerts rows t' q'
      ∙ ap (λ b. b || any (λ r. r.alert.id == alert && reaches r) rows)
          (listed-evaluate_alert row t q)
      ∙ or_assoc (listed t) (row.alert.id == alert && reaches row)
          (any (λ r. r.alert.id == alert && reaches r) rows)

  any-candidates :
      (p : AlertRow → Bool) (rows : List AlertRow)
      → any p (keep (is_candidate job) rows) ≡ any (λ r. is_candidate job r && p r) rows
  any-candidates p [] = refl
  any-candidates p (row ∷ rows) = elim (Bool-cases (is_candidate job row)) [
    | inl wanted ↦ rw wanted (ap (λ b. p row || b) (any-candidates p rows))
    | inr other ↦ rw other (any-candidates p rows)
  ]

  -- After the evaluation of a job there is a match of the job for an alert exactly if there was one,
  -- or a row of the alert is among the candidates, passes the tests of its criteria and of its
  -- eligibility policy, and its match could be written: the failures of other alerts, and those of
  -- notifications and mails, keep none away.
  pub listed-process_alerts :
      (rows : List AlertRow) (t : AlertTables) (q : Q)
      → listed (process_alerts env faults job rows t q).0
        ≡ (listed t || any (λ r. is_candidate job r && (r.alert.id == alert && reaches r)) rows)
  unfolding process_alerts
  listed-process_alerts rows t q =
      listed-evaluate_alerts (keep (is_candidate job) rows) t q
      ∙ ap (λ b. listed t || b) (any-candidates (λ r. r.alert.id == alert && reaches r) rows)
