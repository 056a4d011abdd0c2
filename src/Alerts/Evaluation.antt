-- ===== src/Alerts/Evaluation.antt =====
-- `process` and `queueImmediateEmail` of
-- backend/src/modules/alerts/alert-evaluation.processor.ts. The delivery queue, SHA-256 and the texts of
-- identifiers are parameters; a failing call of the database is told by a fault of its alert.
use Prim.Native.String.{◌++◌}
use rolebrief.Common.{
  ℕ, Bool, true, false, not, ◌&&◌, ◌||◌, Option, none, some, List, [], ◌∷◌, map, String, str_eq,
  ◌==◌, any, keep, length, or_else, if◌then◌else◌,
}
use rolebrief.Alerts.Types.{
  Alert, AlertRow, AlertUser, JobEntity, AlertChannel, in_app, email, both, AlertCadence, immediate,
  AlertMatch, NotificationState, pending, created, EmailState, sent, AlertNotification,
  EmailDelivery, AlertTables,
}
use rolebrief.Alerts.Outbox.{OutboxEvent, conclude_event}
use rolebrief.Alerts.Criteria.{Engines, is_candidate, fits, status_for}
pub mod Matched
pub mod Repeated

-- The call that fails for an alert, if one does.
pub data Fault : Type 0 where
  no_fault at_match at_notification at_delivery : Fault

abbrev pub fails_at_match : Fault → Bool
fails_at_match at_match = true
fails_at_match _ = false

abbrev pub fails_at_notification : Fault → Bool
fails_at_notification at_notification = true
fails_at_notification _ = false

abbrev pub fails_at_delivery : Fault → Bool
fails_at_delivery at_delivery = true
fails_at_delivery _ = false

abbrev pub wants_in_app : AlertChannel → Bool
wants_in_app email = false
wants_in_app _ = true

abbrev pub wants_email : AlertChannel → Bool
wants_email in_app = false
wants_email _ = true

abbrev pub is_immediate : AlertCadence → Bool
is_immediate immediate = true
is_immediate _ = false

-- `alertId_jobId`
abbrev pub is_match : ℕ → ℕ → AlertMatch → Bool
is_match alert job r = r.alert_id == alert && r.job_id == job

abbrev pub update_match : ℕ → ℕ → (AlertMatch → AlertMatch) → List AlertMatch → List AlertMatch
update_match alert job f ms = map (λ r. if is_match alert job r then f r else r) ms

-- What the service knows of its surroundings: `deliveryEnabled`, and `add` of the queue, by the
-- identifier of the delivery, for which its key stands.
pub record Surroundings (Q : Type 0) : Type 0 where
  pub engines : Engines
  pub delivery_enabled : Bool
  pub sha256 : String → String
  pub id_text : ℕ → String
  pub add : String → Q → Bool × Q

module _ {Q : Type 0} (env : Surroundings Q) (faults : ℕ → Fault) (job : JobEntity) where
  abbrev pub employer : String
  employer = or_else job.company_name "Unknown"

  abbrev pub dedupe_key : Alert → String
  dedupe_key a = "alert:" ++ (env.id_text a.id ++ (":" ++ env.id_text job.id))

  abbrev pub email_key : Alert → String
  email_key a = env.sha256 ("alert-match:" ++ (env.id_text a.id ++ (":" ++ env.id_text job.id)))

  -- The upsert of the match; one that is there stays as it is.
  unfoldable pub upsert_match : AlertRow → AlertTables → AlertTables
  upsert_match row t = if any (is_match row.alert.id job.id) t.matches then t else record t {
    matches =
        record {
          alert_id = row.alert.id;
          job_id = job.id;
          user_id = row.alert.user_id;
          criteria_version = row.alert.criteria_version;
          eligibility_status = status_for env.engines job row;
          notification_state = NotificationState.pending;
          email_state = EmailState.pending;
        }
        ∷ t.matches;
  }

  abbrev pub has_key : String → AlertNotification → Bool
  has_key key n = str_eq n.dedupe_key key

  -- The notification in the application, and the match that it is noted on.
  unfoldable pub notify : Alert → AlertTables → AlertTables
  notify a t =
      let with_notification : AlertTables =
        if any (has_key (dedupe_key a)) t.notifications then t else record t {
          notifications =
              record {
                user_id = a.user_id;
                title = "New match for \"" ++ (a.name ++ "\"");
                body = job.match_facts.title ++ (" at " ++ employer);
                link_url = "/app/jobs/" ++ job.match_facts.slug;
                dedupe_key = dedupe_key a;
              }
              ∷ t.notifications;
        } in
      if wants_in_app a.channel && not (fails_at_notification (faults a.id))
      then record with_notification {
        matches =
            update_match a.id job.id (λ r. record r { notification_state = created }) t.matches;
      }
      else t

  abbrev pub delivers : String → EmailDelivery → Bool
  delivers key d = str_eq d.dedupe_key key

  -- `queueImmediateEmail`: the delivery, its place in the queue, and the match that it is noted on.
  unfoldable pub queue_immediate_email : AlertRow → AlertTables → Q → AlertTables × Q
  queue_immediate_email row t q =
      let a = row.alert in
      let key = email_key a in
      let with_delivery : AlertTables = if any (delivers key) t.deliveries then t else record t {
        deliveries =
            record {
              user_id = row.user.id;
              to_email = row.user.email;
              template = "alert-match";
              subject = "Matched Role: " ++ (job.match_facts.title ++ (" at " ++ employer));
              dedupe_key = key;
            }
            ∷ t.deliveries;
      } in
      let (added, q') = env.add key q in
      if not env.delivery_enabled || fails_at_delivery (faults a.id) then (t, q) else (
        if added
            then record with_delivery {
              matches = update_match a.id job.id (λ r. record r { email_state = sent }) t.matches;
            }
            else with_delivery,
        q',
      )

  -- `lastEvaluatedAt`
  abbrev pub note_evaluated : ℕ → AlertTables × Q → AlertTables × Q
  note_evaluated id (t, q) = (record t { evaluated = id ∷ t.evaluated }, q)

  -- One alert of the loop. What fails is caught, and the next alert comes.
  unfoldable pub evaluate_alert : AlertRow → AlertTables → Q → AlertTables × Q
  evaluate_alert row t q =
      let a = row.alert in
      let noted = notify a (upsert_match row t) in
      if not (fits env.engines job row) || fails_at_match (faults a.id)
      then (t, q)
      else note_evaluated a.id (
          if wants_email a.channel && is_immediate a.cadence
          then queue_immediate_email row noted q
          else (noted, q))

  -- The loop over the candidates.
  unfoldable pub evaluate_alerts : List AlertRow → AlertTables → Q → AlertTables × Q
  evaluate_alerts [] t q = (t, q)
  evaluate_alerts (row ∷ rows) t q =
      let (t', q') = evaluate_alert row t q in evaluate_alerts rows t' q'

  -- `process`, for a job that is there.
  unfoldable pub process_alerts : List AlertRow → AlertTables → Q → AlertTables × Q
  process_alerts rows = evaluate_alerts (keep (is_candidate job) rows)

-- `process`: where the job is there its alerts are evaluated; the event, if one is named, is concluded
-- in every case.
unfoldable pub process :
    {Q : Type 0}
    → Surroundings Q
    → (ℕ → Fault)
    → ℕ
    → Option ℕ
    → Option JobEntity
    → List AlertRow
    → List OutboxEvent
    → AlertTables
    → Q
    → List OutboxEvent × AlertTables × Q
process env faults now event job rows es t q =
    let es' : List OutboxEvent = elim event [ none ↦ es | some id ↦ conclude_event now id es ] in
    elim job [
      | none ↦ (es', t, q)
      | some j ↦ let (t', q') = process_alerts env faults j rows t q in (es', t', q')
    ]
