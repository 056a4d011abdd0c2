-- ===== src/Alerts/Outbox.antt =====
-- backend/src/modules/alerts/job-outbox-dispatcher.service.ts: the events of the outbox
-- (`JobOutboxEvent` of backend/prisma/schema.prisma), what the dispatcher and the reaper do to them,
-- what the worker of the alerts notes when it is done, and what a new job adds. The queue is a
-- parameter; a transaction of the database is one step.
use Prim.Native.String.{◌++◌}
use rolebrief.Common.{
  ℕ, suc, ◌+◌, ◌-◌, Bool, true, false, not, ◌&&◌, ◌||◌, Option, none, some, List, [], ◌∷◌, map,
  String, ◌==◌, leb, keep, take, any, length, is_empty, if◌then◌else◌,
}
use rolebrief.Common.Int.{ℤ}
use rolebrief.Common.Sort.{difference, sort}
use rolebrief.Eligibility.Timezone.{decimal}
pub mod Rows
pub mod Moves
pub mod Rounds
pub mod Bounds
pub mod Termination
pub mod Quiet

pub data OutboxStatus : Type 0 where
  pending processing processed failed : OutboxStatus

abbrev pub is_pending : OutboxStatus → Bool
is_pending pending = true
is_pending _ = false

abbrev pub is_processing : OutboxStatus → Bool
is_processing processing = true
is_processing _ = false

pub record OutboxEvent : Type 0 where
  pub id : ℕ
  pub job_id : ℕ
  pub event_type : String
  pub status : OutboxStatus
  pub attempts : ℕ
  pub last_error : Option String
  pub created_at : ℕ
  pub updated_at : ℕ

pub record Outbox : Type 0 where
  pub events : List OutboxEvent
  pub next_id : ℕ

-- What the dispatcher puts on the queue; `outbox__<id>` names the job there.
pub record EvaluateJob : Type 0 where
  pub outbox_event_id : ℕ
  pub job_id : ℕ
  pub queue_id : String

abbrev pub in_ids : List ℕ → OutboxEvent → Bool
in_ids ids e = any (λ i. i == e.id) ids

abbrev pub ids_of : List OutboxEvent → List ℕ
ids_of = map (λ (e : OutboxEvent). e.id)

-- `updateMany` of the rows with these identifiers; `@updatedAt` notes the time.
abbrev pub update_many :
    ℕ → List ℕ → (OutboxEvent → OutboxEvent) → List OutboxEvent → List OutboxEvent
update_many now ids f es =
    map (λ e. if in_ids ids e then record (f e) { updated_at = now } else e) es

abbrev pub oldest_first : OutboxEvent → OutboxEvent → ℤ
oldest_first a b = difference a.created_at b.created_at

abbrev pub stalest_first : OutboxEvent → OutboxEvent → ℤ
stalest_first a b = difference a.updated_at b.updated_at

-- The rows that another transaction holds are skipped, as by `FOR UPDATE SKIP LOCKED`.
unfoldable pub pending_events : (ℕ → Bool) → ℕ → List OutboxEvent → List OutboxEvent
pending_events locked batch_size es =
    take batch_size
      (sort oldest_first (keep (λ (e : OutboxEvent). is_pending e.status && not (locked e.id)) es))

unfoldable pub stalled_events : (ℕ → Bool) → ℕ → List OutboxEvent → List OutboxEvent
stalled_events locked cutoff es = take 100 (
    sort stalest_first (
      keep
        (λ (e : OutboxEvent).
          (is_processing e.status && leb e.updated_at cutoff) && not (locked e.id))
        es))

abbrev pub queue_job : OutboxEvent → EvaluateJob
queue_job e = record {
  outbox_event_id = e.id;
  job_id = e.job_id;
  queue_id = "outbox__" ++ decimal e.id;
}

abbrev pub to_processing : OutboxEvent → OutboxEvent
to_processing e = record e { status = processing }

abbrev pub to_failed : ℕ → OutboxEvent → OutboxEvent
to_failed max_attempts e = record e {
  status = failed;
  last_error = some (
      "Outbox processing exceeded maximum attempts ("
      ++ (decimal max_attempts ++ "). Marked FAILED by reaper."));
}

abbrev pub to_pending : OutboxEvent → OutboxEvent
to_pending e = record e { status = pending; attempts = suc e.attempts }

-- `reapStalledEvents`: the events reset and failed, and the table after it.
unfoldable pub reap_stalled_events :
    ℕ → ℕ → ℕ → (ℕ → Bool) → List OutboxEvent → (ℕ × ℕ) × List OutboxEvent
reap_stalled_events now threshold max_attempts locked es =
    let stalled = stalled_events locked (now - threshold) es in
    let failed_ids = ids_of (keep (λ (e : OutboxEvent). leb max_attempts e.attempts) stalled) in
    let reset_ids =
      ids_of (keep (λ (e : OutboxEvent). not (leb max_attempts e.attempts)) stalled) in
    (
      (length reset_ids, length failed_ids),
      update_many now reset_ids to_pending (update_many now failed_ids (to_failed max_attempts) es),
    )

module _ {Q : Type 0} (add_bulk : List EvaluateJob → Q → Bool × Q) where
  -- `dispatchPendingEvents`; what fails leaves the table alone. The flag is `isProcessing`.
  unfoldable pub dispatch_pending_events :
      Bool → ℕ → ℕ → (ℕ → Bool) → List OutboxEvent → Q → ℕ × List OutboxEvent × Q
  dispatch_pending_events busy now batch_size locked es q =
      let chosen = pending_events locked batch_size es in
      let (added, q') = add_bulk (map queue_job chosen) q in
      if busy || is_empty chosen
      then (0, es, q)
      else if added
      then (length chosen, update_many now (ids_of chosen) to_processing es, q')
      else (0, es, q')

-- The update of the worker, when a job is evaluated or is not there.
unfoldable pub conclude_event : ℕ → ℕ → List OutboxEvent → List OutboxEvent
conclude_event now id es = update_many now (id ∷ []) (λ e. record e { status = processed }) es

-- `tx.jobOutboxEvent.create` of backend/src/providers/job-persistence.service.ts.
unfoldable pub create_event : ℕ → ℕ → Outbox → Outbox
create_event now job_id o = record {
  events =
      record {
        id = o.next_id;
        job_id = job_id;
        event_type = "JOB_CREATED";
        status = pending;
        attempts = 0;
        last_error = none;
        created_at = now;
        updated_at = now;
      }
      ∷ o.events;
  next_id = suc o.next_id;
}
