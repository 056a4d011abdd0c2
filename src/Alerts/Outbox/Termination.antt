-- ===== src/Alerts/Outbox/Termination.antt =====
-- How often events are dispatched and reclaimed, over any rounds
-- (backend/src/modules/alerts/job-outbox-dispatcher.service.ts).
use rolebrief.Common.{
  ℕ, ◌+◌, ◌*◌, ◌≤◌, Bool, true, false, ◌||◌, List, [], ◌∷◌, map, if◌then◌else◌, length, is_empty,
  keep, ◌≡◌, arith, Pairs, All-intro, All-map_le, Bool-cases, inl, inr,
}
use rolebrief.Common.Sums.{sum_of, sum_of-ones, sum_of-map}
use rolebrief.Alerts.Outbox.{
  OutboxEvent, processed, in_ids, ids_of, update_many, pending_events, to_processing,
  dispatch_pending_events, conclude_event, create_event, EvaluateJob, Outbox, queue_job,
}
use rolebrief.Alerts.Outbox.Rows.{Distinct, reached, tally, tally-own}
use rolebrief.Alerts.Outbox.Moves.{IsPending, stamped, pending_events-owned}
use rolebrief.Alerts.Outbox.Rounds.{
  Step, dispatch, reap, conclude, announce, take_step, run, IsSound, take_step-IsSound,
}
use rolebrief.Alerts.Outbox.Bounds.{left_of, when_pending, chosen_counted, reap-left}

abbrev pub no_events : Outbox
no_events = record { events = []; next_id = 0 }

pub no_events-IsSound : (m : ℕ) → IsSound m no_events
no_events-IsSound m = record { fresh = tt; apart = tt; counted = tt }

abbrev pub is_create : Step → Bool
is_create (announce now job) = true
is_create _ = false

module _ {Q : Type 0} (add_bulk : List EvaluateJob → Q → Bool × Q) (m : ℕ) where
  dispatched_row :
      (now : ℕ) (ids : List ℕ) (e : OutboxEvent)
      → (in_ids ids e ≡ true → IsPending e)
      → tally ids e + left_of m (if in_ids ids e then stamped now (to_processing e) else e)
        ≤ left_of m e
  dispatched_row now ids e known = elim (Bool-cases (in_ids ids e)) [
    | inl hit ↦ rw hit (omega (arith, when_pending m e.attempts e.status (known hit)))
    | inr miss ↦ rw miss (omega arith)
  ]

  chosen_left :
      (now n : ℕ) (locked : ℕ → Bool) (es : List OutboxEvent)
      → Pairs Distinct es
      → length (pending_events locked n es)
          + sum_of
              (left_of m)
              (update_many now (ids_of (pending_events locked n es)) to_processing es)
        ≤ sum_of (left_of m) es
  chosen_left now n locked es d =
      let ids = ids_of (pending_events locked n es) in
      omega (
        arith,
        sum_of-map (left_of m) (tally ids) (left_of m)
            (λ e. if in_ids ids e then stamped now (to_processing e) else e) es
            (All-map_le (λ e. in_ids ids e ≡ true → IsPending e) _ es (dispatched_row now ids)
              (reached IsPending es (pending_events locked n es)
                (pending_events-owned locked n es d))),
        sum_of-ones (tally ids) (pending_events locked n es)
            (tally-own (pending_events locked n es)),
        chosen_counted (tally ids) locked n es,
      )

  dispatch-left :
      (busy : Bool) (now n : ℕ) (locked : ℕ → Bool) (es : List OutboxEvent) (q : Q)
      → Pairs Distinct es
      → (dispatch_pending_events add_bulk busy now n locked es q).0
          + sum_of (left_of m) (dispatch_pending_events add_bulk busy now n locked es q).1
        ≤ sum_of (left_of m) es
  unfolding dispatch_pending_events
  dispatch-left busy now n locked es q d =
      let chosen = pending_events locked n es in
      elim (Bool-cases (busy || is_empty chosen)) [
        | inl idle ↦ rw (idle, dispatch_pending_events) (omega arith)
        | inr work ↦ elim (Bool-cases (add_bulk (map queue_job chosen) q).0) [
          | inr refused ↦ rw (work, refused, dispatch_pending_events) (omega arith)
          | inl added ↦ rw (work, added, dispatch_pending_events) (chosen_left now n locked es d)
        ]
      ]

  conclude-left :
      (now id : ℕ) (es : List OutboxEvent)
      → sum_of (left_of m) (conclude_event now id es) ≤ sum_of (left_of m) es
  unfolding conclude_event
  conclude-left now id es = omega (
    arith,
    sum_of-map (left_of m) (λ e. 0) (left_of m)
        (λ e. if in_ids (id ∷ []) e then stamped now (record e { status = processed }) else e) es
        (All-intro _ es concluded_row),
  )
    where
      concluded_row :
          (e : OutboxEvent)
          → 0
              + left_of m
                  (if in_ids (id ∷ []) e then stamped now (record e { status = processed }) else e)
            ≤ left_of m e
      concluded_row e = elim (Bool-cases (in_ids (id ∷ []) e)) [
        | inl hit ↦ rw hit (omega arith)
        | inr miss ↦ rw miss (omega arith)
      ]

  -- The moves that a step may add: those of an event that it creates.
  abbrev pub added_by : Step → ℕ
  added_by (announce now job) = 2 * m + 2
  added_by _ = 0

  take_step-left :
      (s : Step) (o : Outbox) (q : Q)
      → IsSound m o
      → (take_step add_bulk m s o q).0 + sum_of (left_of m) (take_step add_bulk m s o q).1.events
        ≤ added_by s + sum_of (left_of m) o.events
  unfolding take_step create_event
  take_step-left (dispatch busy now n locked) o q sound =
      omega (arith, dispatch-left busy now n locked o.events q sound.apart)
  take_step-left (reap now threshold locked) o q sound =
      omega (arith, reap-left m now threshold locked o.events sound.apart)
  take_step-left (conclude now id) o q sound = omega (arith, conclude-left now id o.events)
  take_step-left (announce now job) o q sound = omega arith

  run-left :
      (steps : List Step) (o : Outbox) (q : Q)
      → IsSound m o
      → (run add_bulk m steps o q).0 + sum_of (left_of m) (run add_bulk m steps o q).1.events
        ≤ sum_of added_by steps + sum_of (left_of m) o.events
  unfolding run
  run-left [] o q sound = omega arith
  run-left (s ∷ steps) o q sound =
      let next = take_step add_bulk m s o q in
      omega (
        arith,
        take_step-left s o q sound,
        run-left steps next.1 next.2 (take_step-IsSound add_bulk m s o q sound),
      )

  added_in :
      (steps : List Step) → sum_of added_by steps ≡ (2 * m + 2) * length (keep is_create steps)
  added_in [] = omega arith
  added_in (dispatch busy now n locked ∷ steps) = omega (arith, added_in steps)
  added_in (reap now threshold locked ∷ steps) = omega (arith, added_in steps)
  added_in (conclude now id ∷ steps) = omega (arith, added_in steps)
  added_in (announce now job ∷ steps) = grind (arith, added_in steps)

  -- From an outbox without events, the dispatches, the resets and the failures that all the rounds
  -- report are together at most twice the allowed attempts and two for each event that is created,
  -- whatever the order of the rounds, and also if no worker ever answers.
  pub run_bounded :
      (steps : List Step) (q : Q)
      → (run add_bulk m steps no_events q).0 ≤ (2 * m + 2) * length (keep is_create steps)
  run_bounded steps q =
      omega (arith, run-left steps no_events q (no_events-IsSound m), added_in steps)
