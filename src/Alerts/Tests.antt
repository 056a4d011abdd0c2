-- ===== src/Alerts/Tests.antt =====
-- Examples of rounds of the outbox
-- (backend/src/modules/alerts/job-outbox-dispatcher.service.ts).
use rolebrief.Common.{
  ℕ, ◌+◌, ◌*◌, ◌≤◌, Bool, true, false, none, List, [], ◌∷◌, keep, length, ◌≡◌, refl, arith, All,
}
use rolebrief.Common.Sort.{sort}
use rolebrief.Alerts.Outbox.{
  EvaluateJob, OutboxEvent, OutboxStatus, processed, failed, dispatch_pending_events,
  reap_stalled_events, pending_events, stalled_events, conclude_event, create_event,
}
use rolebrief.Alerts.Outbox.Rounds.{
  Step, dispatch, reap, conclude, announce, take_step, run, IsSound, run-IsSound_outbox,
}
use rolebrief.Alerts.Outbox.Termination.{no_events, no_events-IsSound, is_create, run_bounded}
use rolebrief.Alerts.Outbox.Quiet.{is_settled, unlocked, quiet_settled}

abbrev counted_queue : List EvaluateJob → ℕ → Bool × ℕ
counted_queue jobs q = (true, q + length jobs)

-- Two jobs; the first is evaluated, the second is lost with its worker and dispatched again.
abbrev rounds : List Step
rounds =
    announce 0 7
    ∷ dispatch false 1 50 unlocked
    ∷ announce 2 8
    ∷ conclude 3 0
    ∷ dispatch false 4 50 unlocked
    ∷ reap 2000 900 unlocked
    ∷ dispatch false 2001 50 unlocked
    ∷ []

-- The two jobs were put on the queue three times, and four moves were reported.
rounds_reported : (run counted_queue 5 rounds no_events 0).0 ≡ 4
unfolding run take_step dispatch_pending_events reap_stalled_events pending_events stalled_events
    conclude_event create_event sort
rounds_reported = refl

rounds_enqueued : (run counted_queue 5 rounds no_events 0).2 ≡ 3
unfolding run take_step dispatch_pending_events reap_stalled_events pending_events stalled_events
    conclude_event create_event sort
rounds_enqueued = refl

run-IsSound_outbox_example : IsSound 5 (run counted_queue 5 rounds no_events 0).1
run-IsSound_outbox_example =
    run-IsSound_outbox counted_queue 5 rounds no_events 0 (no_events-IsSound 5)

run_bounded_example :
    (run counted_queue 5 rounds no_events 0).0 ≤ (2 * 5 + 2) * length (keep is_create rounds)
run_bounded_example = run_bounded counted_queue 5 rounds 0

abbrev old_event : ℕ → OutboxStatus → OutboxEvent
old_event id status = record {
  id = id;
  job_id = 7;
  event_type = "JOB_CREATED";
  status = status;
  attempts = 5;
  last_error = none;
  created_at = 0;
  updated_at = 9;
}

abbrev old_events : List OutboxEvent
old_events = old_event 1 processed ∷ old_event 2 failed ∷ []

quiet_settled_example : All (λ (e : OutboxEvent). is_settled e.status ≡ true) old_events
unfolding dispatch_pending_events reap_stalled_events pending_events stalled_events sort
quiet_settled_example =
    quiet_settled counted_queue 2000 49 900 5 old_events 0 (λ jobs r. refl)
      (omega arith, (omega arith, tt)) refl refl
