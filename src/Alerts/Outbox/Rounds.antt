-- ===== src/Alerts/Outbox/Rounds.antt =====
-- Sequences of dispatches, reaps, notes of workers and new events
-- (backend/src/modules/alerts/job-outbox-dispatcher.service.ts).
use rolebrief.Common.{
  ℕ, ◌+◌, ◌≤◌, ◌<◌, Bool, true, List, [], ◌∷◌, is_some, ◌≡◌, ◌≢◌, refl, subst, arith, All, Pairs,
  All-map_le,
}
use rolebrief.Common.Sums.{Each, Each-All, Each-Pairs}
use rolebrief.Alerts.Outbox.{
  OutboxEvent, failed, Outbox, reap_stalled_events, dispatch_pending_events, conclude_event,
  create_event, EvaluateJob,
}
use rolebrief.Alerts.Outbox.Rows.{Distinct}
use rolebrief.Alerts.Outbox.Moves.{
  Move, stays, dispatched, reclaimed, gave_up, concluded, reap-Moves, dispatch-Moves,
  conclude-Moves,
}

-- The scheduler runs the first two, a worker the third, the ingestion the last.
pub data Step : Type 0 where
  dispatch : Bool → ℕ → ℕ → (ℕ → Bool) → Step
  reap : ℕ → ℕ → (ℕ → Bool) → Step
  conclude : ℕ → ℕ → Step
  announce : ℕ → ℕ → Step

module _ {Q : Type 0} (add_bulk : List EvaluateJob → Q → Bool × Q) (max_attempts : ℕ) where
  -- The events that the step reports, and the outbox and the queue after it.
  unfoldable pub take_step : Step → Outbox → Q → ℕ × Outbox × Q
  take_step (dispatch busy now n locked) o q =
      let (count, es, q') = dispatch_pending_events add_bulk busy now n locked o.events q in
      (count, record o { events = es }, q')
  take_step (reap now threshold locked) o q =
      let ((reset, gone), es) = reap_stalled_events now threshold max_attempts locked o.events in
      (reset + gone, record o { events = es }, q)
  take_step (conclude now id) o q = (0, record o { events = conclude_event now id o.events }, q)
  take_step (announce now job_id) o q = (0, create_event now job_id o, q)

  unfoldable pub run : List Step → Outbox → Q → ℕ × Outbox × Q
  run [] o q = (0, o, q)
  run (s ∷ steps) o q =
      let (count, o', q') = take_step s o q in
      let (later, last, q'') = run steps o' q' in (count + later, last, q'')

-- An event has no more attempts than are allowed, and one that was given up has used them, and
-- says so.
abbrev pub IsCounted : ℕ → OutboxEvent → Type 0
IsCounted m e =
    (e.attempts ≤ m) × (e.status ≡ failed → (m ≤ e.attempts) × (is_some e.last_error ≡ true))

pub record IsSound (max_attempts : ℕ) (o : Outbox) : Type 0 where
  pub fresh : All (λ (e : OutboxEvent). e.id < o.next_id) o.events
  pub apart : Pairs Distinct o.events
  pub counted : All (IsCounted max_attempts) o.events

same_id : (m : ℕ) (a b : OutboxEvent) → Move m a b → a.id ≡ b.id
same_id m a b (stays _) = refl
same_id m a b (dispatched _ t p) = refl
same_id m a b (reclaimed _ t p below) = refl
same_id m a b (gave_up _ t p over) = refl
same_id m a b (concluded _ t) = refl

IsCounted-still : (m : ℕ) (a b : OutboxEvent) → Move m a b → IsCounted m a → IsCounted m b
IsCounted-still m a b (stays _) c = c
IsCounted-still m a b (dispatched _ t p) c = (c.0, λ impossible. cc)
IsCounted-still m a b (reclaimed _ t p below) c = (omega arith, λ impossible. cc)
IsCounted-still m a b (gave_up _ t p over) c = (c.0, λ h. (over, refl))
IsCounted-still m a b (concluded _ t) c = (c.0, λ impossible. cc)

moved-IsSound :
    (m : ℕ) (o : Outbox) (es : List OutboxEvent)
    → Each (Move m) o.events es
    → IsSound m o
    → IsSound m (record o { events = es })
moved-IsSound m o es moves sound = record {
  fresh =
      Each-All (Move m) _ o.events es
        (λ a b r below. subst (λ i. i < o.next_id) (same_id m a b r) below) moves sound.fresh;
  apart =
      Each-Pairs (Move m) Distinct o.events es (λ a b x r. subst (λ i. i ≢ x.id) (same_id m a b r))
        (λ a b x r. subst (λ i. x.id ≢ i) (same_id m a b r)) moves sound.apart;
  counted = Each-All (Move m) _ o.events es (IsCounted-still m) moves sound.counted;
}

create_event-IsSound :
    (m now job : ℕ) (o : Outbox) → IsSound m o → IsSound m (create_event now job o)
unfolding create_event
create_event-IsSound m now job o sound = record {
  fresh = (
    omega arith,
    All-map_le _ _ o.events (λ (e : OutboxEvent) (below : e.id < o.next_id). omega arith)
        sound.fresh,
  );
  apart = (
    All-map_le _ _ o.events
        (λ (e : OutboxEvent) (below : e.id < o.next_id) (same : o.next_id ≡ e.id). omega arith)
        sound.fresh,
    sound.apart,
  );
  counted = ((omega arith, λ impossible. cc), sound.counted);
}

module _ {Q : Type 0} (add_bulk : List EvaluateJob → Q → Bool × Q) (max_attempts : ℕ) where
  pub take_step-IsSound :
      (s : Step) (o : Outbox) (q : Q)
      → IsSound max_attempts o
      → IsSound max_attempts (take_step add_bulk max_attempts s o q).1
  unfolding take_step
  take_step-IsSound (dispatch busy now n locked) o q sound =
      moved-IsSound max_attempts o _
        (dispatch-Moves add_bulk max_attempts busy now n locked o.events q sound.apart) sound
  take_step-IsSound (reap now threshold locked) o q sound =
      moved-IsSound max_attempts o _
        (reap-Moves max_attempts now threshold locked o.events sound.apart) sound
  take_step-IsSound (conclude now id) o q sound =
      moved-IsSound max_attempts o _ (conclude-Moves max_attempts now id o.events) sound
  take_step-IsSound (announce now job) o q sound = create_event-IsSound max_attempts now job o sound

  -- Whatever the dispatcher, the reaper, the workers and the ingestion do, in any order, no event
  -- gets more attempts than are allowed, one that is given up has used them all and carries its
  -- error, and no two events have one identifier.
  pub run-IsSound_outbox :
      (steps : List Step) (o : Outbox) (q : Q)
      → IsSound max_attempts o
      → IsSound max_attempts (run add_bulk max_attempts steps o q).1
  unfolding run
  run-IsSound_outbox [] o q sound = sound
  run-IsSound_outbox (s ∷ steps) o q sound =
      let next = take_step add_bulk max_attempts s o q in
      run-IsSound_outbox steps next.1 next.2 (take_step-IsSound s o q sound)
