-- ===== src/Alerts/Outbox/Moves.antt =====
-- What the dispatcher and the reaper do to an event
-- (backend/src/modules/alerts/job-outbox-dispatcher.service.ts).
use rolebrief.Common.{
  ℕ, ◌-◌, ◌≤◌, ◌<◌, Bool, true, not, ◌&&◌, ◌||◌, List, [], ◌∷◌, map, leb, leb→le, if◌then◌else◌,
  is_empty, keep, ◌≡◌, refl, sym, subst, ap, arith, All, Pairs, All-intro, All-map_le, All-both,
  All-keep_of, All-take, Bool-cases, inl, inr,
}
use rolebrief.Common.Sort.{All-sort}
use rolebrief.Common.Sums.{Each, Each-map, Each-refl}
use rolebrief.Alerts.Outbox.{
  OutboxEvent, processed, is_pending, is_processing, in_ids, ids_of, pending_events, stalled_events,
  oldest_first, stalest_first, to_processing, to_pending, to_failed, reap_stalled_events,
  dispatch_pending_events, conclude_event, EvaluateJob, queue_job,
}
use rolebrief.Alerts.Outbox.Rows.{Distinct, IsOwner, owners, reached}

abbrev pub stamped : ℕ → OutboxEvent → OutboxEvent
stamped now e = record e { updated_at = now }

-- The moves of an event, where a reaper gives up after so many attempts.
pub data Move (max_attempts : ℕ) : OutboxEvent → OutboxEvent → Type 0 where
  stays : (e : OutboxEvent) → Move max_attempts e e
  dispatched :
      (e : OutboxEvent) (now : ℕ)
      → is_pending e.status ≡ true
      → Move max_attempts e (stamped now (to_processing e))
  reclaimed :
      (e : OutboxEvent) (now : ℕ)
      → is_processing e.status ≡ true
      → e.attempts < max_attempts
      → Move max_attempts e (stamped now (to_pending e))
  gave_up :
      (e : OutboxEvent) (now : ℕ)
      → is_processing e.status ≡ true
      → max_attempts ≤ e.attempts
      → Move max_attempts e (stamped now (to_failed max_attempts e))
  concluded :
      (e : OutboxEvent) (now : ℕ)
      → Move max_attempts e (stamped now (record e { status = processed }))

-- What the selection of the dispatcher, and that of the reaper, ask of a row.
abbrev pub IsPending : OutboxEvent → Type 0
IsPending e = is_pending e.status ≡ true

abbrev pub IsProcessing : OutboxEvent → Type 0
IsProcessing e = is_processing e.status ≡ true

and_left : (a b : Bool) → (a && b) ≡ true → a ≡ true
and_left a b h = ground arith

pub pending_events-owned :
    (locked : ℕ → Bool) (n : ℕ) (es : List OutboxEvent)
    → Pairs Distinct es
    → All (λ x. IsOwner es x × IsPending x) (pending_events locked n es)
unfolding pending_events
pending_events-owned locked n es d = All-take _ n _ (
    All-sort oldest_first _ _ (
      All-keep_of _ (λ (e : OutboxEvent). is_pending e.status && not (locked e.id)) es
        (All-map_le (IsOwner es) _ es (λ x own. λ hit. (own, and_left _ _ hit)) (owners es d))))

stalled_events-owned :
    (locked : ℕ → Bool) (cutoff : ℕ) (es : List OutboxEvent)
    → Pairs Distinct es
    → All (λ x. IsOwner es x × IsProcessing x) (stalled_events locked cutoff es)
unfolding stalled_events
stalled_events-owned locked cutoff es d = All-take _ 100 _ (
    All-sort stalest_first _ _ (
      All-keep_of _
        (λ (e : OutboxEvent).
          (is_processing e.status && leb e.updated_at cutoff) && not (locked e.id))
        es
        (All-map_le (IsOwner es) _ es (λ x own. λ hit. (own, and_left _ _ (and_left _ _ hit)))
          (owners es d))))

-- The rows that a reap fails or resets are in processing, and their attempts decide.
pub chosen_by :
    (q : OutboxEvent → Bool) (es sel : List OutboxEvent)
    → All (λ x. IsOwner es x × IsProcessing x) sel
    → All (λ e. in_ids (ids_of (keep q sel)) e ≡ true → IsProcessing e × (q e ≡ true)) es
chosen_by q es sel h =
    reached (λ e. IsProcessing e × (q e ≡ true)) es (keep q sel)
      (All-keep_of _ q sel
        (All-map_le (λ x. IsOwner es x × IsProcessing x) _ sel (λ x k. λ hit. (k.0, (k.1, hit))) h))

module _ (max_attempts now threshold : ℕ) (locked : ℕ → Bool) (es : List OutboxEvent) where
  abbrev pub stalled_now : List OutboxEvent
  stalled_now = stalled_events locked (now - threshold) es

  abbrev pub failed_ids : List ℕ
  failed_ids = ids_of (keep (λ (e : OutboxEvent). leb max_attempts e.attempts) stalled_now)

  abbrev pub reset_ids : List ℕ
  reset_ids = ids_of (keep (λ (e : OutboxEvent). not (leb max_attempts e.attempts)) stalled_now)

  -- What a reap does to a row.
  abbrev pub fail_row : OutboxEvent → OutboxEvent
  fail_row e = if in_ids failed_ids e then stamped now (to_failed max_attempts e) else e

  abbrev pub reset_row : OutboxEvent → OutboxEvent
  reset_row e = if in_ids reset_ids e then stamped now (to_pending e) else e

  -- What is known of a row of the table.
  abbrev pub IsRead : OutboxEvent → Type 0
  IsRead e =
      (in_ids failed_ids e ≡ true → IsProcessing e × (leb max_attempts e.attempts ≡ true))
      × (in_ids reset_ids e ≡ true → IsProcessing e × (not (leb max_attempts e.attempts) ≡ true))

  pub rows-IsRead : Pairs Distinct es → All IsRead es
  rows-IsRead d =
      let owned = stalled_events-owned locked (now - threshold) es d in
      All-both _ _ es
        (chosen_by (λ (e : OutboxEvent). leb max_attempts e.attempts) es stalled_now owned)
        (chosen_by (λ (e : OutboxEvent). not (leb max_attempts e.attempts)) es stalled_now owned)

  reap_row-Move : (e : OutboxEvent) → IsRead e → Move max_attempts e (reset_row (fail_row e))
  reap_row-Move e (f, r) = elim (Bool-cases (in_ids failed_ids e)) [
    | inl gone ↦ elim (Bool-cases (in_ids reset_ids e)) [
      | inl both ↦ cc (rw (f gone).1 at (r both).1)
      | inr only ↦
          rw (gone, only) (gave_up e now (f gone).0 (leb→le max_attempts e.attempts (f gone).1))
    ]
    | inr kept ↦ elim (Bool-cases (in_ids reset_ids e)) [
      | inl again ↦
          rw (kept, again) (reclaimed e now (r again).0 (below max_attempts e.attempts (r again).1))
      | inr untouched ↦ rw (kept, untouched) (stays e)
    ]
  ]
    where
      below : (m a : ℕ) → not (leb m a) ≡ true → a < m
      below m a h = ground arith

  reaped_rows :
      (xs : List OutboxEvent)
      → map reset_row (map fail_row xs) ≡ map (λ e. reset_row (fail_row e)) xs
  reaped_rows [] = refl
  reaped_rows (x ∷ xs) = ap (λ t. reset_row (fail_row x) ∷ t) (reaped_rows xs)

  pub reap-as_map :
      (reap_stalled_events now threshold max_attempts locked es).1
      ≡ map (λ e. reset_row (fail_row e)) es
  unfolding reap_stalled_events
  reap-as_map = reaped_rows es

  -- A reap of a table whose events are told apart takes each of them by a legal move.
  pub reap-Moves :
      Pairs Distinct es
      → Each (Move max_attempts) es (reap_stalled_events now threshold max_attempts locked es).1
  reap-Moves d = subst (Each (Move max_attempts) es) (sym reap-as_map) (
      Each-map (Move max_attempts) (λ e. reset_row (fail_row e)) es
        (All-map_le IsRead _ es reap_row-Move (rows-IsRead d)))

-- So does a dispatch, whatever the queue does.
pub dispatch-Moves :
    {Q : Type 0} (add_bulk : List EvaluateJob → Q → Bool × Q) (max_attempts : ℕ) (busy : Bool)
    (now n : ℕ) (locked : ℕ → Bool) (es : List OutboxEvent) (q : Q)
    → Pairs Distinct es
    → Each (Move max_attempts) es (dispatch_pending_events add_bulk busy now n locked es q).1
unfolding dispatch_pending_events
dispatch-Moves add_bulk max_attempts busy now n locked es q d =
    let chosen = pending_events locked n es in
    let still = Each-refl (Move max_attempts) es stays in
    elim (Bool-cases (busy || is_empty chosen)) [
      | inl idle ↦ rw (idle, dispatch_pending_events) still
      | inr work ↦ elim (Bool-cases (add_bulk (map queue_job chosen) q).0) [
        | inr refused ↦ rw (work, refused, dispatch_pending_events) still
        | inl added ↦
            rw (work, added, dispatch_pending_events)
              (Each-map (Move max_attempts) _ es (
                All-map_le (λ e. in_ids (ids_of chosen) e ≡ true → IsPending e) _ es
                  (dispatched_row (ids_of chosen))
                  (reached IsPending es chosen (pending_events-owned locked n es d))))
      ]
    ]
  where
    dispatched_row :
        (ids : List ℕ) (e : OutboxEvent)
        → (in_ids ids e ≡ true → IsPending e)
        → Move max_attempts e (if in_ids ids e then stamped now (to_processing e) else e)
    dispatched_row ids e known = elim (Bool-cases (in_ids ids e)) [
      | inl hit ↦ rw hit (dispatched e now (known hit))
      | inr miss ↦ rw miss (stays e)
    ]

-- So does the note of a worker.
pub conclude-Moves :
    (max_attempts now id : ℕ) (es : List OutboxEvent)
    → Each (Move max_attempts) es (conclude_event now id es)
unfolding conclude_event
conclude-Moves max_attempts now id es =
    Each-map (Move max_attempts) _ es (All-intro _ es concluded_row)
  where
    concluded_row :
        (e : OutboxEvent)
        → Move max_attempts e
            (if in_ids (id ∷ []) e then stamped now (record e { status = processed }) else e)
    concluded_row e = elim (Bool-cases (in_ids (id ∷ []) e)) [
      | inl hit ↦ rw hit (concluded e now)
      | inr miss ↦ rw miss (stays e)
    ]
