-- ===== src/Alerts/Outbox/Bounds.antt =====
-- How often events can be dispatched and reclaimed
-- (backend/src/modules/alerts/job-outbox-dispatcher.service.ts).
use rolebrief.Common.{
  ℕ, ◌+◌, ◌-◌, ◌*◌, ◌≤◌, ◌<◌, Bool, true, not, List, map, leb, length, length-map, keep, take, ◌≡◌,
  refl, sym, ◌∙◌, arith, Pairs, All-map_le, Bool-cases, inl, inr,
}
use rolebrief.Common.Int.{ℤ}
use rolebrief.Common.Sort.{sort}
use rolebrief.Common.Sums.{
  sum_of, sum_of-keep, sum_of-take, sum_of-sort, sum_of-ones, sum_of-map, sum_of-plus,
}
use rolebrief.Alerts.Outbox.{
  OutboxEvent, OutboxStatus, pending, processing, processed, failed, is_pending, is_processing,
  in_ids, ids_of, pending_events, stalled_events, oldest_first, stalest_first, reap_stalled_events,
}
use rolebrief.Alerts.Outbox.Rows.{Distinct, tally, tally-own}
use rolebrief.Alerts.Outbox.Moves.{
  failed_ids, reset_ids, fail_row, reset_row, IsRead, rows-IsRead, reap-as_map, stalled_now,
}

-- The moves that an event may still make, without a worker.
abbrev pub moves_left : ℕ → OutboxStatus → ℕ → ℕ
moves_left m pending attempts = 2 * (m - attempts) + 2
moves_left m processing attempts = 2 * (m - attempts) + 1
moves_left m processed attempts = 0
moves_left m failed attempts = 0

abbrev pub left_of : ℕ → OutboxEvent → ℕ
left_of m e = moves_left m e.status e.attempts

pub when_pending :
    (m a : ℕ) (s : OutboxStatus) → is_pending s ≡ true → moves_left m s a ≡ 2 * (m - a) + 2
when_pending m a pending h = refl
when_pending m a processing h = cc
when_pending m a processed h = cc
when_pending m a failed h = cc

when_processing :
    (m a : ℕ) (s : OutboxStatus) → is_processing s ≡ true → moves_left m s a ≡ 2 * (m - a) + 1
when_processing m a pending h = cc
when_processing m a processing h = refl
when_processing m a processed h = cc
when_processing m a failed h = cc

below : (m a : ℕ) → not (leb m a) ≡ true → a < m
below m a h = ground arith

-- The entries that a selection of the table takes are counted in the table.
selected :
    (f : OutboxEvent → ℕ) (n : ℕ) (c : OutboxEvent → OutboxEvent → ℤ) (p : OutboxEvent → Bool)
    (es : List OutboxEvent)
    → sum_of f (take n (sort c (keep p es))) ≤ sum_of f es
selected f n c p es =
    omega
      (arith, sum_of-take f n (sort c (keep p es)), sum_of-sort f c (keep p es), sum_of-keep f p es)

ids-tally : (sel : List OutboxEvent) → length (ids_of sel) ≡ sum_of (tally (ids_of sel)) sel
ids-tally sel =
    length-map sel (λ (e : OutboxEvent). e.id)
    ∙ sym (sum_of-ones (tally (ids_of sel)) sel (tally-own sel))

pub chosen_counted :
    (f : OutboxEvent → ℕ) (locked : ℕ → Bool) (n : ℕ) (es : List OutboxEvent)
    → sum_of f (pending_events locked n es) ≤ sum_of f es
unfolding pending_events
chosen_counted f locked n es = selected f n oldest_first _ es

stalled_counted :
    (f : OutboxEvent → ℕ) (q : OutboxEvent → Bool) (locked : ℕ → Bool) (cutoff : ℕ)
    (es : List OutboxEvent)
    → sum_of f (keep q (stalled_events locked cutoff es)) ≤ sum_of f es
unfolding stalled_events
stalled_counted f q locked cutoff es =
    let stalled = stalled_events locked cutoff es in
    omega (arith, sum_of-keep f q stalled, selected f 100 stalest_first _ es)

module _ (m now threshold : ℕ) (locked : ℕ → Bool) (es : List OutboxEvent) where
  abbrev lost : OutboxEvent → ℕ
  lost = tally (failed_ids m now threshold locked es)

  abbrev again : OutboxEvent → ℕ
  again = tally (reset_ids m now threshold locked es)

  reaped_row :
      (e : OutboxEvent)
      → IsRead m now threshold locked es e
      → (lost e + again e)
          + left_of m (reset_row m now threshold locked es (fail_row m now threshold locked es e))
        ≤ left_of m e
  reaped_row e (f, r) = elim (Bool-cases (in_ids (failed_ids m now threshold locked es) e)) [
    | inl gone ↦ elim (Bool-cases (in_ids (reset_ids m now threshold locked es) e)) [
      | inl both ↦ cc (rw (f gone).1 at (r both).1)
      | inr only ↦ rw (gone, only) (omega (arith, when_processing m e.attempts e.status (f gone).0))
    ]
    | inr kept ↦ elim (Bool-cases (in_ids (reset_ids m now threshold locked es) e)) [
      | inl back ↦
          rw (kept, back)
            (omega (
              arith,
              when_processing m e.attempts e.status (r back).0,
              below m e.attempts (r back).1,
            ))
      | inr untouched ↦ rw (kept, untouched) (omega arith)
    ]
  ]

  abbrev row : OutboxEvent → OutboxEvent
  row e = reset_row m now threshold locked es (fail_row m now threshold locked es e)

  abbrev gives_up : OutboxEvent → Bool
  gives_up e = leb m e.attempts

  failed_counted : length (failed_ids m now threshold locked es) ≤ sum_of lost es
  failed_counted = omega (
    arith,
    ids-tally (keep gives_up (stalled_now m now threshold locked es)),
    stalled_counted lost gives_up locked (now - threshold) es,
  )

  reset_counted : length (reset_ids m now threshold locked es) ≤ sum_of again es
  reset_counted = omega (
    arith,
    ids-tally (keep (λ e. not (gives_up e)) (stalled_now m now threshold locked es)),
    stalled_counted again (λ e. not (gives_up e)) locked (now - threshold) es,
  )

  reaped_counts : (reap_stalled_events now threshold m locked es).0 ≡ (
    length (reset_ids m now threshold locked es),
    length (failed_ids m now threshold locked es),
  )
  unfolding reap_stalled_events
  reaped_counts = refl

  pub reap-left :
      Pairs Distinct es
      → ((reap_stalled_events now threshold m locked es).0.0
            + (reap_stalled_events now threshold m locked es).0.1)
          + sum_of (left_of m) (reap_stalled_events now threshold m locked es).1
        ≤ sum_of (left_of m) es
  reap-left d =
      let rows : sum_of (λ e. lost e + again e) es + sum_of (left_of m) (map row es)
          ≤ sum_of (left_of m) es =
        sum_of-map (left_of m) (λ e. lost e + again e) (left_of m) row es
          (All-map_le (IsRead m now threshold locked es) _ es reaped_row
            (rows-IsRead m now threshold locked es d)) in
      let all : (length (reset_ids m now threshold locked es)
              + length (failed_ids m now threshold locked es))
            + sum_of (left_of m) (map row es)
          ≤ sum_of (left_of m) es =
        omega (arith, rows, sum_of-plus lost again es, failed_counted, reset_counted) in
      rw (reaped_counts, reap-as_map m now threshold locked es) all
