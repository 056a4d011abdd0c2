-- ===== src/Alerts/Outbox/Quiet.antt =====
-- When the dispatcher and the reaper have nothing left to do
-- (backend/src/modules/alerts/job-outbox-dispatcher.service.ts).
use rolebrief.Common.{
  ℕ, suc, ◌+◌, ◌-◌, ◌≤◌, Bool, true, false, not, ◌&&◌, List, [], ◌∷◌, map, leb, length, length-map,
  length-take, is_empty, keep, take, ◌≡◌, refl, ap, arith, All, All-map_le, All-both, Bool-cases,
  inl, inr,
}
use rolebrief.Common.Sort.{sort, length-sort}
use rolebrief.Common.Int.{ℤ}
use rolebrief.Alerts.Outbox.{
  OutboxEvent, OutboxStatus, is_pending, is_processing, ids_of, pending_events, stalled_events,
  oldest_first, stalest_first, reap_stalled_events, dispatch_pending_events, EvaluateJob, queue_job,
}

abbrev pub is_settled : OutboxStatus → Bool
is_settled s = not (is_pending s) && not (is_processing s)

abbrev pub unlocked : ℕ → Bool
unlocked id = false

keep-length :
    (q : OutboxEvent → Bool) (xs : List OutboxEvent)
    → length (keep q xs) + length (keep (λ x. not (q x)) xs) ≡ length xs
keep-length q [] = omega arith
keep-length q (x ∷ xs) = elim (Bool-cases (q x)) [
  | inl passed ↦ rw passed (omega (arith, keep-length q xs))
  | inr dropped ↦ rw dropped (omega (arith, keep-length q xs))
]

none_kept :
    (p : OutboxEvent → Bool) (xs : List OutboxEvent)
    → length (keep p xs) ≡ 0
    → All (λ x. p x ≡ false) xs
none_kept p [] h = tt
none_kept p (x ∷ xs) h = elim (Bool-cases (p x)) [
  | inl passed ↦ ground (arith, rw passed at h)
  | inr dropped ↦ (dropped, none_kept p xs (rw dropped at h))
]

none_selected :
    (n : ℕ) (c : OutboxEvent → OutboxEvent → ℤ) (p : OutboxEvent → Bool) (es : List OutboxEvent)
    → length (take (suc n) (sort c (keep p es))) ≡ 0
    → All (λ x. p x ≡ false) es
none_selected n c p es h =
    none_kept p es
      (omega (arith, length-take (suc n) (sort c (keep p es)), length-sort c (keep p es), h))

ids_length : (xs : List OutboxEvent) → length (ids_of xs) ≡ length xs
ids_length xs = length-map xs (λ (e : OutboxEvent). e.id)

empty_length : (xs : List OutboxEvent) → is_empty xs ≡ true → length xs ≡ 0
empty_length [] h = refl
empty_length (x ∷ xs) h = cc

module _ {Q : Type 0} (add_bulk : List EvaluateJob → Q → Bool × Q) where
  none_pending :
      (now n : ℕ) (es : List OutboxEvent) (q : Q)
      → ((jobs : List EvaluateJob) (r : Q) → (add_bulk jobs r).0 ≡ true)
      → (dispatch_pending_events add_bulk false now (suc n) unlocked es q).0 ≡ 0
      → length (pending_events unlocked (suc n) es) ≡ 0
  unfolding dispatch_pending_events
  none_pending now n es q accepts h =
      let chosen = pending_events unlocked (suc n) es in
      elim (Bool-cases (is_empty chosen)) [
        | inl empty ↦ empty_length chosen empty
        | inr some_left ↦
            rw (some_left, accepts (map queue_job chosen) q, dispatch_pending_events) at h
      ]

none_stalled :
    (now threshold m : ℕ) (es : List OutboxEvent)
    → (reap_stalled_events now threshold m unlocked es).0 ≡ (0, 0)
    → length (stalled_events unlocked (now - threshold) es) ≡ 0
unfolding reap_stalled_events
none_stalled now threshold m es h =
    let stalled = stalled_events unlocked (now - threshold) es in
    let gone = keep (λ (e : OutboxEvent). leb m e.attempts) stalled in
    let back = keep (λ (e : OutboxEvent). not (leb m e.attempts)) stalled in
    let first : length (ids_of back) ≡ 0 = ap (λ (c : ℕ × ℕ). c.0) h in
    let second : length (ids_of gone) ≡ 0 = ap (λ (c : ℕ × ℕ). c.1) h in
    omega (
      arith,
      keep-length (λ (e : OutboxEvent). leb m e.attempts) stalled,
      ids_length gone,
      ids_length back,
      first,
      second,
    )

not_pending :
    (n : ℕ) (es : List OutboxEvent)
    → length (pending_events unlocked (suc n) es) ≡ 0
    → All (λ (e : OutboxEvent). is_pending e.status && not (unlocked e.id) ≡ false) es
unfolding pending_events
not_pending n es h =
    none_selected n oldest_first (λ (e : OutboxEvent). is_pending e.status && not (unlocked e.id))
      es h

not_stalled :
    (cutoff : ℕ) (es : List OutboxEvent)
    → length (stalled_events unlocked cutoff es) ≡ 0
    → All
        (λ (e : OutboxEvent).
          (is_processing e.status && leb e.updated_at cutoff) && not (unlocked e.id) ≡ false)
        es
unfolding stalled_events
not_stalled cutoff es h =
    none_selected 99 stalest_first
      (λ (e : OutboxEvent).
        (is_processing e.status && leb e.updated_at cutoff) && not (unlocked e.id))
      es h

settled_of :
    (cutoff : ℕ) (e : OutboxEvent)
    → is_pending e.status && not (unlocked e.id) ≡ false
    → (is_processing e.status && leb e.updated_at cutoff) && not (unlocked e.id) ≡ false
    → e.updated_at ≤ cutoff
    → is_settled e.status ≡ true
settled_of cutoff e p s old = ground arith

module _ {Q : Type 0} (add_bulk : List EvaluateJob → Q → Bool × Q) where
  -- With a queue that accepts, no other transaction on the table, and every row as old as the
  -- threshold of the reaper: if a dispatch that may take an event, and a reap, both report nothing,
  -- then each event is processed or failed.
  pub quiet_settled :
      (now n threshold m : ℕ) (es : List OutboxEvent) (q : Q)
      → ((jobs : List EvaluateJob) (r : Q) → (add_bulk jobs r).0 ≡ true)
      → All (λ (e : OutboxEvent). e.updated_at ≤ now - threshold) es
      → (dispatch_pending_events add_bulk false now (suc n) unlocked es q).0 ≡ 0
      → (reap_stalled_events now threshold m unlocked es).0 ≡ (0, 0)
      → All (λ (e : OutboxEvent). is_settled e.status ≡ true) es
  quiet_settled now n threshold m es q accepts old idle calm =
      All-map_le _ _ es (λ (e : OutboxEvent) h. settled_of (now - threshold) e h.0 h.1.0 h.1.1)
        (All-both _ _ es (not_pending n es (none_pending add_bulk now n es q accepts idle)) (
          All-both _ _ es (not_stalled (now - threshold) es (none_stalled now threshold m es calm))
            old))
