-- ===== src/Alerts/Service/Limit.antt =====
-- The number of a user's alerts (backend/src/modules/alerts/alerts.service.ts and
-- backend/src/modules/alerts/alerts.controller.ts).
use rolebrief.Common.{
  ℕ, suc, ◌≤◌, Bool, false, not, ◌&&◌, List, [], ◌∷◌, map, String, ◌==◌, keep, any, length,
  if◌then◌else◌, ◌≡◌, refl, sym, ap, ◌∙◌, arith, All, All-map, All-keep, Bool-cases, inl, inr,
}
use rolebrief.Alerts.Types.{Alert, active, paused}
use rolebrief.Alerts.Service.{
  Alerts, CreateAlert, UpdateAlert, Served, serves, rejects, UnsubscribeAction, is_disabled,
  counts_for, has_revision, create_alert, commit_alert, then_commit, update_alert, set_status,
  without, delete_alert, handle_unsubscribe,
}

-- What the controller hands to the service; an alert is paused or resumed.
pub data AlertRequest : Type 0 where
  creates : ℕ → CreateAlert → AlertRequest
  updates : ℕ → ℕ → UpdateAlert → AlertRequest
  pauses_alert resumes_alert : ℕ → ℕ → ℕ → AlertRequest
  deletes_alert : ℕ → ℕ → AlertRequest
  unsubscribes : UnsubscribeAction → ℕ → ℕ → AlertRequest

module _ (to_upper : String → String) where
  abbrev pub serve : AlertRequest → Alerts → Alerts
  serve (creates user dto) t = (create_alert to_upper user dto t).1
  serve (updates user id dto) t = (update_alert to_upper user id dto t).1
  serve (pauses_alert user id expected) t = (set_status user id paused expected t).1
  serve (resumes_alert user id expected) t = (set_status user id active expected t).1
  serve (deletes_alert user id) t = (delete_alert user id t).1
  serve (unsubscribes action user id) t = (handle_unsubscribe action user id t).1

  unfoldable pub serve_all : List AlertRequest → Alerts → Alerts
  serve_all [] t = t
  serve_all (r ∷ rest) t = serve_all rest (serve r t)

abbrev pub IsInUse : Alert → Type 0
IsInUse a = is_disabled a.status ≡ false

-- No alert is disabled, and no user has more than ten.
pub record IsLimited (rows : List Alert) : Type 0 where
  pub in_use : All IsInUse rows
  pub few : (user : ℕ) → length (keep (counts_for user) rows) ≤ 10

-- A change that leaves the owner alone, and an alert in use in use.
pub record Spares (change : Alert → Alert) : Type 0 where
  pub same_owner : (a : Alert) → (change a).user_id ≡ a.user_id
  pub still_used : (a : Alert) → IsInUse a → IsInUse (change a)

count-map :
    (change : Alert → Alert) (user : ℕ) (rows : List Alert)
    → Spares change
    → All IsInUse rows
    → length (keep (counts_for user) (map change rows)) ≡ length (keep (counts_for user) rows)
count-map change user [] spares used = refl
count-map change user (a ∷ rows) spares used =
    let same : counts_for user (change a) ≡ counts_for user a =
      ap (λ i. i == user && not (is_disabled (change a).status)) (spares.same_owner a)
      ∙ ap (λ b. a.user_id == user && not b) (spares.still_used a used.0 ∙ sym used.0) in
    elim (Bool-cases (counts_for user a)) [
      | inl counted ↦
          rw (same ∙ counted, counted) (ap suc (count-map change user rows spares used.1))
      | inr other ↦ rw (same ∙ other, other) (count-map change user rows spares used.1)
    ]

pub changed-IsLimited :
    (change : Alert → Alert) (rows : List Alert)
    → Spares change
    → IsLimited rows
    → IsLimited (map change rows)
changed-IsLimited change rows spares l = record {
  in_use = All-map IsInUse IsInUse change rows spares.still_used l.in_use;
  few = λ user. omega (arith, count-map change user rows spares l.in_use, l.few user);
}

fewer_kept :
    (p q : Alert → Bool) (rows : List Alert) → length (keep p (keep q rows)) ≤ length (keep p rows)
fewer_kept p q [] = omega arith
fewer_kept p q (a ∷ rows) = elim (Bool-cases (q a)) [
  | inl kept ↦ rw kept (elim (Bool-cases (p a)) [
    | inl counted ↦ rw counted (omega (arith, fewer_kept p q rows))
    | inr other ↦ rw other (fewer_kept p q rows)
  ])
  | inr dropped ↦ rw dropped (elim (Bool-cases (p a)) [
    | inl counted ↦ rw counted (omega (arith, fewer_kept p q rows))
    | inr other ↦ rw other (fewer_kept p q rows)
  ])
]

pub without-IsLimited : (id : ℕ) (rows : List Alert) → IsLimited rows → IsLimited (without id rows)
without-IsLimited id rows l = record {
  in_use = All-keep IsInUse (λ (a : Alert). not (a.id == id)) rows l.in_use;
  few = λ user.
      omega
        (arith, fewer_kept (counts_for user) (λ (a : Alert). not (a.id == id)) rows, l.few user);
}

-- A change of the rows that pass a test.
guarded-Spares :
    (p : Alert → Bool) (change : Alert → Alert)
    → Spares change
    → Spares (λ a. if p a then change a else a)
guarded-Spares p change spares = record {
  same_owner = λ a. elim (Bool-cases (p a)) [
    | inl hit ↦ rw hit (spares.same_owner a)
    | inr miss ↦ rw miss refl
  ];
  still_used = λ a used. elim (Bool-cases (p a)) [
    | inl hit ↦ rw hit (spares.still_used a used)
    | inr miss ↦ rw miss used
  ];
}

pub commit-IsLimited :
    (expected : ℕ) (change : Alert → Alert) (current : Served Alert) (t : Alerts)
    → Spares change
    → IsLimited t.rows
    → IsLimited (then_commit current expected change t).1.rows
unfolding commit_alert
commit-IsLimited expected change (rejects e) t spares l = l
commit-IsLimited expected change (serves current) t spares l =
    elim (Bool-cases (any (has_revision current.id expected) t.rows)) [
      | inr stale ↦ rw (stale, then_commit, commit_alert) l
      | inl held ↦
          rw (held, then_commit, commit_alert)
            (changed-IsLimited _ t.rows
              (guarded-Spares (has_revision current.id expected)
                (λ a. record (change a) { revision = suc a.revision })
                (record { same_owner = spares.same_owner; still_used = spares.still_used }))
              l)
    ]
