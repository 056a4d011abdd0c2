-- ===== src/Alerts/Service/Revisions.antt =====
-- Two changes of an alert at once (`updateAlert` and `setStatus` of
-- backend/src/modules/alerts/alerts.service.ts).
use rolebrief.Common.{
  ℕ, suc, Bool, true, false, ◌&&◌, ◌==◌, any, any-map-false, if◌then◌else◌, ◌≡◌, refl, arith,
  Bool-cases, inl, inr,
}
use rolebrief.Alerts.Types.{Alert}
use rolebrief.Alerts.Service.{Alerts, Served, serves, rejects, has_revision, commit_alert}

abbrev pub is_served : Served Alert → Bool
is_served (serves a) = true
is_served (rejects e) = false

stale_row :
    (id expected : ℕ) (change : Alert → Alert) (a : Alert)
    → has_revision id expected
        (if has_revision id expected a then record (change a) { revision = suc a.revision } else a)
      ≡ false
stale_row id expected change a = elim (Bool-cases (has_revision id expected a)) [
  | inr miss ↦ rw miss miss
  | inl hit ↦ rw hit (later (a.id == id) ((change a).id == id) a.revision hit)
]
  where
    later :
        (b c : Bool) (n : ℕ) → (b && (n == expected)) ≡ true → (c && (suc n == expected)) ≡ false
    later b c n h = ground arith

-- Where a change of an alert is written, the write of any other that expects the same revision is
-- rejected after it, and leaves the table as the first one made it, whatever both change and whatever
-- row the other one had read of the alert.
pub commit_alert_once :
    (expected : ℕ) (mine yours : Alert → Alert) (current seen : Alert) (t : Alerts)
    → is_served (commit_alert expected mine current t).0 ≡ true
    → seen.id ≡ current.id
    → (is_served (commit_alert expected yours seen (commit_alert expected mine current t).1).0
        ≡ false)
      × ((commit_alert expected yours seen (commit_alert expected mine current t).1).1
          ≡ (commit_alert expected mine current t).1)
unfolding commit_alert
commit_alert_once expected mine yours current seen t won same =
    elim (Bool-cases (any (has_revision current.id expected) t.rows)) [
      | inr stale ↦ cc (rw (stale, commit_alert) at won)
      | inl held ↦
          let lost =
            any-map-false (has_revision current.id expected)
              (λ a.
                if has_revision current.id expected a
                then record (mine a) { revision = suc a.revision }
                else a)
              t.rows (stale_row current.id expected mine) in
          rw (held, same, commit_alert) (rw (lost, commit_alert) (refl, refl))
    ]
