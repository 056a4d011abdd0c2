-- ===== src/Alerts/Outbox/Rows.antt =====
-- The rows that an update by identifiers reaches
-- (backend/src/modules/alerts/job-outbox-dispatcher.service.ts).
use rolebrief.Common.{
  ℕ, true, List, [], ◌∷◌, ◌==◌, ==_refl, ==_iff, if◌then◌else◌, ◌≡◌, refl, sym, subst, arith, All,
  Pairs, All-intro, All-map_le, All-both, Bool-cases, inl, inr,
}
use rolebrief.Common.Keys
use rolebrief.Alerts.Outbox.{OutboxEvent, in_ids, ids_of}

abbrev pub Distinct : OutboxEvent → OutboxEvent → Type 0
Distinct = Keys.Distinct (λ (e : OutboxEvent). e.id)

abbrev pub IsOwner : List OutboxEvent → OutboxEvent → Type 0
IsOwner = Keys.IsOwner (λ (e : OutboxEvent). e.id)

pub owners : (es : List OutboxEvent) → Pairs Distinct es → All (IsOwner es) es
owners = Keys.owners (λ (e : OutboxEvent). e.id)

-- What holds of the selected rows holds of the rows with their identifiers.
pub reached :
    (P : OutboxEvent → Type 0) (es sel : List OutboxEvent)
    → All (λ x. IsOwner es x × P x) sel
    → All (λ e. in_ids (ids_of sel) e ≡ true → P e) es
reached P es [] h = All-intro _ es (λ e impossible. cc)
reached P es (x ∷ sel) h =
    All-map_le (λ (e : OutboxEvent). (x.id ≡ e.id → e ≡ x) × (in_ids (ids_of sel) e ≡ true → P e))
      (λ e. in_ids (ids_of (x ∷ sel)) e ≡ true → P e) es
      (λ e both hit. elim (Bool-cases (x.id == e.id)) [
        | inl same ↦ subst P (sym (both.0 ((==_iff x.id e.id).0 same))) h.0.1
        | inr other ↦ both.1 (rw other at hit)
      ])
      (All-both (λ (e : OutboxEvent). x.id ≡ e.id → e ≡ x) (λ e. in_ids (ids_of sel) e ≡ true → P e)
        es h.0.0 (reached P es sel h.1))

abbrev pub tally : List ℕ → OutboxEvent → ℕ
tally ids e = if in_ids ids e then 1 else 0

pub tally-own : (sel : List OutboxEvent) → All (λ x. tally (ids_of sel) x ≡ 1) sel
tally-own [] = tt
tally-own (x ∷ sel) = (
  rw (==_refl x.id) refl,
  All-map_le (λ y. tally (ids_of sel) y ≡ 1) (λ y. tally (ids_of (x ∷ sel)) y ≡ 1) sel
      (λ y h. ground arith) (tally-own sel),
)
