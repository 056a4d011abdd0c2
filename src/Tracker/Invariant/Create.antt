-- ===== src/Tracker/Invariant/Create.antt =====
-- `create` keeps the tables consistent.
use rolebrief.Common.{
  ℕ, ◌<◌, false, none, some, List, [], ◌∷◌, ◌≡◌, ◌≢◌, refl, arith, ◌==◌, All, All-both, String,
  All-map_le, All-find, find-none, Option-cases, inl, inr, ◌⊎◌, non_empty, ◌&&◌,
}
use rolebrief.Tracker.Types.{
  Lifecycle, active, archived, Application, JobRow, Store, CreateApplication, store_after,
}
use rolebrief.Tracker.Transitions.{validate_transition_refl}
use rolebrief.Tracker.Queries.{find_job, find_tracked, is_for}
use rolebrief.Tracker.Create.{
  Draft, manual_draft, job_draft, new_application, inserted_store, insert_application,
  restored_store, retrack, retrack_by, create, create_for_job, create_by_slug,
}
use rolebrief.Tracker.Invariant.{newest, IsConsistent, changed-IsConsistent}

pub Lifecycle-cases : (l : Lifecycle) → (l ≡ active) ⊎ (l ≡ archived)
Lifecycle-cases active = inl refl
Lifecycle-cases archived = inr refl

-- The drafted job is not among the user's rows.
abbrev Untracked : ℕ → Draft → List Application → Type 0
Untracked user d rows =
    All (λ a. (j : ℕ) → user ≡ a.user_id → d.job_id ≡ some j → a.job_id ≢ some j) rows

module _ (parse_date : String → ℕ) (now user : ℕ) (dto : CreateApplication) where
  inserted_store-IsConsistent :
      (d : Draft) (title : String) (s : Store)
      → Untracked user d s.applications
      → IsConsistent s
      → IsConsistent (inserted_store parse_date now user dto d title s)
  unfolding inserted_store new_application
  inserted_store-IsConsistent d title s new c = record {
    fresh = (
      omega arith,
      All-map_le _ _ s.applications (λ a (h : a.id < s.next_id). omega arith) c.fresh,
    );
    known = (
      omega arith,
      All-map_le _ _ s.history (λ h (k : h.application_id < s.next_id). omega arith) c.known,
    );
    legal = (tt, c.legal);
    current = (
      ground arith,
      All-map_le _ _ _
          (λ a (h : (a.id < s.next_id) × (newest a.id s.history ≡ some a.stage)). ground arith)
          (All-both _ _ s.applications c.fresh c.current),
    );
    apart = (
      All-map_le _ _ _
          (λ a
              (h : (a.id < s.next_id)
                × ((j : ℕ) → user ≡ a.user_id → d.job_id ≡ some j → a.job_id ≢ some j)).
            (omega arith, h.1))
          (All-both _ _ s.applications c.fresh new),
      c.apart,
    );
  }

  insert_application-IsConsistent :
      (d : Draft) (s : Store)
      → Untracked user d s.applications
      → IsConsistent s
      → IsConsistent (store_after s (insert_application parse_date now user dto d s))
  unfolding insert_application
  insert_application-IsConsistent d s new c = elim (Option-cases (non_empty d.role_title)) [
    | inl missing ↦ rw (missing, insert_application, store_after) c
    | inr (title, e) ↦
        rw (e, insert_application, store_after) (inserted_store-IsConsistent d title s new c)
  ]

  manual-Untracked : (rows : List Application) → Untracked user (manual_draft dto) rows
  unfolding manual_draft
  manual-Untracked [] = tt
  manual-Untracked (a ∷ rows) = ((λ j same none_job. cc), manual-Untracked rows)

  job-Untracked :
      (job : JobRow) (rows : List Application)
      → find_tracked user job.id rows ≡ none
      → Untracked user (job_draft dto job) rows
  unfolding job_draft find_tracked
  job-Untracked job rows e =
      All-map_le _ _ rows
        (λ a (miss : (a.user_id == user && is_for job.id a.job_id) ≡ false) j same drafted tracked.
          ground arith)
        (find-none _ rows e)

restored_store-IsConsistent :
    (now : ℕ) (existing : Application) (s : Store)
    → newest existing.id s.history ≡ some existing.stage
    → existing.id < s.next_id
    → IsConsistent s
    → IsConsistent (restored_store now existing s)
unfolding restored_store
restored_store-IsConsistent now existing s e f c =
    changed-IsConsistent _ (_ ∷ []) s (λ a. ground arith) (f, tt)
      (validate_transition_refl existing.stage, tt)
      (All-map_le _ _ s.applications (λ a (h : newest a.id s.history ≡ some a.stage). ground arith)
        c.current)
      c

retrack-IsConsistent :
    (l : Lifecycle) (now : ℕ) (existing : Application) (s : Store)
    → newest existing.id s.history ≡ some existing.stage
    → existing.id < s.next_id
    → IsConsistent s
    → IsConsistent (retrack_by l now existing s).1
retrack-IsConsistent active now existing s e f c = c
retrack-IsConsistent archived now existing s e f c =
    restored_store-IsConsistent now existing s e f c

module _ (parse_date : String → ℕ) (now user : ℕ) (dto : CreateApplication) (s : Store) where
  create_for_job-IsConsistent :
      (job : JobRow)
      → IsConsistent s
      → IsConsistent (store_after s (create_for_job parse_date now user dto job s))
  unfolding find_tracked retrack
  create_for_job-IsConsistent job c =
      elim (Option-cases (find_tracked user job.id s.applications)) [
        | inl new ↦
            rw (new, create_for_job)
              (insert_application-IsConsistent parse_date now user dto (job_draft dto job) s
                (job-Untracked parse_date now user dto job s.applications new) c)
        | inr (existing, found) ↦
            rw (found, create_for_job)
              (retrack-IsConsistent existing.lifecycle now existing s
                (All-find (λ a. newest a.id s.history ≡ some a.stage) _ s.applications c.current
                  found)
                (All-find (λ a. a.id < s.next_id) _ s.applications c.fresh found) c)
      ]

  -- Whatever the request, `create` keeps the tables consistent.
  pub create-IsConsistent :
      IsConsistent s → IsConsistent (store_after s (create parse_date now user dto s))
  unfolding create
  create-IsConsistent c = elim (Option-cases (non_empty dto.job_slug)) [
    | inl manual ↦
        rw (manual, create)
          (insert_application-IsConsistent parse_date now user dto (manual_draft dto) s
            (manual-Untracked parse_date now user dto s.applications) c)
    | inr (slug, linked) ↦ elim (Option-cases (find_job slug s.jobs)) [
      | inl missing ↦ rw (linked, create) (rw (missing, create_by_slug, store_after) c)
      | inr (job, found) ↦
          rw (linked, create)
            (rw (found, create_by_slug, store_after) (create_for_job-IsConsistent job c))
    ]
  ]
