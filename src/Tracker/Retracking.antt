-- ===== src/Tracker/Retracking.antt =====
-- Tracking a job that the user tracks already.
use rolebrief.Common.{
  ℕ, true, false, some, ◌≡◌, refl, arith, find-map, String, Option-cases, inl, inr, ap, ◌∙◌, subst,
  non_empty, ==_refl,
}
use rolebrief.Tracker.Types.{
  Application, active, Store, JobRow, CreateApplication, Created, ok, ok-injective,
}
use rolebrief.Tracker.Queries.{find_job, find_tracked, is_for, view_of}
use rolebrief.Tracker.Create.{
  Draft, job_draft, new_application, inserted_store, insert_application, restored_store, retrack,
  retrack_by, taken_up, create_for_job, create_by_slug, create,
}
use rolebrief.Tracker.Invariant.Create.{Lifecycle-cases}

-- The user tracks the job, and the application is active.
abbrev IsTracked : ℕ → ℕ → Store → Type 0
IsTracked user job s =
    (a : Application) × (find_tracked user job s.applications ≡ some a) × (a.lifecycle ≡ active)

abbrev found_tracked : ℕ → Application → Store → Created
found_tracked now a s = record { view = view_of now s a; already_tracked = true; restored = false }

retrack-active :
    (now : ℕ) (a : Application) (s : Store)
    → a.lifecycle ≡ active
    → retrack now a s ≡ (found_tracked now a s, s)
unfolding retrack
retrack-active now a s live = ap (λ l. retrack_by l now a s) live

module _ (parse_date : String → ℕ) (now user : ℕ) (dto : CreateApplication) (job : JobRow) where
  inserted-IsTracked :
      (d : Draft) (title : String) (s : Store)
      → d.job_id ≡ some job.id
      → IsTracked user job.id (inserted_store parse_date now user dto d title s)
  unfolding inserted_store new_application find_tracked
  inserted-IsTracked d title s e = (
    new_application parse_date now user s.next_id dto d title,
    rw (e, is_for) (rw (==_refl user, ==_refl job.id)),
    refl,
  )

  retrack-IsTracked :
      (a : Application) (s : Store)
      → find_tracked user job.id s.applications ≡ some a
      → IsTracked user job.id (retrack now a s).1
  unfolding find_tracked retrack restored_store
  retrack-IsTracked a s found = elim (Lifecycle-cases a.lifecycle) [
    | inl live ↦ (a, rw (retrack-active now a s live) found, live)
    | inr gone ↦ (
      taken_up now a,
      rw (gone, retrack)
          (find-map _ _ s.applications (λ b. ground arith) found ∙ rw (==_refl a.id)),
      refl,
    )
  ]

  retrack_jobs : (a : Application) (s : Store) → (retrack now a s).1.jobs ≡ s.jobs
  unfolding retrack restored_store
  retrack_jobs a s = ground arith

  inserted :
      (s : Store) (title : String)
      → IsTracked user job.id (inserted_store parse_date now user dto (job_draft dto job) title s)
        × ((inserted_store parse_date now user dto (job_draft dto job) title s).jobs ≡ s.jobs)
  unfolding inserted_store job_draft
  inserted s title = (inserted-IsTracked (job_draft dto job) title s refl, refl)

  create_for_job-IsTracked :
      (s s' : Store) (c : Created)
      → create_for_job parse_date now user dto job s ≡ ok (c, s')
      → IsTracked user job.id s' × (s'.jobs ≡ s.jobs)
  unfolding insert_application
  create_for_job-IsTracked s s' c e =
      elim (Option-cases (find_tracked user job.id s.applications)) [
        | inr (a, found) ↦
            arrive s s' c _ (rw (found, create_for_job) at e)
              (retrack-IsTracked a s found, retrack_jobs a s)
        | inl new ↦ elim (Option-cases (non_empty (job_draft dto job).role_title)) [
          | inl missing ↦ cc (rw (missing, insert_application) at (rw (new, create_for_job) at e))
          | inr (title, t) ↦
              arrive s s' c _ (rw (t, insert_application) at (rw (new, create_for_job) at e))
                (inserted s title)
        ]
      ]
    where
      arrive :
          (s s' : Store) (c : Created) (t : Created × Store)
          → ok t ≡ ok (c, s')
          → IsTracked user job.id t.1 × (t.1.jobs ≡ s.jobs)
          → IsTracked user job.id s' × (s'.jobs ≡ s.jobs)
      arrive s s' c t e h =
          subst (λ (q : Created × Store). IsTracked user job.id q.1 × (q.1.jobs ≡ s.jobs))
            (ok-injective e) h

  -- A job that is tracked and active is found again, and nothing is written.
  tracked_again :
      (s : Store)
      → IsTracked user job.id s
      → (c : Created) × (create_for_job parse_date now user dto job s ≡ ok (c, s))
        × (c.already_tracked ≡ true)
  tracked_again s (a, found, live) =
      (found_tracked now a s, rw (found, create_for_job) (rw (retrack-active now a s live)), refl)

create_tracked :
    (parse_date : String → ℕ) (now user : ℕ) (dto : CreateApplication) (slug : String)
    (job : JobRow) (s : Store)
    → non_empty dto.job_slug ≡ some slug
    → find_job slug s.jobs ≡ some job
    → IsTracked user job.id s
    → (d : Created) × (create parse_date now user dto s ≡ ok (d, s)) × (d.already_tracked ≡ true)
unfolding create
create_tracked parse_date now user dto slug job s e found tracked =
    let (d, again, flag) = tracked_again parse_date now user dto job s tracked in
    (d, rw (e, create) (rw (found, create_by_slug) again), flag)

-- A second request to track the same job, whatever else it asks for, finds it tracked and writes
-- nothing: `create` is idempotent on jobs.
pub create_again :
    (parse_date : String → ℕ) (now later user : ℕ) (first second : CreateApplication)
    (slug : String) (s s' : Store) (c : Created)
    → non_empty first.job_slug ≡ some slug
    → non_empty second.job_slug ≡ some slug
    → create parse_date now user first s ≡ ok (c, s')
    → (d : Created) × (create parse_date later user second s' ≡ ok (d, s'))
      × (d.already_tracked ≡ true)
unfolding create
create_again parse_date now later user first second slug s s' c e f done =
    elim (Option-cases (find_job slug s.jobs)) [
      | inl missing ↦ cc (rw (missing, create_by_slug) at (rw (e, create) at done))
      | inr (job, found) ↦
          let made = rw (found, create_by_slug) at (rw (e, create) at done) in
          let (tracked, same_jobs) =
            create_for_job-IsTracked parse_date now user first job s s' c made in
          create_tracked parse_date later user second slug job s' f
            (ap (find_job slug) same_jobs ∙ found) tracked
    ]
