-- ===== src/Saved/Laws.antt =====
-- Saving a job once more, and taking it back
-- (backend/src/modules/saved/saved.service.ts).
use rolebrief.Common.{
  ℕ, suc, Bool, true, false, not, ◌||◌, some, some-injective, List, [], ◌∷◌, map, String, str_eq,
  str_eq_refl, ==_refl, keep, keep-map, All-intro, find, any, ◌≡◌, refl, ap, subst, ◌∙◌, arith,
  Bool-cases, Option-cases, inl, inr,
}
use rolebrief.Saved.{
  SavedItem, JobRef, SavedTables, is_saved_as, with_job, created_item, upsert, save_job, unsave_job,
}

not-true : {b : Bool} → not b ≡ true → b ≡ false
not-true {b} h = ground arith

module _ (user : ℕ) (slug : String) (job : ℕ) where
  same_key :
      (i : SavedItem) → is_saved_as user slug (with_job job user slug i) ≡ is_saved_as user slug i
  same_key i = ground arith

  twice :
      (i : SavedItem) → with_job job user slug (with_job job user slug i) ≡ with_job job user slug i
  twice i = elim (Bool-cases (is_saved_as user slug i)) [
    | inl saved ↦ rw (saved, with_job) (rw (saved, with_job) refl)
    | inr other ↦ rw (other, with_job) (rw (other, with_job) refl)
  ]

  any_again :
      (is : List SavedItem)
      → any (is_saved_as user slug) (map (with_job job user slug) is)
        ≡ any (is_saved_as user slug) is
  any_again [] = refl
  any_again (i ∷ is) = rw (same_key i) (ap (λ b. is_saved_as user slug i || b) (any_again is))

  map_again :
      (is : List SavedItem)
      → map (with_job job user slug) (map (with_job job user slug) is)
        ≡ map (with_job job user slug) is
  map_again [] = refl
  map_again (i ∷ is) = rw (twice i) (ap (λ r. with_job job user slug i ∷ r) (map_again is))

  map_alone :
      (is : List SavedItem)
      → any (is_saved_as user slug) is ≡ false
      → map (with_job job user slug) is ≡ is
  map_alone [] h = refl
  map_alone (i ∷ is) h = elim (Bool-cases (is_saved_as user slug i)) [
    | inl saved ↦ cc (rw (saved, any) at h)
    | inr other ↦ rw (other, with_job) (ap (λ r. i ∷ r) (map_alone is (rw (other, any) at h)))
  ]

  created_saved : (now id : ℕ) → is_saved_as user slug (created_item now id user slug job) ≡ true
  created_saved now id = rw (==_refl user) (rw (str_eq_refl slug) refl)

  upsert_again :
      (now later : ℕ) (t : SavedTables)
      → upsert later user slug job (upsert now user slug job t) ≡ upsert now user slug job t
  unfolding upsert
  upsert_again now later t = elim (Bool-cases (any (is_saved_as user slug) t.items)) [
    | inl there ↦
        rw (there, upsert)
          (rw (any_again t.items)
            (rw there (ap (λ is. record t { items = is }) (map_again t.items))))
    | inr missing ↦
        rw (missing, upsert)
          (rw (created_saved now t.next_id) (
            ap
              (λ is. record t {
                items = created_item now t.next_id user slug job ∷ is;
                next_id = suc t.next_id;
              })
              (map_alone t.items missing)))
  ]

  upsert-taken_back :
      (now : ℕ) (t : SavedTables)
      → keep (λ i. not (is_saved_as user slug i)) (upsert now user slug job t).items
        ≡ keep (λ i. not (is_saved_as user slug i)) t.items
  unfolding upsert
  upsert-taken_back now t = elim (Bool-cases (any (is_saved_as user slug) t.items)) [
    | inl there ↦
        rw (there, upsert)
          (keep-map _ (with_job job user slug) t.items (All-intro _ t.items unchanged))
    | inr missing ↦ rw (missing, upsert) (rw (created_saved now t.next_id) refl)
  ]
    where
      unchanged :
          (i : SavedItem)
          → (not (is_saved_as user slug (with_job job user slug i)) ≡ not (is_saved_as user slug i))
            × (not (is_saved_as user slug i) ≡ true → with_job job user slug i ≡ i)
      unchanged i = (ap not (same_key i), λ h. rw (not-true h, with_job) refl)

  upsert-saved :
      (now : ℕ) (t : SavedTables)
      → any (is_saved_as user slug) (upsert now user slug job t).items ≡ true
  unfolding upsert
  upsert-saved now t = elim (Bool-cases (any (is_saved_as user slug) t.items)) [
    | inl there ↦ rw (there, upsert) (any_again t.items ∙ there)
    | inr missing ↦ rw (missing, upsert) (rw (created_saved now t.next_id) refl)
  ]

  jobs_kept : (now : ℕ) (t : SavedTables) → (upsert now user slug job t).jobs ≡ t.jobs
  unfolding upsert
  jobs_kept now t = ground arith

save_job-found :
    (now user : ℕ) (slug : String) (t : SavedTables) (job : JobRef)
    → find (λ (j : JobRef). str_eq j.slug slug) t.jobs ≡ some job
    → save_job now user slug t ≡ some (upsert now user slug job.id t)
unfolding save_job
save_job-found now user slug t job found = rw (found, save_job) refl

-- A job that was saved is among the user's saved jobs; saved again, at any time, it changes nothing;
-- and taken back it leaves the rows that taking it back would have left before.
pub save_job_lem :
    (now later user : ℕ) (slug : String) (t t' : SavedTables)
    → save_job now user slug t ≡ some t'
    → (any (is_saved_as user slug) t'.items ≡ true)
      × (save_job later user slug t' ≡ some t')
      × ((unsave_job user slug t').items ≡ (unsave_job user slug t).items)
unfolding save_job unsave_job
save_job_lem now later user slug t t' e =
    elim (Option-cases (find (λ (j : JobRef). str_eq j.slug slug) t.jobs)) [
      | inl missing ↦ cc (rw (missing, save_job) at e)
      | inr (job, found) ↦
          let done : upsert now user slug job.id t ≡ t' =
            some-injective _ _ (rw (found, save_job) at e) in
          subst
            (λ r.
              (any (is_saved_as user slug) r.items ≡ true)
              × (save_job later user slug r ≡ some r)
              × ((unsave_job user slug r).items ≡ (unsave_job user slug t).items))
            done
            (
              upsert-saved user slug job.id now t,
              save_job-found later user slug (upsert now user slug job.id t) job (
                    ap (find (λ (j : JobRef). str_eq j.slug slug))
                      (jobs_kept user slug job.id now t)
                    ∙ found)
                  ∙ ap some (upsert_again user slug job.id now later t),
              upsert-taken_back user slug job.id now t,
            )
    ]
