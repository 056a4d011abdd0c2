-- ===== src/Tracker/Isolation.antt =====
-- A request touches no application of another user.
use rolebrief.Common.{
  ℕ, true, false, not, ◌&&◌, some, List, ◌≡◌, ◌≢◌, refl, arith, ◌==◌, if◌then◌else◌, any, keep,
  keep-map, keep-keep, find-holds, All-map_le, All-intro, String, ==_iff, Bool-cases, Option-cases,
  inl, inr, ◌∙◌, non_empty, ap, sym,
}
use rolebrief.Tracker.Types.{
  Lifecycle, active, archived, Application, Store, CreateApplication, UpdateApplication, JobRow,
  Result-cases, store_after,
}
use rolebrief.Tracker.Queries.{find_job, find_tracked, is_for}
use rolebrief.Tracker.Create.{
  Draft, manual_draft, job_draft, inserted_store, new_application, insert_application,
  restored_store, retrack, retrack_by, taken_up, create_for_job, create_by_slug, create,
}
use rolebrief.Tracker.Update.{
  is_target, apply_update, updated_store, update_read, update_commit, update, archive, restore,
  deleted_store, delete_read, delete_commit, delete,
}
use rolebrief.Tracker.Locking.{update_commit-store}
use rolebrief.Tracker.Invariant.{IsConsistent, same_row}
use rolebrief.Tracker.Invariant.Update.{written}
use rolebrief.Tracker.Requests.{Request, creates, updates, archives, restores, deletes, step}

abbrev pub request_user : Request → ℕ
request_user (creates user dto) = user
request_user (updates user id dto) = user
request_user (archives user id revision) = user
request_user (restores user id revision) = user
request_user (deletes user id revision) = user

-- The applications of a user, in the order of the table.
abbrev pub owned : ℕ → Store → List Application
owned user s = keep (λ a. a.user_id == user) s.applications

module _ (user other : ℕ) (apart : user ≢ other) where
  module _ (parse_date : String → ℕ) (now : ℕ) (dto : CreateApplication) (s : Store) where
    owned-insert :
        (d : Draft)
        → owned other (store_after s (insert_application parse_date now user dto d s))
          ≡ owned other s
    unfolding insert_application inserted_store new_application
    owned-insert d = elim (Option-cases (non_empty d.role_title)) [
      | inl missing ↦ rw (missing, insert_application, store_after)
      | inr (title, e) ↦ rw (e, insert_application, store_after) (ground arith)
    ]

    owned-restored :
        (job : ℕ) (a : Application)
        → IsConsistent s
        → find_tracked user job s.applications ≡ some a
        → owned other (restored_store now a s) ≡ owned other s
    unfolding restored_store find_tracked
    owned-restored job a c found =
        let mine : a.user_id ≡ user = keyed a job (find-holds _ s.applications found) in
        keep-map _ _ s.applications (
          All-map_le _ _ s.applications
            (λ b (h : b.id ≡ a.id → b ≡ a). (ground arith, spared a b mine h))
            (same_row _ s.applications c.apart found))
      where
        spared :
            (a b : Application)
            → a.user_id ≡ user
            → (b.id ≡ a.id → b ≡ a)
            → (b.user_id == other) ≡ true
            → (if b.id == a.id then taken_up now b else b) ≡ b
        spared a b mine h e = elim (Bool-cases (b.id == a.id)) [
          | inl same ↦
              let owner : b.user_id ≡ a.user_id =
                ap (λ (x : Application). x.user_id) (h ((==_iff _ _).0 same)) in
              absurd (apart (sym mine ∙ sym owner ∙ (==_iff _ _).0 e))
          | inr different ↦ rw different
        ]

        keyed :
            (a : Application) (job : ℕ)
            → (a.user_id == user && is_for job a.job_id) ≡ true
            → a.user_id ≡ user
        keyed a job h = ground arith

    owned-retrack :
        (l : Lifecycle) (job : ℕ) (a : Application)
        → IsConsistent s
        → find_tracked user job s.applications ≡ some a
        → owned other (retrack_by l now a s).1 ≡ owned other s
    owned-retrack active job a c found = refl
    owned-retrack archived job a c found = owned-restored job a c found

    owned-create_for_job :
        (job : JobRow)
        → IsConsistent s
        → owned other (store_after s (create_for_job parse_date now user dto job s)) ≡ owned other s
    unfolding retrack
    owned-create_for_job job c = elim (Option-cases (find_tracked user job.id s.applications)) [
      | inl new ↦ rw (new, create_for_job) (owned-insert (job_draft dto job))
      | inr (a, found) ↦ rw (found, create_for_job) (owned-retrack a.lifecycle job.id a c found)
    ]

    owned-create :
        IsConsistent s
        → owned other (store_after s (create parse_date now user dto s)) ≡ owned other s
    unfolding create
    owned-create c = elim (Option-cases (non_empty dto.job_slug)) [
      | inl manual ↦ rw (manual, create) (owned-insert (manual_draft dto))
      | inr (slug, linked) ↦ elim (Option-cases (find_job slug s.jobs)) [
        | inl missing ↦ rw (linked, create) (rw (missing, create_by_slug, store_after))
        | inr (job, found) ↦
            rw (linked, create) (rw (found, create_by_slug) (owned-create_for_job job c))
      ]
    ]

  written_owner :
      (parse_date : String → ℕ) (now id : ℕ) (dto : UpdateApplication) (b : Application)
      → ((written parse_date now user id dto b).user_id == other) ≡ (b.user_id == other)
  unfolding apply_update
  written_owner parse_date now id dto b = ground arith

  written_spared :
      (parse_date : String → ℕ) (now id : ℕ) (dto : UpdateApplication) (b : Application)
      → (b.user_id == other) ≡ true
      → written parse_date now user id dto b ≡ b
  written_spared parse_date now id dto b e =
      let missed : is_target user id dto.expected_revision b ≡ false = ground arith in rw missed

  owned-update :
      (parse_date : String → ℕ) (now id : ℕ) (dto : UpdateApplication) (s : Store)
      → owned other (store_after s (update parse_date now user id dto s)) ≡ owned other s
  unfolding update updated_store apply_update
  owned-update parse_date now id dto s = elim (Result-cases (update_read now user id dto s)) [
    | inl (e, refused) ↦ rw (refused, update, store_after)
    | inr (a, read) ↦ elim (Result-cases (update_commit parse_date now user id dto a s)) [
      | inl (e, refused) ↦ rw (read, update) (rw (refused, store_after))
      | inr ((v, s'), done) ↦
          rw (read, update)
            (rw (done, store_after)
              (ap (owned other) (update_commit-store parse_date now user id dto a s s' v done)
                ∙ keep-map _ _ s.applications (
                    All-intro _ s.applications (λ b. (
                      written_owner parse_date now id dto b,
                      written_spared parse_date now id dto b,
                    )))))
    ]
  ]

  owned-delete :
      (id revision : ℕ) (s : Store)
      → owned other (store_after s (delete user id revision s)) ≡ owned other s
  unfolding delete delete_commit deleted_store
  owned-delete id revision s = elim (Result-cases (delete_read user id revision s)) [
    | inl (e, refused) ↦ rw (refused, delete, store_after)
    | inr (a, read) ↦ elim (Bool-cases (any (is_target user id revision) s.applications)) [
      | inl hit ↦
          rw (read, delete)
            (rw (hit, delete_commit, store_after)
              (keep-keep _ (λ b. not (is_target user id revision b)) s.applications
                (All-intro _ s.applications (λ b e. ground arith))))
      | inr miss ↦ rw (read, delete) (rw (miss, delete_commit, store_after))
    ]
  ]

-- Whatever a user requests, in consistent tables, the applications of every other user stay as they
-- are, in their order.
pub owned-step :
    (parse_date : String → ℕ) (now other : ℕ) (r : Request) (s : Store)
    → IsConsistent s
    → request_user r ≢ other
    → owned other (step parse_date now r s) ≡ owned other s
unfolding step archive restore
owned-step parse_date now other (creates user dto) s c d =
    owned-create user other d parse_date now dto s c
owned-step parse_date now other (updates user id dto) s c d =
    owned-update user other d parse_date now id dto s
owned-step parse_date now other (archives user id revision) s c d =
    owned-update user other d parse_date now id _ s
owned-step parse_date now other (restores user id revision) s c d =
    owned-update user other d parse_date now id _ s
owned-step parse_date now other (deletes user id revision) s c d =
    owned-delete user other d id revision s
