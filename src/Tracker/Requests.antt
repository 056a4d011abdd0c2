-- ===== src/Tracker/Requests.antt =====
-- The requests that the tracker's controller hands to the service, one after the other.
use rolebrief.Common.{ℕ, List, [], ◌∷◌, String}
use rolebrief.Tracker.Types.{Store, CreateApplication, UpdateApplication, JobRow, store_after}
use rolebrief.Tracker.Create.{create}
use rolebrief.Tracker.Update.{update, archive, restore, delete}
use rolebrief.Tracker.Invariant.{IsConsistent, no_applications, no_applications-IsConsistent}
use rolebrief.Tracker.Invariant.Create.{create-IsConsistent}
use rolebrief.Tracker.Invariant.Update.{update-IsConsistent}
use rolebrief.Tracker.Invariant.Delete.{delete-IsConsistent}

-- Each request comes from a user; the numbers are the application and the expected revision.
pub data Request : Type 0 where
  creates : ℕ → CreateApplication → Request
  updates : ℕ → ℕ → UpdateApplication → Request
  archives restores deletes : ℕ → ℕ → ℕ → Request

module _ (parse_date : String → ℕ) where
  unfoldable pub step : ℕ → Request → Store → Store
  step now (creates user dto) s = store_after s (create parse_date now user dto s)
  step now (updates user id dto) s = store_after s (update parse_date now user id dto s)
  step now (archives user id revision) s = store_after s (archive parse_date now user id revision s)
  step now (restores user id revision) s = store_after s (restore parse_date now user id revision s)
  step now (deletes user id revision) s = store_after s (delete user id revision s)

  unfoldable pub run : List (ℕ × Request) → Store → Store
  run [] s = s
  run ((now, r) ∷ rest) s = run rest (step now r s)

  pub step-IsConsistent :
      (now : ℕ) (r : Request) (s : Store) → IsConsistent s → IsConsistent (step now r s)
  unfolding step archive restore
  step-IsConsistent now (creates user dto) s c = create-IsConsistent parse_date now user dto s c
  step-IsConsistent now (updates user id dto) s c =
      update-IsConsistent parse_date now user id dto s c
  step-IsConsistent now (archives user id revision) s c =
      update-IsConsistent parse_date now user id _ s c
  step-IsConsistent now (restores user id revision) s c =
      update-IsConsistent parse_date now user id _ s c
  step-IsConsistent now (deletes user id revision) s c = delete-IsConsistent user id revision s c

  run_from-IsConsistent :
      (rs : List (ℕ × Request)) (s : Store) → IsConsistent s → IsConsistent (run rs s)
  unfolding run
  run_from-IsConsistent [] s c = c
  run_from-IsConsistent ((now, r) ∷ rest) s c =
      run_from-IsConsistent rest (step now r s) (step-IsConsistent now r s c)

  -- After any sequence of requests on an empty tracker, refused ones included: identifiers are
  -- unique, no user tracks a job twice, every history row is a first entry or a move that
  -- `validateTransition` accepts, and the newest history row of each application leads to its stage.
  pub run-IsConsistent :
      (jobs : List JobRow) (rs : List (ℕ × Request)) → IsConsistent (run rs (no_applications jobs))
  run-IsConsistent jobs rs =
      run_from-IsConsistent rs (no_applications jobs) (no_applications-IsConsistent jobs)
