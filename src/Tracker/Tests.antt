-- ===== src/Tracker/Tests.antt =====
-- The tracker on one job and two users.
use rolebrief.Common.{
  ℕ, none, some, true, false, List, [], ◌∷◌, String, utf16_length, ◌≡◌, ◌≢◌, refl, subst, arith,
}
use rolebrief.Tracker.Types.{
  Stage, saved, applied, interviewing, offer, withdrawn, active, Application, Store,
  CreateApplication, UpdateApplication, live, JobRow, Created, stale, ok, err, invalid_transition,
  role_title_required,
}
use rolebrief.Tracker.Transitions.{validate_transition}
use rolebrief.Tracker.Queries.{find_job, find_tracked, find_application, serialize, view_of}
use rolebrief.Tracker.Create.{
  create, insert_application, inserted_store, new_application, job_draft, manual_draft,
}
use rolebrief.Tracker.Update.{
  lifecycle_only, updated_store, update_commit, update_read, apply_update, delete_commit,
  deleted_store,
}
use rolebrief.Tracker.Requests.{Request, creates, updates, archives, step, run, run-IsConsistent}
use rolebrief.Tracker.Invariant.{IsConsistent, no_applications}
use rolebrief.Tracker.Locking.{update_commit_once}
use rolebrief.Tracker.Retracking.{create_again}
use rolebrief.Tracker.Isolation.{owned, request_user, owned-step}

abbrev parse : String → ℕ
parse = utf16_length

abbrev vacancy : JobRow
vacancy = record {
  id = 9;
  slug = "dev";
  canonical_title = "Developer";
  company = none;
  source_name = some "board";
  provider_records = [];
  work_mode = "REMOTE";
  location_names = "Berlin" ∷ [];
  application_deadline_at = none;
  status = live;
  expires_at = none;
}

abbrev nothing_asked : CreateApplication
nothing_asked = record {
  job_slug = none;
  role_title = none;
  company_name = none;
  stage = none;
  applied_at = none;
  next_action = none;
  next_action_at = none;
  notes = none;
  reminder_at = none;
  interview_at = none;
  application_url = none;
  source_url = none;
  source_label = none;
  contact_name = none;
  contact_email = none;
}

abbrev by_slug : CreateApplication
by_slug = record nothing_asked { job_slug = some "dev" }

abbrev moved_to : ℕ → Stage → UpdateApplication
moved_to revision to = record (lifecycle_only revision active) { stage = some to }

abbrev empty_store : Store
empty_store = no_applications (vacancy ∷ [])

abbrev row : Application
row = new_application parse 5 1 0 by_slug (job_draft by_slug vacancy) "Developer"

-- User 1 tracks the vacancy at time 5.
abbrev tracked_store : Store
tracked_store = inserted_store parse 5 1 by_slug (job_draft by_slug vacancy) "Developer" empty_store

abbrev tracked_view : Created
tracked_view = record {
  view = serialize 5 none tracked_store.history row;
  already_tracked = false;
  restored = false;
}

abbrev first_request : List (ℕ × Request)
first_request = (5, creates 1 by_slug) ∷ []

tracks : create parse 5 1 by_slug empty_store ≡ ok (tracked_view, tracked_store)
unfolding create insert_application find_job find_tracked job_draft
tracks = refl

tracks_by_run : run parse first_request empty_store ≡ tracked_store
unfolding run step create insert_application find_job find_tracked job_draft
tracks_by_run = refl

tracked-IsConsistent : IsConsistent tracked_store
tracked-IsConsistent =
    subst IsConsistent tracks_by_run (run-IsConsistent parse (vacancy ∷ []) first_request)

title_missing : create parse 5 1 nothing_asked empty_store ≡ err role_title_required
unfolding create insert_application manual_draft
title_missing = refl

-- Applied at time 6.
abbrev move : UpdateApplication
move = moved_to 0 applied

abbrev moved_store : Store
moved_store = updated_store parse 6 1 0 move row tracked_store

moves :
    update_commit parse 6 1 0 move row tracked_store
    ≡ ok (view_of 6 moved_store (apply_update parse 6 move row), moved_store)
unfolding update_commit updated_store inserted_store new_application apply_update
moves = refl

skips_ahead :
    update_read 6 1 0 (moved_to 0 offer) tracked_store ≡ err (invalid_transition saved offer)
unfolding update_read find_application inserted_store new_application validate_transition
skips_ahead = refl

abbrev emptied_store : Store
emptied_store = deleted_store 1 0 0 tracked_store

removes : delete_commit 1 0 0 tracked_store ≡ ok (0, emptied_store)
unfolding delete_commit inserted_store new_application
removes = refl

abbrev three_requests : List (ℕ × Request)
three_requests = (5, creates 1 by_slug) ∷ (6, updates 1 0 move) ∷ (7, archives 1 0 1) ∷ []

run-IsConsistent_example : IsConsistent (run parse three_requests empty_store)
run-IsConsistent_example = run-IsConsistent parse (vacancy ∷ []) three_requests

update_commit_once_example :
    update_commit parse 7 1 0 (moved_to 0 withdrawn) row moved_store ≡ err (stale row.revision none)
update_commit_once_example =
    update_commit_once parse 1 0 0 6 7 move (moved_to 0 withdrawn) row row tracked_store moved_store
      (view_of 6 moved_store (apply_update parse 6 move row)) refl refl moves

finds_row : find_application 1 0 tracked_store.applications ≡ some row
unfolding find_application inserted_store new_application
finds_row = refl

is_active : row.lifecycle ≡ active
unfolding new_application
is_active = refl

create_again_example :
    (d : Created) × (create parse 8 1 by_slug tracked_store ≡ ok (d, tracked_store))
    × (d.already_tracked ≡ true)
create_again_example =
    create_again parse 5 8 1 by_slug by_slug "dev" empty_store tracked_store tracked_view refl refl
      tracks

two_ne_one : request_user (updates 2 0 move) ≢ 1
two_ne_one e = omega arith

owned-step_example : owned 1 (step parse 6 (updates 2 0 move) tracked_store) ≡ owned 1 tracked_store
owned-step_example =
    owned-step parse 6 1 (updates 2 0 move) tracked_store tracked-IsConsistent two_ne_one

accepted : validate_transition interviewing offer ≡ true
unfolding validate_transition
accepted = refl

interviewing_ne_offer : interviewing ≢ offer
interviewing_ne_offer e = cc
