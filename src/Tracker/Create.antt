-- ===== src/Tracker/Create.antt =====
-- `create` of backend/src/modules/tracker/tracker.service.ts. `parse_date` is what `new Date(text)`
-- makes of a date that the request validation has accepted; `now` is the instant of the call.
use rolebrief.Common.{
  ℕ, suc, ◌+◌, true, false, Option, none, some, List, [], ◌∷◌, String, if◌then◌else◌, or_else,
  or_null, is_empty, present, non_empty, trim, join,
}
use mathlib.Core.Option
use rolebrief.Tracker.Types.{
  Lifecycle, Stage, saved, applied, active, archived, Application, HistoryRow, ProviderRecord,
  Company, JobRow, Store, CreateApplication, Created, job_not_found, role_title_required, Result,
  ok, err,
}
use rolebrief.Tracker.Queries.{find_job, find_tracked, serialize, view_of, update_where}

-- What `create` has collected before it inserts the row.
pub record Draft : Type 0 where
  pub job_id : Option ℕ
  pub role_title : Option String
  pub company_name : Option String
  pub job_slug : Option String
  pub provider_name : Option String
  pub application_url : Option String
  pub location_label : Option String
  pub work_mode : Option String
  pub employer_deadline_at : Option ℕ

-- Without a job: what the request itself says.
unfoldable pub manual_draft : CreateApplication → Draft
manual_draft dto = record {
  job_id = none;
  role_title = Option.map trim dto.role_title;
  company_name = non_empty (Option.map trim dto.company_name);
  job_slug = none;
  provider_name = none;
  application_url = none;
  location_label = none;
  work_mode = none;
  employer_deadline_at = none;
}

abbrev company_title : Option Company → Option String
company_title none = none
company_title (some c) = non_empty (some c.canonical_name)

abbrev first_url : List ProviderRecord → Option String
first_url [] = none
first_url (p ∷ rest) = or_null (non_empty p.application_url) (non_empty p.source_url)

-- With a job: the request's title and company come before the job's.
unfoldable pub job_draft : CreateApplication → JobRow → Draft
unfolding manual_draft
job_draft dto job =
    let own = manual_draft dto in
    record {
      job_id = some job.id;
      role_title = or_null (non_empty own.role_title) (some job.canonical_title);
      company_name = or_null own.company_name (company_title job.company);
      job_slug = some job.slug;
      provider_name = some (or_else (non_empty job.source_name) "Himalayas");
      application_url = first_url job.provider_records;
      location_label =
          if is_empty job.location_names then none else some (join ", " job.location_names);
      work_mode = some job.work_mode;
      employer_deadline_at = job.application_deadline_at;
    }

abbrev applied_now : Stage → ℕ → Option ℕ
applied_now applied now = some now
applied_now _ now = none

-- `text ? new Date(text) : null`
abbrev pub date_or_null : (String → ℕ) → Option String → Option ℕ
date_or_null parse_date t = Option.map parse_date (non_empty t)

abbrev initial_stage : CreateApplication → Stage
initial_stage dto = or_else dto.stage saved

-- The row that `tx.application.create` inserts, with the defaults of the schema.
unfoldable pub new_application :
    (String → ℕ) → ℕ → ℕ → ℕ → CreateApplication → Draft → String → Application
new_application parse_date now user id dto d title = record {
  id = id;
  user_id = user;
  job_id = d.job_id;
  role_title = title;
  company_name = d.company_name;
  job_slug = d.job_slug;
  provider_name = d.provider_name;
  application_url = or_null (non_empty dto.application_url) (non_empty d.application_url);
  location_label = d.location_label;
  work_mode = d.work_mode;
  employer_deadline_at = d.employer_deadline_at;
  source_url = non_empty dto.source_url;
  source_label = non_empty dto.source_label;
  contact_name = non_empty dto.contact_name;
  contact_email = non_empty dto.contact_email;
  stage = initial_stage dto;
  lifecycle = active;
  next_action = non_empty dto.next_action;
  next_action_at = date_or_null parse_date dto.next_action_at;
  notes = non_empty dto.notes;
  applied_at =
      or_null (date_or_null parse_date dto.applied_at) (applied_now (initial_stage dto) now);
  reminder_at = date_or_null parse_date dto.reminder_at;
  interview_at = date_or_null parse_date dto.interview_at;
  revision = 0;
  created_at = now;
  updated_at = now;
}

abbrev first_row : ℕ → ℕ → CreateApplication → HistoryRow
first_row now id dto = record {
  application_id = id;
  from_stage = none;
  to_stage = initial_stage dto;
  note =
      some (
        if present dto.job_slug
        then "Tracked from discovered role"
        else "Added manual application");
  occurred_at = now;
}

-- The tables after the transaction that inserts the application and its first history row.
unfoldable pub inserted_store :
    (String → ℕ) → ℕ → ℕ → CreateApplication → Draft → String → Store → Store
unfolding new_application
inserted_store parse_date now user dto d title s = record {
  applications = new_application parse_date now user s.next_id dto d title ∷ s.applications;
  history = first_row now s.next_id dto ∷ s.history;
  jobs = s.jobs;
  next_id = suc s.next_id;
}

-- The end of `create`: the query that reads the new row back does not include the job.
unfoldable pub insert_application :
    (String → ℕ) → ℕ → ℕ → CreateApplication → Draft → Store → Result (Created × Store)
unfolding inserted_store new_application
insert_application parse_date now user dto d s = elim (non_empty d.role_title) [
  | none ↦ err role_title_required
  | some title ↦
      let s' = inserted_store parse_date now user dto d title s in
      let app = new_application parse_date now user s.next_id dto d title in
      ok (
        record {
          view = serialize now none s'.history app;
          already_tracked = false;
          restored = false;
        },
        s',
      )
]

-- The job is tracked already: an archived application is taken up again, an active one is left
-- alone. The row that `tx.application.update` returns has the history from before the new row.
abbrev pub taken_up : ℕ → Application → Application
taken_up now existing = record existing {
  lifecycle = active;
  revision = existing.revision + 1;
  updated_at = now;
}

abbrev restored_row : ℕ → Application → HistoryRow
restored_row now existing = record {
  application_id = existing.id;
  from_stage = some existing.stage;
  to_stage = existing.stage;
  note = some "Restored from archive by re-tracking";
  occurred_at = now;
}

unfoldable pub restored_store : ℕ → Application → Store → Store
restored_store now existing s = record s {
  applications = update_where existing.id (taken_up now) s.applications;
  history = restored_row now existing ∷ s.history;
}

abbrev pub retrack_by : Lifecycle → ℕ → Application → Store → Created × Store
retrack_by active now existing s =
    (record { view = view_of now s existing; already_tracked = true; restored = false }, s)
retrack_by archived now existing s = (
  record { view = view_of now s (taken_up now existing); already_tracked = false; restored = true },
  restored_store now existing s,
)

unfoldable pub retrack : ℕ → Application → Store → Created × Store
retrack now existing s = retrack_by existing.lifecycle now existing s

abbrev pub create_for_job :
    (String → ℕ) → ℕ → ℕ → CreateApplication → JobRow → Store → Result (Created × Store)
create_for_job parse_date now user dto job s = elim (find_tracked user job.id s.applications) [
  | some existing ↦ ok (retrack now existing s)
  | none ↦ insert_application parse_date now user dto (job_draft dto job) s
]

abbrev pub create_by_slug :
    (String → ℕ) → ℕ → ℕ → CreateApplication → String → Store → Result (Created × Store)
create_by_slug parse_date now user dto slug s = elim (find_job slug s.jobs) [
  | none ↦ err (job_not_found slug)
  | some job ↦ create_for_job parse_date now user dto job s
]

-- `create`
unfoldable pub create : (String → ℕ) → ℕ → ℕ → CreateApplication → Store → Result (Created × Store)
create parse_date now user dto s = elim (non_empty dto.job_slug) [
  | none ↦ insert_application parse_date now user dto (manual_draft dto) s
  | some slug ↦ create_by_slug parse_date now user dto slug s
]
