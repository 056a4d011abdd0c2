-- ===== src/Tracker/Queries.antt =====
-- The queries of `TrackerService` (backend/src/modules/tracker/tracker.service.ts) on the tables, and
-- `serialize`. Instants in the view stay numbers, where the source prints them by `toISOString`.
use rolebrief.Common.{
  ℕ, Bool, true, false, ◌&&◌, ◌||◌, Option, none, some, List, String, ltb, ◌==◌, find, keep, str_eq,
  non_empty, map, if◌then◌else◌,
}
use rolebrief.Tracker.Types.{
  Application, HistoryRow, JobStatus, expired, JobRow, Store, View, application_not_found, Result,
  ok, err,
}

-- `findUnique` on the jobs, by slug and by identifier.
unfoldable pub find_job : String → List JobRow → Option JobRow
find_job slug jobs = find (λ j. str_eq j.slug slug) jobs

abbrev pub is_for : ℕ → Option ℕ → Bool
is_for job none = false
is_for job (some j) = j == job

unfoldable pub job_of : Option ℕ → List JobRow → Option JobRow
job_of none jobs = none
job_of (some id) jobs = find (λ j. j.id == id) jobs

-- `findFirst({ where: { id, userId } })`
unfoldable pub find_application : ℕ → ℕ → List Application → Option Application
find_application user id rows = find (λ a. a.id == id && a.user_id == user) rows

-- `findUnique({ where: { userId_jobId } })`
unfoldable pub find_tracked : ℕ → ℕ → List Application → Option Application
find_tracked user job rows = find (λ a. a.user_id == user && is_for job a.job_id) rows

-- The history that a query includes with an application.
abbrev pub history_of : ℕ → List HistoryRow → List HistoryRow
history_of id rows = keep (λ h. h.application_id == id) rows

abbrev is_expired : JobStatus → Bool
is_expired expired = true
is_expired _ = false

abbrev is_past : ℕ → Option ℕ → Bool
is_past now none = false
is_past now (some t) = ltb t now

abbrev job_expired : ℕ → Option JobRow → Bool
job_expired now none = false
job_expired now (some j) = is_expired j.status || is_past now j.expires_at

abbrev logo_of : Option JobRow → Option String
logo_of none = none
logo_of (some j) = elim j.company [ none ↦ none | some c ↦ non_empty c.logo_url ]

-- `serialize`, of an application with the job that the query included, if any.
unfoldable pub serialize : ℕ → Option JobRow → List HistoryRow → Application → View
serialize now job rows a = record {
  application = a;
  company_logo_url = logo_of job;
  is_job_expired = job_expired now job;
  history = history_of a.id rows;
}

unfoldable pub view_of : ℕ → Store → Application → View
view_of now s a = serialize now (job_of a.job_id s.jobs) s.history a

unfoldable pub get_by_id : ℕ → ℕ → ℕ → Store → Result View
unfolding find_application
get_by_id now user id s = elim (find_application user id s.applications) [
  | none ↦ err application_not_found
  | some a ↦ ok (view_of now s a)
]

-- `update({ where: { id } })`: what `change` makes of the row with this identifier.
abbrev pub update_where : ℕ → (Application → Application) → List Application → List Application
update_where id change rows = map (λ a. if a.id == id then change a else a) rows
