-- ===== src/Alerts/EvaluationTests.antt =====
-- Examples of evaluations of a job for two alerts
-- (backend/src/modules/alerts/alert-evaluation.processor.ts).
use rolebrief.Common.{
  ℕ, suc, true, false, ◌&&◌, ◌||◌, ◌==◌, none, some, List, [], ◌∷◌, any, if◌then◌else◌, ◌≡◌, refl,
}
use rolebrief.Matching.Facts.{WorkMode, remote, onsite}
use rolebrief.Matching.Tests as MatchingTests
use rolebrief.Eligibility.Tests as EligibilityTests
use rolebrief.Alerts.Types.{
  Alert, AlertRow, AlertUser, JobEntity, AlertStatus, both, immediate, include_all, any_alignment,
  AlertTables,
}
use rolebrief.Alerts.Criteria.{Engines, is_candidate, fits}
use rolebrief.Alerts.Evaluation.{
  Fault, no_fault, at_notification, Surroundings, process_alerts, evaluate_alerts, evaluate_alert,
  queue_immediate_email, notify, upsert_match,
}
use rolebrief.Alerts.Evaluation.Matched.{listed, reaches, listed-process_alerts}
use rolebrief.Alerts.Evaluation.Repeated.{match_keys, process_alerts_again}

abbrev engines : Engines
engines = record {
  text = MatchingTests.plain;
  job_version = MatchingTests.version;
  offset_at = EligibilityTests.offset_at;
  user_name = λ id. "u";
  now = 10;
  winter = 10;
  summer = 60;
}

-- The queue counts the mails.
abbrev env : Surroundings ℕ
env = record {
  engines = engines;
  delivery_enabled = true;
  sha256 = λ s. s;
  id_text = λ id. if id == 1 then "one" else "two";
  add = λ key q. (true, suc q);
}

abbrev job : JobEntity
job = record {
  id = 1;
  match_facts = MatchingTests.job;
  facts = EligibilityTests.german_job;
  company_name = some "Acme";
}

abbrev reader : AlertUser
reader = record {
  id = 7;
  email = "ada@example.org";
  timezone = some "Europe/Berlin";
  profile = none;
}

abbrev pub alert : ℕ → List WorkMode → Alert
alert id modes = record {
  id = id;
  user_id = 7;
  name = "Remote work";
  status = AlertStatus.active;
  channel = both;
  cadence = immediate;
  delivery_hour_utc = 9;
  delivery_day_of_week = none;
  work_modes = modes;
  employment_types = [];
  country_codes = [];
  providers = [];
  salary_disclosed = none;
  eligibility_policy = include_all;
  criteria_version = 1;
  criteria = record {
    target_titles = [];
    work_modes = modes;
    employment_types = [];
    country_codes = [];
    providers = [];
    salary_disclosed = none;
    eligibility_policy = include_all;
    alignment = any_alignment;
  };
  revision = 0;
}

abbrev rows : List AlertRow
rows =
    record { alert = alert 1 (remote ∷ []); user = reader }
    ∷ record { alert = alert 2 (onsite ∷ []); user = reader }
    ∷ []

abbrev empty : AlertTables
empty = record { matches = []; notifications = []; deliveries = []; evaluated = [] }

abbrev fails_to_notify : ℕ → Fault
fails_to_notify id = at_notification

abbrev sound : ℕ → Fault
sound id = no_fault

listed-process_alerts_example :
    listed env fails_to_notify job 1 (process_alerts env fails_to_notify job rows empty 0).0 ≡ (
      false
      || any
          (λ r. is_candidate job r && (r.alert.id == 1 && reaches env fails_to_notify job 1 r))
          rows)
listed-process_alerts_example = listed-process_alerts env fails_to_notify job 1 rows empty 0

abbrev once : AlertTables
once = (process_alerts env sound job rows empty 0).0

process_alerts_again_example :
    match_keys (process_alerts env fails_to_notify job rows once 1).0.matches
    ≡ match_keys once.matches
process_alerts_again_example =
    process_alerts_again env sound fails_to_notify job rows empty 0 1 (λ id. refl)

-- The first alert has a match, though its notification failed; the second has none.
one_matched :
    match_keys (process_alerts env fails_to_notify job rows empty 0).0.matches ≡ (1, 1) ∷ []
unfolding process_alerts evaluate_alerts is_candidate evaluate_alert fits queue_immediate_email
    notify upsert_match
one_matched = refl
