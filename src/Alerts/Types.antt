-- ===== src/Alerts/Types.antt =====
-- backend/src/modules/alerts/alerts.types.ts and the tables behind the evaluation of alerts
-- (backend/prisma/schema.prisma), with what it reads of a user and of a job.
use rolebrief.Common.{ℕ, Bool, Option, List, String}
use rolebrief.Matching.Facts.{
  WorkMode, SeniorityLevel, EmploymentType, RemotePreference, SalaryPeriod, JobMatchFacts,
}
use rolebrief.Eligibility.Types.{OverallStatus, JobFacts}

pub data AlertStatus : Type 0 where
  active paused disabled : AlertStatus

pub data AlertChannel : Type 0 where
  in_app email both : AlertChannel

pub data AlertCadence : Type 0 where
  immediate daily weekly : AlertCadence

pub data EligibilityPolicy : Type 0 where
  include_all no_known_conflicts : EligibilityPolicy

pub data AlignmentTier : Type 0 where
  strong_only partial_or_better any_alignment : AlignmentTier

pub record AlertCriteria : Type 0 where
  pub target_titles : List String
  pub work_modes : List WorkMode
  pub employment_types : List String
  pub country_codes : List String
  pub providers : List String
  pub salary_disclosed : Option Bool
  pub eligibility_policy : EligibilityPolicy
  pub alignment : AlignmentTier

pub record Alert : Type 0 where
  pub id : ℕ
  pub user_id : ℕ
  pub name : String
  pub status : AlertStatus
  pub channel : AlertChannel
  pub cadence : AlertCadence
  pub delivery_hour_utc : ℕ
  pub delivery_day_of_week : Option ℕ
  pub work_modes : List WorkMode
  pub employment_types : List String
  pub country_codes : List String
  pub providers : List String
  pub salary_disclosed : Option Bool
  pub eligibility_policy : EligibilityPolicy
  pub criteria_version : ℕ
  pub criteria : AlertCriteria
  pub revision : ℕ

pub record Preferences : Type 0 where
  pub remote_preference : Option RemotePreference
  pub employment_types : List EmploymentType
  pub min_salary : Option ℕ
  pub max_salary : Option ℕ
  pub salary_currency : Option String
  pub salary_period : Option SalaryPeriod

pub record AlertProfile : Type 0 where
  pub revision : ℕ
  pub seniority_level : Option SeniorityLevel
  pub current_country : Option String
  pub work_authorizations : List String
  pub requires_visa_sponsorship : Option Bool
  pub preferences : Option Preferences

pub record AlertUser : Type 0 where
  pub id : ℕ
  pub email : String
  pub timezone : Option String
  pub profile : Option AlertProfile

-- An alert with its user, as the query includes it.
pub record AlertRow : Type 0 where
  pub alert : Alert
  pub user : AlertUser

-- A job with its relations; `facts` is what `toJobFacts` makes of it.
pub record JobEntity : Type 0 where
  pub id : ℕ
  pub match_facts : JobMatchFacts
  pub facts : JobFacts
  pub company_name : Option String

pub data NotificationState : Type 0 where
  pending created suppressed : NotificationState

pub data EmailState : Type 0 where
  pending queued sent suppressed failed : EmailState

pub record AlertMatch : Type 0 where
  pub alert_id : ℕ
  pub job_id : ℕ
  pub user_id : ℕ
  pub criteria_version : ℕ
  pub eligibility_status : OverallStatus
  pub notification_state : NotificationState
  pub email_state : EmailState

pub record AlertNotification : Type 0 where
  pub user_id : ℕ
  pub title : String
  pub body : String
  pub link_url : String
  pub dedupe_key : String

pub record EmailDelivery : Type 0 where
  pub user_id : ℕ
  pub to_email : String
  pub template : String
  pub subject : String
  pub dedupe_key : String

pub record AlertTables : Type 0 where
  pub matches : List AlertMatch
  pub notifications : List AlertNotification
  pub deliveries : List EmailDelivery
  -- The alerts whose `lastEvaluatedAt` was set, the last one first.
  pub evaluated : List ℕ
