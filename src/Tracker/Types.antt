-- ===== src/Tracker/Types.antt =====
-- The rows of the application tracker: `Application`, `ApplicationHistory` and the part of `Job` that
-- backend/src/modules/tracker reads (backend/prisma/schema.prisma), and the request bodies of
-- backend/src/modules/tracker/dto/tracker.dto.ts. Identifiers are numbers that the database hands
-- out in order; an instant is a number of milliseconds; a nullable column is an `Option`.
use rolebrief.Common.{ℕ, Bool, true, false, Option, List, String, ◌≡◌, ap, refl, ◌⊎◌, inl, inr}

pub data Stage : Type 0 where
  saved applied interviewing offer rejected withdrawn : Stage

pub data Lifecycle : Type 0 where
  active archived : Lifecycle

abbrev pub stage_eq : Stage → Stage → Bool
stage_eq saved saved = true
stage_eq applied applied = true
stage_eq interviewing interviewing = true
stage_eq offer offer = true
stage_eq rejected rejected = true
stage_eq withdrawn withdrawn = true
stage_eq _ _ = false

abbrev pub lifecycle_eq : Lifecycle → Lifecycle → Bool
lifecycle_eq active active = true
lifecycle_eq archived archived = true
lifecycle_eq _ _ = false

pub record Application : Type 0 where
  pub id : ℕ
  pub user_id : ℕ
  pub job_id : Option ℕ
  pub role_title : String
  pub company_name : Option String
  pub job_slug : Option String
  pub provider_name : Option String
  pub application_url : Option String
  pub location_label : Option String
  pub work_mode : Option String
  pub employer_deadline_at : Option ℕ
  pub source_url : Option String
  pub source_label : Option String
  pub contact_name : Option String
  pub contact_email : Option String
  pub stage : Stage
  pub lifecycle : Lifecycle
  pub next_action : Option String
  pub next_action_at : Option ℕ
  pub notes : Option String
  pub applied_at : Option ℕ
  pub reminder_at : Option ℕ
  pub interview_at : Option ℕ
  pub revision : ℕ
  pub created_at : ℕ
  pub updated_at : ℕ

pub record HistoryRow : Type 0 where
  pub application_id : ℕ
  pub from_stage : Option Stage
  pub to_stage : Stage
  pub note : Option String
  pub occurred_at : ℕ

pub data JobStatus : Type 0 where
  live expired delisted suspicious : JobStatus

pub record ProviderRecord : Type 0 where
  pub application_url : Option String
  pub source_url : Option String

pub record Company : Type 0 where
  pub canonical_name : String
  pub logo_url : Option String

pub record JobRow : Type 0 where
  pub id : ℕ
  pub slug : String
  pub canonical_title : String
  pub company : Option Company
  pub source_name : Option String
  pub provider_records : List ProviderRecord
  pub work_mode : String
  pub location_names : List String
  pub application_deadline_at : Option ℕ
  pub status : JobStatus
  pub expires_at : Option ℕ

-- The tables. `history` has the newest row first.
pub record Store : Type 0 where
  pub applications : List Application
  pub history : List HistoryRow
  pub jobs : List JobRow
  pub next_id : ℕ

-- A field of a request that may be left out, or be sent as `null`.
pub data Field {ℓ} (A : Type ℓ) : Type ℓ where
  absent : Field A
  cleared : Field A
  given : A → Field A

pub record CreateApplication : Type 0 where
  pub job_slug : Option String
  pub role_title : Option String
  pub company_name : Option String
  pub stage : Option Stage
  pub applied_at : Option String
  pub next_action : Option String
  pub next_action_at : Option String
  pub notes : Option String
  pub reminder_at : Option String
  pub interview_at : Option String
  pub application_url : Option String
  pub source_url : Option String
  pub source_label : Option String
  pub contact_name : Option String
  pub contact_email : Option String

pub record UpdateApplication : Type 0 where
  pub expected_revision : ℕ
  pub stage : Option Stage
  pub lifecycle : Option Lifecycle
  pub role_title : Option String
  pub company_name : Option String
  pub applied_at : Field String
  pub next_action : Field String
  pub next_action_at : Field String
  pub notes : Field String
  pub reminder_at : Field String
  pub interview_at : Field String
  pub application_url : Field String
  pub source_url : Field String
  pub source_label : Field String
  pub contact_name : Field String
  pub contact_email : Field String
  pub stage_change_note : Option String

-- What `serialize` returns: the row, and what is computed from the rows beside it.
pub record View : Type 0 where
  pub application : Application
  pub company_logo_url : Option String
  pub is_job_expired : Bool
  pub history : List HistoryRow

pub record Created : Type 0 where
  pub view : View
  pub already_tracked : Bool
  pub restored : Bool

-- The exceptions of the service, with what they report.
pub data TrackerError : Type 0 where
  application_not_found : TrackerError
  job_not_found : String → TrackerError
  role_title_required : TrackerError
  stale : ℕ → Option View → TrackerError
  invalid_transition : Stage → Stage → TrackerError
  delete_conflict : TrackerError

pub data Result {ℓ} (A : Type ℓ) : Type ℓ where
  ok : A → Result A
  err : TrackerError → Result A

abbrev payload {ℓ} : {A : Type ℓ} → A → Result A → A
payload a (ok b) = b
payload a (err e) = a

infixl 5 ◌>>=◌
abbrev pub ◌>>=◌ {ℓ κ} : {A : Type ℓ} {B : Type κ} → Result A → (A → Result B) → Result B
ok a >>= f = f a
err e >>= f = err e

-- An error leaves the tables as they were.
abbrev pub store_after {ℓ} : {A : Type ℓ} → Store → Result (A × Store) → Store
store_after s (ok (a, s')) = s'
store_after s (err e) = s

pub ok-injective {ℓ} : {A : Type ℓ} {a b : A} → ok a ≡ ok b → a ≡ b
ok-injective {a} e = ap (payload a) e

pub Result-cases {ℓ} :
    {A : Type ℓ} (m : Result A) → ((e : TrackerError) × (m ≡ err e)) ⊎ ((a : A) × (m ≡ ok a))
Result-cases (ok a) = inr (a, refl)
Result-cases (err e) = inl (e, refl)
