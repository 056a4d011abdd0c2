-- ===== src/Alerts/Service.antt =====
-- backend/src/modules/alerts/alerts.service.ts on the table of the alerts. `toUpperCase` and the
-- verification of unsubscribe tokens are parameters; an answer is the row, which `serialize` prints.
use rolebrief.Common.{
  ℕ, suc, ◌+◌, Bool, true, false, not, ◌&&◌, Option, none, some, List, [], ◌∷◌, map, String, trim,
  truthy, ◌==◌, leb, keep, any, find, length, or_else, or_null, if◌then◌else◌,
}
use mathlib.Core.Option
use rolebrief.Alerts.Types.{
  Alert, AlertCriteria, AlertStatus, active, paused, disabled, AlertChannel, AlertCadence,
}
pub mod Limit
pub mod Limited
pub mod Revisions

pub record CreateAlert : Type 0 where
  pub name : String
  pub channel : AlertChannel
  pub cadence : AlertCadence
  pub delivery_hour_utc : Option ℕ
  pub delivery_day_of_week : Option ℕ
  pub criteria : AlertCriteria

-- A field that is left out is none.
pub record UpdateAlert : Type 0 where
  pub name : Option String
  pub channel : Option AlertChannel
  pub cadence : Option AlertCadence
  pub delivery_hour_utc : Option ℕ
  pub delivery_day_of_week : Option ℕ
  pub criteria : Option AlertCriteria
  pub expected_revision : ℕ

pub data AlertError : Type 0 where
  alert_not_found limit_reached : AlertError
  modified_concurrently : ℕ → AlertError

pub data Served (A : Type 0) : Type 0 where
  serves : A → Served A
  rejects : AlertError → Served A

pub record Alerts : Type 0 where
  pub rows : List Alert
  pub next_id : ℕ

pub data UnsubscribeAction : Type 0 where
  pauses deletes : UnsubscribeAction

abbrev pub is_disabled : AlertStatus → Bool
is_disabled disabled = true
is_disabled _ = false

-- `{ userId, status: { not: DISABLED } }`
abbrev pub counts_for : ℕ → Alert → Bool
counts_for user a = a.user_id == user && not (is_disabled a.status)

abbrev pub is_own : ℕ → ℕ → Alert → Bool
is_own user id a = a.id == id && a.user_id == user

abbrev pub max_alerts_per_user : ℕ
max_alerts_per_user = 10

abbrev pub trimmed_texts : (String → String) → List String → List String
trimmed_texts f texts = keep truthy (map (λ s. f (trim s)) texts)

-- `normalizeCriteria`
unfoldable pub normalize_criteria : (String → String) → AlertCriteria → AlertCriteria
normalize_criteria to_upper c = record c {
  target_titles = trimmed_texts (λ s. s) c.target_titles;
  employment_types = trimmed_texts (λ s. s) c.employment_types;
  country_codes = trimmed_texts to_upper c.country_codes;
  providers = trimmed_texts (λ s. s) c.providers;
}

-- `createAlert`
unfoldable pub create_alert : (String → String) → ℕ → CreateAlert → Alerts → Served Alert × Alerts
create_alert to_upper user dto t =
    let c = normalize_criteria to_upper dto.criteria in
    let row : Alert = record {
      id = t.next_id;
      user_id = user;
      name = trim dto.name;
      status = active;
      channel = dto.channel;
      cadence = dto.cadence;
      delivery_hour_utc = or_else dto.delivery_hour_utc 9;
      delivery_day_of_week = dto.delivery_day_of_week;
      work_modes = c.work_modes;
      employment_types = c.employment_types;
      country_codes = c.country_codes;
      providers = c.providers;
      salary_disclosed = c.salary_disclosed;
      eligibility_policy = c.eligibility_policy;
      criteria_version = 1;
      criteria = c;
      revision = 0;
    } in
    if leb max_alerts_per_user (length (keep (counts_for user) t.rows))
    then (rejects limit_reached, t)
    else (serves row, record { rows = row ∷ t.rows; next_id = suc t.next_id })

-- The row that an update or a new status starts from, if it has the revision that is expected.
unfoldable pub read_alert : ℕ → ℕ → ℕ → Alerts → Served Alert
read_alert user id expected t = elim (find (is_own user id) t.rows) [
  | none ↦ rejects alert_not_found
  | some current ↦
      if current.revision == expected
      then serves current
      else rejects (modified_concurrently current.revision)
]

abbrev pub has_revision : ℕ → ℕ → Alert → Bool
has_revision id expected a = a.id == id && a.revision == expected

-- The conditional write, for a row that was read before it, and the row read back.
unfoldable pub commit_alert : ℕ → (Alert → Alert) → Alert → Alerts → Served Alert × Alerts
commit_alert expected change current t =
    let rows' =
      map
        (λ a.
          if has_revision current.id expected a
          then record (change a) { revision = suc a.revision }
          else a)
        t.rows in
    let latest : ℕ =
      or_else
        (Option.map (λ (a : Alert). a.revision) (find (λ (a : Alert). a.id == current.id) t.rows))
        current.revision in
    if any (has_revision current.id expected) t.rows
    then (
      serves (or_else (find (λ (a : Alert). a.id == current.id) rows') current),
      record t { rows = rows' },
    )
    else (rejects (modified_concurrently latest), t)

abbrev pub if_given {ℓ} : {A : Type ℓ} → Option A → A → A
if_given none old = old
if_given (some new) old = new

-- The columns that repeat the criteria; Prisma leaves a column alone whose value is not given.
abbrev pub changed_criteria : (String → String) → Option AlertCriteria → Alert → Alert
changed_criteria to_upper none a = a
changed_criteria to_upper (some dto) a =
    let c = normalize_criteria to_upper dto in
    record a {
      work_modes = c.work_modes;
      employment_types = c.employment_types;
      country_codes = c.country_codes;
      providers = c.providers;
      salary_disclosed = or_null c.salary_disclosed a.salary_disclosed;
      eligibility_policy = c.eligibility_policy;
      criteria = c;
    }

-- The data of `updateAlert`.
abbrev pub apply_dto : (String → String) → UpdateAlert → Alert → Alert
apply_dto to_upper dto a = changed_criteria to_upper dto.criteria (record a {
  name = if_given (Option.map trim dto.name) a.name;
  channel = if_given dto.channel a.channel;
  cadence = if_given dto.cadence a.cadence;
  delivery_hour_utc = if_given dto.delivery_hour_utc a.delivery_hour_utc;
  delivery_day_of_week =
      if_given (Option.map (λ d. some d) dto.delivery_day_of_week) a.delivery_day_of_week;
})

abbrev pub then_commit : Served Alert → ℕ → (Alert → Alert) → Alerts → Served Alert × Alerts
then_commit (rejects e) expected change t = (rejects e, t)
then_commit (serves current) expected change t = commit_alert expected change current t

-- `updateAlert`
unfoldable pub update_alert :
    (String → String) → ℕ → ℕ → UpdateAlert → Alerts → Served Alert × Alerts
update_alert to_upper user id dto t =
    then_commit (read_alert user id dto.expected_revision t) dto.expected_revision
      (apply_dto to_upper dto) t

-- `setStatus`
unfoldable pub set_status : ℕ → ℕ → AlertStatus → ℕ → Alerts → Served Alert × Alerts
set_status user id status expected t =
    then_commit (read_alert user id expected t) expected (λ a. record a { status = status }) t

abbrev pub without : ℕ → List Alert → List Alert
without id = keep (λ (a : Alert). not (a.id == id))

-- `deleteAlert`
unfoldable pub delete_alert : ℕ → ℕ → Alerts → Served Unit × Alerts
delete_alert user id t = elim (find (is_own user id) t.rows) [
  | none ↦ (rejects alert_not_found, t)
  | some a ↦ (serves tt, record t { rows = without a.id t.rows })
]

-- `handleUnsubscribe`, for what a verified token says.
unfoldable pub handle_unsubscribe : UnsubscribeAction → ℕ → ℕ → Alerts → Served Unit × Alerts
handle_unsubscribe action user id t = elim (find (is_own user id) t.rows) [
  | none ↦ (rejects alert_not_found, t)
  | some a ↦ elim action [
    | deletes ↦ (serves tt, record t { rows = without a.id t.rows })
    | pauses ↦ (
      serves tt,
      record t {
        rows =
            map
              (λ (b : Alert).
                if b.id == a.id then record b { status = paused; revision = suc b.revision } else b)
              t.rows;
      },
    )
  ]
]
