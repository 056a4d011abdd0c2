-- ===== src/Eligibility/Dimensions.antt =====
-- Availability, location and sponsorship of
-- backend/src/modules/eligibility/eligibility-evaluator.service.ts.
use rolebrief.Common.{
  ℕ, Bool, true, false, not, ◌&&◌, ◌||◌, Option, none, some, List, String, ltb, if◌then◌else◌, any,
  find, is_empty, non_empty, present, str_eq, trim, join,
}
use mathlib.Core.Option
use Prim.Native.String.{◌++◌}
use rolebrief.Eligibility.Types.{
  JobAvailability, Availability, JobStatus, ReasonCode, loc_worldwide_no_restrictions,
  loc_country_authorized, loc_country_citizen_resident, loc_country_not_authorized,
  loc_country_unresolved_inspection, loc_scope_unknown_check_required,
  spon_self_authorized_in_target, spon_not_required_by_candidate, spon_needed_employer_unstated,
  Evidence, nothing, unresolved, matching_country, resident_country, unauthorized, Dimension,
  DimensionStatus, satisfied, insufficient_data, DimensionResult, RemoteScope, worldwide,
  timezone_limited, unknown, CandidateFacts, JobFacts,
}

-- `list.includes(s)`
abbrev pub includes : List String → String → Bool
includes list s = any (str_eq s) list

abbrev is_expired_status : JobStatus → Bool
is_expired_status JobStatus.expired = true
is_expired_status _ = false

abbrev pub is_delisted_status : JobStatus → Bool
is_delisted_status JobStatus.delisted = true
is_delisted_status _ = false

abbrev deadline_passed : ℕ → Option ℕ → Bool
deadline_passed now none = false
deadline_passed now (some t) = ltb t now

abbrev flagged : Option (List String) → Bool
flagged none = false
flagged (some flags) = includes flags "suspicious"

abbrev pub job_expired : ℕ → JobFacts → Bool
job_expired now job =
    is_expired_status job.job_status || deadline_passed now job.application_deadline_at

abbrev pub has_apply_url : JobFacts → Bool
has_apply_url job = present (Option.map trim job.application_url)

-- The first part of `evaluate`: whether the listing takes applications.
unfoldable pub availability : ℕ → JobFacts → JobAvailability
availability now job =
    if job_expired now job
    then record {
      status = Availability.expired;
      can_apply = false;
      reason = some "Listing has expired; applications are closed.";
    }
    else if is_delisted_status job.job_status
    then record {
      status = Availability.delisted;
      can_apply = false;
      reason = some "Listing was removed by employer or provider.";
    }
    else if flagged job.flags
    then record {
      status = Availability.suspicious;
      can_apply = has_apply_url job;
      reason = some "Listing flagged for review; verify employer directly.";
    }
    else if has_apply_url job
    then record { status = Availability.active; can_apply = true; reason = none }
    else record {
      status = Availability.active;
      can_apply = false;
      reason = some "No direct application link available for this role.";
    }

abbrev is_unknown : RemoteScope → Bool
is_unknown unknown = true
is_unknown _ = false

abbrev is_open_scope : RemoteScope → Bool
is_open_scope worldwide = true
is_open_scope timezone_limited = true
is_open_scope _ = false

-- `isWorldwideOrTzOnly`
abbrev pub is_open : JobFacts → Bool
is_open job =
    is_open_scope job.remote_scope
    && is_empty job.remote_country_codes
    && is_empty job.unresolved_labels

abbrev pub location_result :
    DimensionStatus → ReasonCode → String → String → Evidence → DimensionResult
location_result status code headline details evidence = record {
  dimension = Dimension.location;
  status = status;
  reason_code = code;
  headline = headline;
  details = details;
  evidence = evidence;
}

abbrev no_restrictions : DimensionResult
no_restrictions =
    location_result satisfied loc_worldwide_no_restrictions "Worldwide remote role"
      "Worldwide remote role with no geographical restrictions." nothing

-- An authorization in a country that the job allows, if it is not the empty text.
abbrev pub matching_authorization : CandidateFacts → JobFacts → Option String
matching_authorization candidate job =
    non_empty (find (includes job.remote_country_codes) candidate.work_authorizations)

-- The residence, if the job allows it.
abbrev pub allowed_residence : CandidateFacts → JobFacts → Option String
allowed_residence candidate job = elim (non_empty candidate.current_country) [
  | none ↦ none
  | some country ↦ if includes job.remote_country_codes country then some country else none
]

abbrev not_authorized : CandidateFacts → JobFacts → DimensionResult
not_authorized candidate job =
    location_result DimensionStatus.conflict loc_country_not_authorized
      "Location authorization conflict"
      ("Candidate does not report work authorization in any required country: "
        ++ (join ", " job.remote_country_codes ++ "."))
      (unauthorized job.remote_country_codes candidate.current_country
        candidate.work_authorizations)

abbrev by_residence : CandidateFacts → JobFacts → DimensionResult
by_residence candidate job = elim (allowed_residence candidate job) [
  | none ↦ not_authorized candidate job
  | some country ↦
      location_result satisfied loc_country_citizen_resident
        ("Resides in allowed country (" ++ (country ++ ")"))
        ("Candidate resides in allowed country (" ++ (country ++ ").")) (resident_country country)
]

-- The job names the countries that it allows.
abbrev by_country : CandidateFacts → JobFacts → DimensionResult
by_country candidate job = elim (matching_authorization candidate job) [
  | none ↦ by_residence candidate job
  | some code ↦
      location_result satisfied loc_country_authorized
        ("Authorized in allowed country (" ++ (code ++ ")"))
        ("Candidate self-reported work authorization in allowed country (" ++ (code ++ ")."))
        (matching_country code)
]

-- `evaluateLocation`
unfoldable pub evaluate_location : CandidateFacts → JobFacts → DimensionResult
evaluate_location candidate job =
    if is_unknown job.remote_scope
    then location_result insufficient_data loc_scope_unknown_check_required
        "Remote scope unverified" "Remote scope is not verified by provider; inspection required."
        nothing
    else if is_open job
    then no_restrictions
    else if not (is_empty job.unresolved_labels)
    then location_result insufficient_data loc_country_unresolved_inspection
        "Location requires inspection"
        ("Role contains unverified location restrictions ("
          ++ (join ", " job.unresolved_labels ++ "); manual verification required."))
        (unresolved job.unresolved_labels)
    else if is_empty job.remote_country_codes
    then no_restrictions
    else by_country candidate job

abbrev pub is_satisfied : DimensionStatus → Bool
is_satisfied satisfied = true
is_satisfied _ = false

abbrev declines_sponsorship : Option Bool → Bool
declines_sponsorship (some false) = true
declines_sponsorship _ = false

abbrev pub sponsorship_result : DimensionStatus → ReasonCode → String → String → DimensionResult
sponsorship_result status code headline details = record {
  dimension = Dimension.sponsorship;
  status = status;
  reason_code = code;
  headline = headline;
  details = details;
  evidence = nothing;
}

-- `evaluateSponsorship`
unfoldable pub evaluate_sponsorship : CandidateFacts → JobFacts → DimensionResult → DimensionResult
evaluate_sponsorship candidate job loc =
    if is_open job || is_satisfied loc.status
    then sponsorship_result satisfied spon_self_authorized_in_target "Sponsorship not required"
        "Candidate is authorized in destination jurisdiction; visa sponsorship is not needed for this role."
    else if declines_sponsorship candidate.requires_visa_sponsorship
    then sponsorship_result satisfied spon_not_required_by_candidate "Sponsorship not required"
        "Candidate self-reported that they do not require visa sponsorship."
    else sponsorship_result insufficient_data spon_needed_employer_unstated
        "Sponsorship policy unstated"
        "Candidate self-reported requiring sponsorship, but employer sponsorship policy is unstated; confirmation required."
