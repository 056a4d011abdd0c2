-- ===== src/Eligibility/Types.antt =====
-- backend/src/modules/eligibility/reason-codes.ts and factual-facts.interface.ts.
use rolebrief.Common.{ℕ, Bool, Option, List, String}
use rolebrief.Common.Int.{ℤ}

pub data OverallStatus : Type 0 where
  appears_eligible likely_eligible check_required conflict not_calculated : OverallStatus

pub data DimensionStatus : Type 0 where
  satisfied likely_satisfied insufficient_data conflict not_applicable : DimensionStatus

pub data Dimension : Type 0 where
  location timezone sponsorship : Dimension

pub data Availability : Type 0 where
  active expired delisted suspicious : Availability

pub record JobAvailability : Type 0 where
  pub status : Availability
  pub can_apply : Bool
  pub reason : Option String

pub data ReasonCode : Type 0 where
  loc_worldwide_no_restrictions loc_country_authorized loc_country_citizen_resident : ReasonCode
  loc_country_not_authorized loc_country_unresolved_inspection : ReasonCode
  loc_scope_unknown_check_required loc_candidate_country_unspecified : ReasonCode
  tz_no_declared_restriction tz_within_declared_offset tz_outside_declared_offset : ReasonCode
  tz_candidate_unspecified : ReasonCode
  spon_self_authorized_in_target spon_not_required_by_candidate : ReasonCode
  spon_needed_employer_unstated spon_explicit_no_sponsorship_conflict : ReasonCode
  profile_incomplete : ReasonCode

-- The facts that a dimension's result refers to.
pub data Evidence : Type 0 where
  nothing : Evidence
  unresolved : List String → Evidence
  matching_country resident_country : String → Evidence
  unauthorized : List String → Option String → List String → Evidence
  offsets : Option ℤ → List ℤ → Evidence

pub record DimensionResult : Type 0 where
  pub dimension : Dimension
  pub status : DimensionStatus
  pub reason_code : ReasonCode
  pub headline : String
  pub details : String
  pub evidence : Evidence

pub data RemoteScope : Type 0 where
  worldwide country_limited timezone_limited country_and_timezone_limited unknown : RemoteScope

pub data JobStatus : Type 0 where
  active expired delisted : JobStatus

pub record CandidateFacts : Type 0 where
  pub user_id : String
  pub current_country : Option String
  pub work_authorizations : List String
  pub requires_visa_sponsorship : Option Bool
  pub timezone : Option String
  pub revision : ℕ

pub record JobFacts : Type 0 where
  pub id : String
  pub slug : String
  pub title : String
  pub company_name : String
  pub work_mode : String
  pub remote_scope : RemoteScope
  pub remote_country_codes : List String
  pub remote_restriction_labels : List String
  pub unresolved_labels : List String
  pub timezone_offset_minutes : List ℤ
  pub job_status : JobStatus
  pub flags : Option (List String)
  pub application_deadline_at : Option ℕ
  pub application_url : Option String
  pub canonical_fingerprint : String

pub record KnownFacts : Type 0 where
  pub candidate_residence_country : Option String
  pub candidate_work_authorizations : List String
  pub candidate_requires_sponsorship : Option Bool
  pub candidate_timezone : Option String
  pub job_work_mode : String
  pub job_remote_scope : RemoteScope
  pub job_allowed_countries : List String
  pub job_timezone_offsets : List ℤ

pub record Summary : Type 0 where
  pub slug : String
  pub overall_status : OverallStatus
  pub primary_reason_code : ReasonCode
  pub badge_text : String
  pub headline : String
  pub job_availability : JobAvailability
  pub is_job_expired : Bool

pub record Detailed : Type 0 where
  pub summary : Summary
  pub open summary use *
  pub dimensions : List DimensionResult
  pub known_facts : KnownFacts
  pub unstated_facts : List String
  pub evaluated_at : ℕ
