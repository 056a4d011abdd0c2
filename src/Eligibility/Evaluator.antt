-- ===== src/Eligibility/Evaluator.antt =====
-- `evaluate` and `summarize` of backend/src/modules/eligibility/eligibility-evaluator.service.ts.
-- The constant disclaimer of the result is left out.
use rolebrief.Common.{
  ℕ, Bool, true, false, not, ◌&&◌, Option, none, some, List, [], ◌∷◌, ◌++◌, String, if◌then◌else◌,
  find, any, is_empty, present, join, or_else,
}
use Prim.Native.String.{◌++◌ as append}
use rolebrief.Common.Int.{ℤ}
use rolebrief.Eligibility.Types.{
  OverallStatus, appears_eligible, likely_eligible, check_required, not_calculated, Availability,
  JobAvailability, ReasonCode, profile_incomplete, loc_candidate_country_unspecified,
  tz_candidate_unspecified, spon_needed_employer_unstated, Dimension, DimensionStatus,
  likely_satisfied, insufficient_data, DimensionResult, nothing, offsets, CandidateFacts, JobFacts,
  KnownFacts, Summary, Detailed,
}
use rolebrief.Eligibility.Timezone.{TimezoneResult}
use rolebrief.Eligibility.Timezone
use rolebrief.Eligibility.Dimensions.{
  availability, location_result, sponsorship_result, evaluate_location, evaluate_sponsorship,
}

-- `evaluateTimezone`, over the answer of the resolver.
abbrev pub timezone_dimension : TimezoneResult → DimensionResult
timezone_dimension tz = record {
  dimension = Dimension.timezone;
  status = tz.status;
  reason_code = tz.reason_code;
  headline = tz.headline;
  details = tz.details;
  evidence = offsets tz.candidate_current_offset tz.declared_offsets;
}

abbrev pub is_conflict : DimensionResult → Bool
is_conflict d = elim d.status [ DimensionStatus.conflict ↦ true | _ ↦ false ]

abbrev pub is_insufficient : DimensionResult → Bool
is_insufficient d = elim d.status [ insufficient_data ↦ true | _ ↦ false ]

abbrev pub is_likely : DimensionResult → Bool
is_likely d = elim d.status [ likely_satisfied ↦ true | _ ↦ false ]

-- `status === "EXPIRED" || status === "DELISTED"`
abbrev pub is_closed : Availability → Bool
is_closed Availability.expired = true
is_closed Availability.delisted = true
is_closed _ = false

abbrev summary_of :
    JobFacts → JobAvailability → OverallStatus → ReasonCode → String → String → Summary
summary_of job available status code badge headline = record {
  slug = job.slug;
  overall_status = status;
  primary_reason_code = code;
  badge_text = badge;
  headline = headline;
  job_availability = available;
  is_job_expired = is_closed available.status;
}

-- The third part of `evaluate`: the worst dimension decides, the first one of its kind.
unfoldable pub synthesize :
    JobFacts → JobAvailability → DimensionResult → List DimensionResult → Summary
synthesize job available loc dimensions = elim (find is_conflict dimensions) [
  | some d ↦
      summary_of job available OverallStatus.conflict d.reason_code "Eligibility conflict"
        d.headline
  | none ↦ elim (find is_insufficient dimensions) [
    | some d ↦ summary_of job available check_required d.reason_code "Check required" d.headline
    | none ↦
        if any is_likely dimensions
        then summary_of job available likely_eligible loc.reason_code "Likely eligible"
            "Likely eligible based on profile"
        else summary_of job available appears_eligible loc.reason_code "Appears eligible"
            "Appears eligible based on stated requirements"
  ]
]

abbrev is_unstated : ReasonCode → Bool
is_unstated spon_needed_employer_unstated = true
is_unstated _ = false

abbrev note_if : Bool → String → List String
note_if true note = note ∷ []
note_if false note = []

-- The fourth part of `evaluate`.
unfoldable pub unstated_facts : CandidateFacts → JobFacts → DimensionResult → List String
unstated_facts candidate job spon =
    note_if (or_else candidate.requires_visa_sponsorship false && is_unstated spon.reason_code)
      "Employer sponsorship policy is unstated"
    ++ (note_if (not (is_empty job.unresolved_labels))
          (append "Unverified location restrictions: " (join ", " job.unresolved_labels))
        ++ note_if (not (present candidate.timezone))
            "Candidate timezone is not declared in profile")

abbrev known_facts : CandidateFacts → JobFacts → Option String → KnownFacts
known_facts candidate job residence = record {
  candidate_residence_country = residence;
  candidate_work_authorizations = candidate.work_authorizations;
  candidate_requires_sponsorship = candidate.requires_visa_sponsorship;
  candidate_timezone = candidate.timezone;
  job_work_mode = job.work_mode;
  job_remote_scope = job.remote_scope;
  job_allowed_countries = job.remote_country_codes;
  job_timezone_offsets = job.timezone_offset_minutes;
}

-- `buildIncompleteProfileResult`
unfoldable pub incomplete_profile : ℕ → CandidateFacts → JobFacts → JobAvailability → Detailed
incomplete_profile now candidate job available = record {
  summary =
      summary_of job available not_calculated profile_incomplete "Profile incomplete"
        "Complete your profile to evaluate eligibility";
  dimensions =
      location_result insufficient_data loc_candidate_country_unspecified "Profile incomplete"
        "Candidate country of residence is not specified in profile." nothing
      ∷ record {
        dimension = Dimension.timezone;
        status = insufficient_data;
        reason_code = tz_candidate_unspecified;
        headline = "Profile incomplete";
        details = "Candidate timezone is not specified in profile.";
        evidence = nothing;
      }
      ∷ sponsorship_result insufficient_data spon_needed_employer_unstated "Profile incomplete"
          "Candidate sponsorship status is not specified in profile."
      ∷ [];
  known_facts = known_facts candidate job none;
  unstated_facts = "Candidate residence country is missing from profile" ∷ [];
  evaluated_at = now;
}

module _ (offset_at : String → ℕ → Option ℤ) (now winter summer : ℕ) where
  -- `evaluateTimezone`
  unfoldable pub evaluate_timezone : CandidateFacts → JobFacts → DimensionResult
  evaluate_timezone candidate job =
      timezone_dimension (
        Timezone.evaluate offset_at now winter summer candidate.timezone
          job.timezone_offset_minutes)

  -- The three dimensions, in the order in which `evaluate` lists them.
  unfoldable pub dimensions_of : CandidateFacts → JobFacts → List DimensionResult
  dimensions_of candidate job =
      let loc = evaluate_location candidate job in
      loc ∷ evaluate_timezone candidate job ∷ evaluate_sponsorship candidate job loc ∷ []

  -- A profile that states a country.
  unfoldable pub complete_profile : CandidateFacts → JobFacts → Detailed
  unfolding dimensions_of
  complete_profile candidate job =
      let loc = evaluate_location candidate job in
      let dimensions = dimensions_of candidate job in
      record {
        summary = synthesize job (availability now job) loc dimensions;
        dimensions = dimensions;
        known_facts = known_facts candidate job candidate.current_country;
        unstated_facts = unstated_facts candidate job (evaluate_sponsorship candidate job loc);
        evaluated_at = now;
      }

  unfoldable pub evaluate : CandidateFacts → JobFacts → Detailed
  evaluate candidate job =
      if present candidate.current_country
      then complete_profile candidate job
      else incomplete_profile now candidate job (availability now job)

-- `summarize`
unfoldable pub summarize : Detailed → Summary
summarize d = d.summary
