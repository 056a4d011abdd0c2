-- ===== src/Eligibility/Tests.antt =====
-- The Eligibility Shield on a candidate in Berlin and jobs in Germany and Canada.
use rolebrief.Common.{
  ℕ, true, false, Option, none, some, [], ◌∷◌, String, present, is_empty, non_empty, ltb, str_eq,
  if◌then◌else◌, ◌≡◌, ◌≢◌, ◌⊎◌, ◌↔◌, refl,
}
use rolebrief.Common.Int.{ℤ, pos}
use rolebrief.Eligibility.Types.{
  OverallStatus, appears_eligible, likely_eligible, not_calculated, satisfied, CandidateFacts,
  JobFacts, JobStatus, country_limited, unknown,
}
use rolebrief.Eligibility.Timezone
use rolebrief.Eligibility.Dimensions.{availability, evaluate_location, evaluate_sponsorship}
use rolebrief.Eligibility.Evaluator.{evaluate, complete_profile, synthesize, evaluate_timezone}
use rolebrief.Eligibility.Laws.{
  IsExcluded, overall, evaluate-conflict_iff, evaluate-not_calculated_iff,
}
use rolebrief.Eligibility.TimezoneLaws.{Fits, evaluate-satisfied_iff}

-- One hour east in winter, two in summer.
abbrev pub offset_at : String → ℕ → Option ℤ
offset_at zone date =
    if str_eq zone "Europe/Berlin"
    then (if ltb date 50 then some (pos 60) else some (pos 120))
    else none

abbrev candidate : CandidateFacts
candidate = record {
  user_id = "u";
  current_country = some "DE";
  work_authorizations = "DE" ∷ [];
  requires_visa_sponsorship = some true;
  timezone = some "Europe/Berlin";
  revision = 3;
}

abbrev pub german_job : JobFacts
german_job = record {
  id = "j";
  slug = "dev";
  title = "Developer";
  company_name = "Acme";
  work_mode = "REMOTE";
  remote_scope = country_limited;
  remote_country_codes = "DE" ∷ [];
  remote_restriction_labels = [];
  unresolved_labels = [];
  timezone_offset_minutes = pos 120 ∷ [];
  job_status = JobStatus.active;
  flags = none;
  application_deadline_at = some 90;
  application_url = some "https://acme.test/apply";
  canonical_fingerprint = "f";
}

abbrev canadian_job : JobFacts
canadian_job = record german_job { remote_country_codes = "CA" ∷ [] }

german_job_fits : overall offset_at 10 10 60 candidate german_job ≡ appears_eligible
unfolding evaluate complete_profile synthesize evaluate_location evaluate_sponsorship
    evaluate_timezone availability Timezone.evaluate Timezone.get_seasonal_offsets
german_job_fits = refl

canadian_job_conflicts : overall offset_at 10 10 60 candidate canadian_job ≡ OverallStatus.conflict
unfolding evaluate complete_profile synthesize evaluate_location evaluate_sponsorship
    evaluate_timezone availability Timezone.evaluate Timezone.get_seasonal_offsets
canadian_job_conflicts = refl

evaluate-conflict_iff_example :
    (overall offset_at 10 10 60 candidate canadian_job ≡ OverallStatus.conflict)
    ↔ ((present candidate.current_country ≡ true) × IsExcluded candidate canadian_job)
evaluate-conflict_iff_example = evaluate-conflict_iff offset_at 10 10 60 candidate canadian_job

evaluate-not_calculated_iff_example :
    ((overall offset_at 10 10 60 candidate german_job ≡ not_calculated)
      ↔ (present candidate.current_country ≡ false))
    × (overall offset_at 10 10 60 candidate german_job ≢ likely_eligible)
evaluate-not_calculated_iff_example =
    evaluate-not_calculated_iff offset_at 10 10 60 candidate german_job

known_scope : country_limited ≢ unknown
known_scope e = cc

evaluate-satisfied_iff_example :
    ((Timezone.evaluate offset_at 10 10 60 (some "Europe/Berlin") (pos 120 ∷ [])).status
      ≡ satisfied)
    ↔ ((is_empty (pos 120 ∷ []) ≡ true)
        ⊎ ((z : String) × (current : ℤ) × (non_empty (some "Europe/Berlin") ≡ some z)
            × (offset_at z 10 ≡ some current)
            × Fits offset_at 10 10 60 (pos 120 ∷ []) z current))
evaluate-satisfied_iff_example =
    evaluate-satisfied_iff offset_at 10 10 60 (some "Europe/Berlin") (pos 120 ∷ [])
