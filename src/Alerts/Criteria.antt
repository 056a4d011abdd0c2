-- ===== src/Alerts/Criteria.antt =====
-- Which alerts a job matches: the prefilter of the query and the test of each alert in `process` of
-- backend/src/modules/alerts/alert-evaluation.processor.ts.
use rolebrief.Common.{
  ℕ, Bool, true, false, not, ◌&&◌, ◌||◌, Option, none, some, List, [], String, str_eq, find, any,
  is_empty, is_some, or_else, if◌then◌else◌,
}
use mathlib.Core.Option
use rolebrief.Common.Int.{ℤ}
use rolebrief.Matching.{
  MatchStatus, strong_alignment, partial_alignment, MatchDimension, title, matched, partial,
  MatchResult,
}
use rolebrief.Matching.Facts.{CandidateMatchFacts, JobMatchFacts, TextEngine, mode_name}
use rolebrief.Matching.Brief.{evaluate, dimensions, has_state}
use rolebrief.Eligibility.Types.{OverallStatus, appears_eligible, likely_eligible, CandidateFacts}
use rolebrief.Eligibility.Evaluator
use rolebrief.Alerts.Types.{
  Alert, AlertRow, AlertUser, AlertProfile, Preferences, JobEntity, AlertStatus, active,
  EligibilityPolicy, include_all, no_known_conflicts, AlignmentTier, strong_only, partial_or_better,
  any_alignment,
}

abbrev pub is_active : AlertStatus → Bool
is_active active = true
is_active _ = false

-- `hasSalary`
abbrev pub has_salary : JobEntity → Bool
has_salary job = elim job.match_facts.salary [
  | none ↦ false
  | some s ↦ is_some s.min || is_some s.max
]

-- `salaryDisclosed` is null or false.
abbrev pub allows_undisclosed : Alert → Bool
allows_undisclosed a = not (or_else a.salary_disclosed false)

-- The query for the candidates.
unfoldable pub is_candidate : JobEntity → AlertRow → Bool
is_candidate job row =
    let a = row.alert in
    let countries = job.facts.remote_country_codes in
    is_active a.status
    && (is_empty a.work_modes
        || any (λ mode. str_eq (mode_name mode) (mode_name job.match_facts.work_mode)) a.work_modes)
    && (has_salary job || allows_undisclosed a)
    && (is_empty countries
        || is_empty a.country_codes
        || any (λ code. any (str_eq code) countries) a.country_codes)

abbrev from_preferences {ℓ} : {A : Type ℓ} → (Preferences → Option A) → AlertUser → Option A
from_preferences f u = Option.bind (Option.bind u.profile (λ (p : AlertProfile). p.preferences)) f

abbrev pub revision_of : AlertUser → ℕ
revision_of u = or_else (Option.map (λ (p : AlertProfile). p.revision) u.profile) 0

-- What `process` hands to the evaluator of match briefs: the titles of the alert, the rest of the user.
abbrev pub match_facts_of : AlertRow → CandidateMatchFacts
match_facts_of row =
    let u = row.user in
    record {
      revision = revision_of u;
      target_role_titles = row.alert.criteria.target_titles;
      seniority_level = Option.bind u.profile (λ (p : AlertProfile). p.seniority_level);
      remote_preference = from_preferences (λ (p : Preferences). p.remote_preference) u;
      employment_types =
          or_else (from_preferences (λ (p : Preferences). some p.employment_types) u) [];
      min_salary = from_preferences (λ (p : Preferences). p.min_salary) u;
      max_salary = from_preferences (λ (p : Preferences). p.max_salary) u;
      salary_currency = from_preferences (λ (p : Preferences). p.salary_currency) u;
      salary_period = from_preferences (λ (p : Preferences). p.salary_period) u;
    }

-- `candidateEligibilityFacts`; `user_name` prints an identifier.
abbrev pub eligibility_facts_of : (ℕ → String) → AlertUser → CandidateFacts
eligibility_facts_of user_name u = record {
  user_id = user_name u.id;
  current_country = Option.bind u.profile (λ (p : AlertProfile). p.current_country);
  work_authorizations =
      or_else (Option.map (λ (p : AlertProfile). p.work_authorizations) u.profile) [];
  requires_visa_sponsorship =
      Option.bind u.profile (λ (p : AlertProfile). p.requires_visa_sponsorship);
  timezone = u.timezone;
  revision = revision_of u;
}

abbrev pub is_title : MatchDimension → Bool
is_title title = true
is_title _ = false

-- `titleDimension` is there, and a match or a partial one.
abbrev pub title_fits : List MatchResult → Bool
title_fits ds = elim (find (λ (d : MatchResult). is_title d.dimension) ds) [
  | none ↦ false
  | some d ↦ has_state matched d || has_state partial d
]

-- The tier that the criteria ask for.
abbrev pub tier_fits : AlignmentTier → MatchStatus → Bool
tier_fits any_alignment s = true
tier_fits strong_only strong_alignment = true
tier_fits strong_only _ = false
tier_fits partial_or_better strong_alignment = true
tier_fits partial_or_better partial_alignment = true
tier_fits partial_or_better _ = false

abbrev pub policy_allows : EligibilityPolicy → OverallStatus → Bool
policy_allows include_all s = true
policy_allows no_known_conflicts appears_eligible = true
policy_allows no_known_conflicts likely_eligible = true
policy_allows no_known_conflicts _ = false

-- What the two evaluators need beside the facts.
pub record Engines : Type 0 where
  pub text : TextEngine
  pub job_version : JobMatchFacts → String
  pub offset_at : String → ℕ → Option ℤ
  pub user_name : ℕ → String
  pub now : ℕ
  pub winter : ℕ
  pub summer : ℕ

module _ (engines : Engines) where
  abbrev pub titles_fit : JobEntity → AlertRow → Bool
  titles_fit job row =
      if is_empty row.alert.criteria.target_titles
      then true
      else title_fits (dimensions engines.text (match_facts_of row) job.match_facts)
        && tier_fits row.alert.criteria.alignment
            (evaluate engines.text engines.job_version engines.now (match_facts_of row)
              job.match_facts).status

  abbrev pub status_for : JobEntity → AlertRow → OverallStatus
  status_for job row =
      (Evaluator.evaluate engines.offset_at engines.now engines.winter engines.summer
        (eligibility_facts_of engines.user_name row.user) job.facts).overall_status

  -- The alert is not passed over.
  unfoldable pub fits : JobEntity → AlertRow → Bool
  fits job row =
      titles_fit job row && policy_allows row.alert.eligibility_policy (status_for job row)
