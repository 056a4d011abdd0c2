-- ===== src/Matching/Evaluator.antt =====
-- Four dimensions of a match brief: `evaluateTitle` to `evaluateWorkMode` of
-- backend/src/modules/matching/match-brief-evaluator.service.ts.
use rolebrief.Common.{
  ◌-◌, Bool, true, false, not, ◌||◌, Option, none, some, List, [], String, map, ◌==◌, str_eq,
  truthy, trim, join, keep, find, any, is_empty, or_else, if◌then◌else◌,
}
use rolebrief.Matching.{
  MatchDimension, title, seniority, employment_type, work_mode, MatchState, matched, partial, gap,
  unknown, MatchResult, user_declared, provider_structured, unavailable,
}
use rolebrief.Matching.Facts.{
  CandidateMatchFacts, JobMatchFacts, TextEngine, CanonicalSeniority, EmploymentType, full_time,
  part_time, contract, internship, temporary, RemotePreference, remote_only, prefers_hybrid,
  prefers_onsite, open_to_any, WorkMode, onsite, hybrid, remote, unknown_mode, rank, level_name,
  map_candidate_seniority, type_name, preference_name, mode_name, bound,
  has_conservative_partial_title_match, map_job_seniorities, map_job_employment_type,
}

abbrev pub not_specified : String
not_specified = "Not specified"

abbrev pub type_eq : EmploymentType → EmploymentType → Bool
type_eq full_time full_time = true
type_eq part_time part_time = true
type_eq contract contract = true
type_eq internship internship = true
type_eq temporary temporary = true
type_eq _ _ = false

-- `acceptedWorkModes(preference).includes(mode)`
abbrev pub accepts_mode : RemotePreference → WorkMode → Bool
accepts_mode open_to_any remote = true
accepts_mode open_to_any hybrid = true
accepts_mode open_to_any onsite = true
accepts_mode remote_only remote = true
accepts_mode prefers_hybrid hybrid = true
accepts_mode prefers_hybrid remote = true
accepts_mode prefers_onsite onsite = true
accepts_mode _ _ = false

abbrev pub is_unknown_mode : WorkMode → Bool
is_unknown_mode unknown_mode = true
is_unknown_mode _ = false

-- `Math.abs(rank(a) - rank(b)) === 1`
abbrev pub is_adjacent : CanonicalSeniority → CanonicalSeniority → Bool
is_adjacent a b = (rank a - rank b) == 1 || (rank b - rank a) == 1

module _ (engine : TextEngine) where
  -- `result`
  abbrev pub result :
      MatchDimension
      → MatchState
      → String
      → String
      → String
      → String
      → String
      → String
      → MatchResult
  result dimension status reason candidate_label candidate_value job_label job_value explanation =
      record {
        dimension = dimension;
        status = status;
        reason_code = reason;
        candidate_fact = record {
          label = candidate_label;
          value = bound engine candidate_value 160;
          provenance = if str_eq candidate_value not_specified then unavailable else user_declared;
        };
        job_fact = record {
          label = job_label;
          value = bound engine job_value 160;
          provenance =
              if str_eq job_value not_specified
                || str_eq job_value "Unknown"
                || str_eq job_value "Not disclosed"
              then unavailable
              else provider_structured;
        };
        explanation = bound engine explanation 240;
      }

  abbrev title_result : MatchState → String → String → String → String → MatchResult
  title_result status reason wanted job explanation =
      result title status reason "Target role" wanted "Job title" job explanation

  unfoldable pub evaluate_title : CandidateMatchFacts → JobMatchFacts → MatchResult
  evaluate_title candidate job =
      let targets = keep truthy (map trim candidate.target_role_titles) in
      let job_title = engine.normalize_title job.title in
      if is_empty targets
      then title_result unknown "TITLE_CANDIDATE_MISSING" not_specified job.title
          "Add target role titles to calculate title alignment."
      else if not (truthy (trim job.title))
      then title_result unknown "TITLE_JOB_MISSING" (join ", " targets) not_specified
          "The employer did not provide a comparable title."
      else elim (find (λ t. str_eq (engine.normalize_title t) job_title) targets) [
        | some target ↦
            title_result matched "TITLE_EXACT_MATCH" target job.title
              "The job title matches one of your target roles."
        | none ↦
            elim (find (λ t. has_conservative_partial_title_match engine t job.title) targets) [
              | some target ↦
                  title_result partial "TITLE_CONTROLLED_PARTIAL_MATCH" target job.title
                    "The title shares a conservative approved role-title pattern."
              | none ↦
                  title_result gap "TITLE_KNOWN_MISMATCH" (join ", " targets) job.title
                    "The job title does not match your declared target roles."
            ]
      ]

  abbrev seniority_result : MatchState → String → String → String → String → MatchResult
  seniority_result status reason level job explanation =
      result seniority status reason "Target seniority" level "Job seniority" job explanation

  abbrev job_levels : Option String → List CanonicalSeniority
  job_levels none = []
  job_levels (some text) = if truthy text then map_job_seniorities engine text else []

  unfoldable pub evaluate_seniority : CandidateMatchFacts → JobMatchFacts → MatchResult
  evaluate_seniority candidate job = elim candidate.seniority_level [
    | none ↦
        seniority_result unknown "SENIORITY_CANDIDATE_MISSING" not_specified
          (or_else job.seniority not_specified) "Add a target seniority level to compare seniority."
    | some declared ↦
        let level = map_candidate_seniority declared in
        let levels = job_levels job.seniority in
        let stated = or_else job.seniority not_specified in
        if is_empty levels
        then seniority_result unknown "SENIORITY_JOB_MISSING" (level_name level) not_specified
            "The employer did not provide structured seniority."
        else if any (λ l. rank l == rank level) levels
        then seniority_result matched "SENIORITY_EXACT_MATCH" (level_name level) stated
            "The job seniority matches your target level."
        else if any (λ l. is_adjacent l level) levels
        then seniority_result partial "SENIORITY_ADJACENT_PARTIAL" (level_name level) stated
            "The job seniority is adjacent to your target level."
        else seniority_result gap "SENIORITY_CONFIRMED_GAP" (level_name level) stated
            "The job seniority is materially different from your target level."
  ]

  abbrev type_result : MatchState → String → String → String → String → MatchResult
  type_result status reason wanted job explanation =
      result employment_type status reason "Employment preference" wanted "Job type" job explanation

  abbrev job_type : Option String → Option EmploymentType
  job_type none = none
  job_type (some text) = if truthy text then map_job_employment_type engine text else none

  unfoldable pub evaluate_employment_type : CandidateMatchFacts → JobMatchFacts → MatchResult
  evaluate_employment_type candidate job =
      let wanted = join ", " (map type_name candidate.employment_types) in
      if is_empty candidate.employment_types
      then type_result unknown "EMPLOYMENT_TYPE_CANDIDATE_MISSING" not_specified
          (or_else job.employment_type not_specified)
          "Add acceptable employment types to compare this role."
      else elim (job_type job.employment_type) [
        | none ↦
            type_result unknown "EMPLOYMENT_TYPE_JOB_MISSING" wanted not_specified
              "The employer did not provide a comparable employment type."
        | some offered ↦
            if any (type_eq offered) candidate.employment_types
            then type_result matched "EMPLOYMENT_TYPE_MATCH" wanted (type_name offered)
                "The role uses an employment type you selected."
            else type_result gap "EMPLOYMENT_TYPE_EXCLUDED" wanted (type_name offered)
                "This employment type is outside your selected preferences."
      ]

  abbrev mode_result : MatchState → String → String → String → String → MatchResult
  mode_result status reason preference job explanation =
      result work_mode status reason "Work-mode preference" preference "Job work mode" job
        explanation

  unfoldable pub evaluate_work_mode : CandidateMatchFacts → JobMatchFacts → MatchResult
  evaluate_work_mode candidate job = elim candidate.remote_preference [
    | none ↦
        mode_result unknown "WORK_MODE_CANDIDATE_MISSING" not_specified (mode_name job.work_mode)
          "Add a work-mode preference to compare this role."
    | some preference ↦
        if is_unknown_mode job.work_mode
        then mode_result unknown "WORK_MODE_JOB_MISSING" (preference_name preference) "Unknown"
            "The employer did not provide a comparable work mode."
        else if accepts_mode preference job.work_mode
        then mode_result matched "WORK_MODE_MATCH" (preference_name preference)
            (mode_name job.work_mode) "The role matches your work-mode preference."
        else mode_result gap "WORK_MODE_EXCLUDED" (preference_name preference)
            (mode_name job.work_mode) "This work mode is outside your selected preference."
  ]
