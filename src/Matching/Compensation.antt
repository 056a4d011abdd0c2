-- ===== src/Matching/Compensation.antt =====
-- The fifth dimension of a match brief: `evaluateCompensation` of
-- backend/src/modules/matching/match-brief-evaluator.service.ts.
use Prim.Native.String.{◌++◌}
use rolebrief.Common.{
  ℕ, Bool, true, false, not, ◌&&◌, Option, none, some, List, [], ◌∷◌, String, map, ltb, leb, str_eq,
  truthy, join, is_some, or_else, if◌then◌else◌,
}
use rolebrief.Matching.{compensation, MatchState, matched, partial, gap, unknown, MatchResult}
use rolebrief.Matching.Evaluator.{not_specified, result}
use rolebrief.Matching.Facts.{
  CandidateMatchFacts, JobMatchFacts, JobSalary, TextEngine, SalaryPeriod, hourly, monthly, annual,
  period_label, normalize_period,
}

abbrev pub non_null : Option ℕ → Option ℕ → List ℕ
non_null none none = []
non_null (some a) none = a ∷ []
non_null none (some b) = b ∷ []
non_null (some a) (some b) = a ∷ b ∷ []

abbrev pub period_eq : SalaryPeriod → SalaryPeriod → Bool
period_eq hourly hourly = true
period_eq monthly monthly = true
period_eq annual annual = true
period_eq _ _ = false

module _ (engine : TextEngine) where
  abbrev range_text : Option ℕ → Option ℕ → String
  range_text min max = join "-" (map engine.locale_number (non_null min max))

  abbrev pub format_candidate_salary : CandidateMatchFacts → String
  format_candidate_salary candidate =
      let range = range_text candidate.min_salary candidate.max_salary in
      if not (truthy range)
      then not_specified
      else or_else candidate.salary_currency "currency not specified"
        ++ (" "
            ++ (range ++ elim candidate.salary_period [
              | none ↦ ""
              | some period ↦ " / " ++ period_label period
            ]))

  abbrev job_period_text : Option String → String
  job_period_text none = ""
  job_period_text (some period) = if truthy period then " / " ++ engine.lower period else ""

  abbrev pub format_job_salary : Option JobSalary → String
  format_job_salary none = "Not disclosed"
  format_job_salary (some salary) =
      if not (is_some salary.min) && not (is_some salary.max)
      then "Not disclosed"
      else or_else salary.currency "currency not specified"
        ++ (" " ++ (range_text salary.min salary.max ++ job_period_text salary.period))

  -- Two texts that are there, and equal in upper case.
  abbrev pub same_currency : Option String → Option String → Bool
  same_currency (some a) (some b) = truthy a && truthy b && str_eq (engine.upper a) (engine.upper b)
  same_currency _ _ = false

  abbrev pub same_period : Option SalaryPeriod → Option String → Bool
  same_period (some period) (some text) = truthy text && elim (normalize_period engine text) [
    | none ↦ false
    | some offered ↦ period_eq offered period
  ]
  same_period _ _ = false

  abbrev below : Option ℕ → Option ℕ → Bool
  below (some a) (some b) = ltb a b
  below _ _ = false

  -- `jobMin == null || jobMin < candMin`
  abbrev starts_below : Option ℕ → Option ℕ → Bool
  starts_below none (some wanted) = true
  starts_below (some offered) (some wanted) = ltb offered wanted
  starts_below _ none = false

  -- `jobMax == null || jobMax >= candMin`
  abbrev reaches : Option ℕ → Option ℕ → Bool
  reaches (some offered) (some wanted) = leb wanted offered
  reaches _ _ = true

  -- The comparison of the ranges, once currency and period agree.
  abbrev pub compare_ranges :
      Option ℕ → Option ℕ → Option ℕ → Option ℕ → MatchState × String × String
  compare_ranges cand_min cand_max job_min job_max =
      if below job_max cand_min
      then (
        gap, "COMPENSATION_BELOW_MINIMUM",
        "The disclosed maximum is below your minimum preference.",
      )
      else if starts_below job_min cand_min && reaches job_max cand_min
      then (
        partial, "COMPENSATION_PARTIAL_OVERLAP",
        "The disclosed range partially overlaps your preference.",
      )
      else if below cand_max job_min
      then (
        partial, "COMPENSATION_PARTIAL_OVERLAP",
        "The disclosed range starts above your stated maximum.",
      )
      else (
        matched, "COMPENSATION_MATCH",
        "The disclosed compensation is comparable with your preference.",
      )

  abbrev salary_result : MatchState → String → String → String → String → MatchResult
  salary_result status reason wanted job explanation =
      result engine compensation status reason "Compensation preference" wanted "Employer salary"
        job explanation

  abbrev with_salary : CandidateMatchFacts → JobSalary → MatchResult
  with_salary candidate salary =
      let wanted = format_candidate_salary candidate in
      let offered = format_job_salary (some salary) in
      if not (is_some salary.min) && not (is_some salary.max)
      then salary_result unknown "COMPENSATION_MISSING" wanted "Not disclosed"
          "The employer did not disclose comparable compensation."
      else if not (same_currency candidate.salary_currency salary.currency)
      then salary_result unknown "COMPENSATION_CURRENCY_MISMATCH" wanted offered
          "Currency differs or is unavailable, so no conversion was attempted."
      else if not (same_period candidate.salary_period salary.period)
      then salary_result unknown "COMPENSATION_PERIOD_MISMATCH" wanted offered
          "Salary periods differ or are unavailable, so no conversion was attempted."
      else (let (status, reason, text) =
            compare_ranges candidate.min_salary candidate.max_salary salary.min salary.max in
          salary_result status reason wanted offered text)

  unfoldable pub evaluate_compensation : CandidateMatchFacts → JobMatchFacts → MatchResult
  evaluate_compensation candidate job =
      if not (is_some candidate.min_salary) && not (is_some candidate.max_salary)
      then salary_result unknown "COMPENSATION_CANDIDATE_MISSING" not_specified
          (format_job_salary job.salary) "Add compensation preferences to compare salary."
      else elim job.salary [
        | none ↦
            salary_result unknown "COMPENSATION_MISSING" (format_candidate_salary candidate)
              "Not disclosed" "The employer did not disclose comparable compensation."
        | some salary ↦ with_salary candidate salary
      ]
