-- ===== src/Matching/Tests.antt =====
-- A match brief of one candidate and one job, with texts that are compared as they stand.
use rolebrief.Common.{
  ◌*◌, ◌≤◌, none, some, true, false, [], ◌∷◌, String, str_eq, trim, join, ◌≡◌, refl,
}
use rolebrief.Matching.{strong_alignment}
use rolebrief.Matching.Facts.{
  CandidateMatchFacts, JobMatchFacts, TextEngine, full_time, remote_only, remote, senior,
  has_conservative_partial_title_match,
}
use rolebrief.Matching.Evaluator.{
  evaluate_title, evaluate_seniority, evaluate_employment_type, evaluate_work_mode,
}
use rolebrief.Matching.Compensation.{evaluate_compensation}
use rolebrief.Matching.Brief.{dimensions, evaluate}
use rolebrief.Matching.BriefLaws.{IsSupported, evaluate-coverage, evaluate-IsSupported}

abbrev pub plain : TextEngine
plain = record {
  normalize_title = λ s. s;
  upper = λ s. s;
  lower = λ s. s;
  locale_number = λ n. "1";
  squeeze = λ s. s;
  underscored = λ s. s;
  mentions = λ words s. str_eq words s;
  prefix = λ n s. s;
}

abbrev candidate : CandidateMatchFacts
candidate = record {
  revision = 3;
  target_role_titles = "backend engineer" ∷ [];
  seniority_level = some senior;
  remote_preference = some remote_only;
  employment_types = full_time ∷ [];
  min_salary = none;
  max_salary = none;
  salary_currency = none;
  salary_period = none;
}

abbrev pub job : JobMatchFacts
job = record {
  slug = "dev";
  title = "backend engineer";
  seniority = none;
  employment_type = some "FULL_TIME";
  work_mode = remote;
  salary = none;
}

abbrev pub version : JobMatchFacts → String
version j = j.slug

-- Title, type and work mode match; seniority and salary are unknown.
strong_test : (evaluate plain version 9 candidate job).status ≡ strong_alignment
unfolding evaluate dimensions evaluate_title evaluate_seniority evaluate_employment_type
    evaluate_work_mode evaluate_compensation trim join
strong_test = refl

evaluate-coverage_example :
    let brief = evaluate plain version 9 candidate job in
    (brief.coverage_percent ≡ 20 * brief.comparable_dimension_count)
    × (brief.coverage_percent ≤ 100)
evaluate-coverage_example = evaluate-coverage plain version 9 candidate job

evaluate-IsSupported_example :
    let brief = evaluate plain version 9 candidate job in
    IsSupported brief.status brief (dimensions plain candidate job)
evaluate-IsSupported_example = evaluate-IsSupported plain version 9 candidate job

partial_title_test :
    has_conservative_partial_title_match plain "senior backend engineer" "backend engineer" ≡ true
unfolding has_conservative_partial_title_match
partial_title_test = refl

protected_title_test :
    has_conservative_partial_title_match plain "java backend engineer" "javascript backend engineer"
    ≡ false
unfolding has_conservative_partial_title_match
protected_title_test = refl
