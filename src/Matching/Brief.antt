-- ===== src/Matching/Brief.antt =====
-- `evaluate` of backend/src/modules/matching/match-brief-evaluator.service.ts: a match brief of the five
-- dimensions.
use rolebrief.Common.{
  ℕ, ◌+◌, ◌*◌, ◌/◌, Bool, true, false, ◌&&◌, ◌||◌, Option, List, [], ◌∷◌, String, map, ltb, leb,
  ◌==◌, keep, take, find, length, or_else, or_null, if◌then◌else◌,
}
use rolebrief.Matching.{
  MatchStatus, strong_alignment, partial_alignment, limited_alignment, not_calculated, MatchState,
  matched, partial, gap, unknown, not_applicable, MatchResult, MatchEvidence, MatchBrief,
}
use rolebrief.Matching.Facts.{CandidateMatchFacts, JobMatchFacts, TextEngine}
use rolebrief.Matching.Evaluator.{
  evaluate_title, evaluate_seniority, evaluate_employment_type, evaluate_work_mode,
}
use rolebrief.Matching.Compensation.{evaluate_compensation}
use mathlib.Core.Option

abbrev pub state_eq : MatchState → MatchState → Bool
state_eq matched matched = true
state_eq partial partial = true
state_eq gap gap = true
state_eq unknown unknown = true
state_eq not_applicable not_applicable = true
state_eq _ _ = false

abbrev pub has_state : MatchState → MatchResult → Bool
has_state state d = state_eq d.status state

-- `["MATCH", "PARTIAL", "GAP"].includes(d.status)`
abbrev pub is_comparable : MatchResult → Bool
is_comparable d = has_state matched d || has_state partial d || has_state gap d

abbrev pub count_state : MatchState → List MatchResult → ℕ
count_state state ds = length (keep (has_state state) ds)

-- The status, of the numbers of comparable dimensions, gaps, matches and partial matches.
abbrev pub status_of : ℕ → ℕ → ℕ → ℕ → MatchStatus
status_of comparable gaps matches partials =
    if ltb comparable 2
    then not_calculated
    else if leb 2 gaps || (gaps == 1 && matches == 0)
    then limited_alignment
    else if gaps == 0 && leb 2 matches && leb partials 1
    then strong_alignment
    else partial_alignment

-- `Math.round(comparable / denominator * 100)`, and 0 where there is nothing to divide by.
abbrev pub coverage_of : ℕ → ℕ → ℕ
coverage_of comparable denominator =
    if denominator == 0 then 0 else (200 * comparable + denominator) / (2 * denominator)

abbrev pub status_label : MatchStatus → String
status_label strong_alignment = "Strong alignment"
status_label partial_alignment = "Partial alignment"
status_label limited_alignment = "Limited alignment"
status_label not_calculated = "Not calculated"

-- `summaries`
abbrev pub summaries : List MatchResult → List MatchEvidence
summaries ds =
    map
      (λ (d : MatchResult). record {
        dimension = d.dimension;
        reason_code = d.reason_code;
        label = d.explanation;
      })
      (take 3 ds)

abbrev pub reason_of : MatchState → List MatchResult → Option String
reason_of state ds = Option.map (λ (d : MatchResult). d.reason_code) (find (has_state state) ds)

-- `primaryReason`
abbrev pub primary_reason : List MatchResult → String
primary_reason ds =
    or_else
      (or_null (reason_of gap ds)
        (or_null (reason_of matched ds) (or_null (reason_of partial ds) (reason_of unknown ds))))
      "INSUFFICIENT_COMPARABLE_DIMENSIONS"

abbrev pub is_calculated : MatchStatus → Bool
is_calculated not_calculated = false
is_calculated _ = true

module _ (engine : TextEngine) where
  unfoldable pub dimensions : CandidateMatchFacts → JobMatchFacts → List MatchResult
  dimensions candidate job =
      evaluate_title engine candidate job
      ∷ evaluate_seniority engine candidate job
      ∷ evaluate_employment_type engine candidate job
      ∷ evaluate_work_mode engine candidate job
      ∷ evaluate_compensation engine candidate job
      ∷ []

  -- `evaluate`, for a version of the job that `computeJobMatchVersion` gives.
  unfoldable pub evaluate :
      (JobMatchFacts → String) → ℕ → CandidateMatchFacts → JobMatchFacts → MatchBrief
  evaluate job_version now candidate job =
      let ds = dimensions candidate job in
      let comparable = keep is_comparable ds in
      let status =
        status_of (length comparable) (count_state gap comparable) (count_state matched comparable)
          (count_state partial comparable) in
      record {
        engine_version = "match-brief-v1";
        taxonomy_version = "title-taxonomy-v1";
        job_slug = job.slug;
        status = status;
        label = status_label status;
        coverage_percent =
            coverage_of (length comparable) (length comparable + count_state unknown ds);
        comparable_dimension_count = length comparable;
        primary_reason_code =
            if is_calculated status
            then primary_reason ds
            else "INSUFFICIENT_COMPARABLE_DIMENSIONS";
        strengths = summaries (keep (λ d. has_state matched d || has_state partial d) ds);
        gaps = summaries (keep (has_state gap) ds);
        unknowns = summaries (keep (has_state unknown) ds);
        profile_revision = candidate.revision;
        job_match_version = job_version job;
        calculated_at = now;
      }
