-- ===== src/Matching/BriefLaws.antt =====
-- What a match brief promises (backend/src/modules/matching/match-brief-evaluator.service.ts).
use rolebrief.Common.{
  ℕ, ◌+◌, ◌*◌, ◌≤◌, ◌<◌, Bool, true, not, some, List, [], ◌∷◌, String, keep, keep-keep, find,
  length, All, All-intro, ◌≡◌, refl, ap, sym, ◌∙◌, arith, Bool-cases, inl, inr,
}
use rolebrief.Matching.{
  MatchStatus, strong_alignment, partial_alignment, limited_alignment, not_calculated, MatchState,
  matched, partial, gap, unknown, MatchResult, MatchBrief,
}
use rolebrief.Matching.Facts.{CandidateMatchFacts, JobMatchFacts, TextEngine}
use rolebrief.Matching.Evaluator.{
  evaluate_title, evaluate_seniority, evaluate_employment_type, evaluate_work_mode,
}
use rolebrief.Matching.Compensation.{evaluate_compensation}
use rolebrief.Matching.Brief.{
  has_state, is_comparable, count_state, status_of, coverage_of, summaries, dimensions, evaluate,
}

-- A dimension is comparable or unknown, never left out.
abbrev Applies : MatchResult → Type 0
Applies d = has_state unknown d ≡ not (is_comparable d)

module _ (engine : TextEngine) (candidate : CandidateMatchFacts) (job : JobMatchFacts) where
  title-Applies : Applies (evaluate_title engine candidate job)
  unfolding evaluate_title
  title-Applies = ground arith

  seniority-Applies : Applies (evaluate_seniority engine candidate job)
  unfolding evaluate_seniority
  seniority-Applies = ground arith

  employment_type-Applies : Applies (evaluate_employment_type engine candidate job)
  unfolding evaluate_employment_type
  employment_type-Applies = ground arith

  work_mode-Applies : Applies (evaluate_work_mode engine candidate job)
  unfolding evaluate_work_mode
  work_mode-Applies = ground arith

  compensation-Applies : Applies (evaluate_compensation engine candidate job)
  unfolding evaluate_compensation
  compensation-Applies = ground arith

-- The comparable dimensions and the unknown ones are all.
counts-All :
    (ds : List MatchResult)
    → All Applies ds
    → length (keep is_comparable ds) + count_state unknown ds ≡ length ds
counts-All [] h = omega arith
counts-All (d ∷ ds) (applies, h) = elim (Bool-cases (is_comparable d)) [
  | inl c ↦ rw (c, is_comparable) (rw (applies ∙ ap not c) (omega (arith, counts-All ds h)))
  | inr u ↦ rw (u, is_comparable) (rw (applies ∙ ap not u) (omega (arith, counts-All ds h)))
]

coverage_of_five : (c u : ℕ) → c + u ≡ 5 → coverage_of c (c + u) ≡ 20 * c
coverage_of_five c u h = rw h (omega arith)

module _ (engine : TextEngine) (job_version : JobMatchFacts → String) (now : ℕ)
    (candidate : CandidateMatchFacts) (job : JobMatchFacts) where
  -- Every dimension of a brief is comparable or unknown, so that the coverage is always 20 percent for
  -- each comparable dimension, and never above 100.
  pub evaluate-coverage :
      let brief = evaluate engine job_version now candidate job in
      (brief.coverage_percent ≡ 20 * brief.comparable_dimension_count)
      × (brief.coverage_percent ≤ 100)
  unfolding evaluate dimensions
  evaluate-coverage =
      let ds = dimensions engine candidate job in
      let all : length (keep is_comparable ds) + count_state unknown ds ≡ 5 = counts-All ds (
        title-Applies engine candidate job,
        (
          seniority-Applies engine candidate job,
          (
            employment_type-Applies engine candidate job,
            (
              work_mode-Applies engine candidate job,
              (compensation-Applies engine candidate job, tt),
            ),
          ),
        ),
      ) in
      let covered =
        coverage_of_five (length (keep is_comparable ds)) (count_state unknown ds) all in
      (covered, omega (arith, covered, all))

-- What a status tells of the numbers it is made of.
status_of_lem :
    (comparable gaps matches partials : ℕ)
    → let status = status_of comparable gaps matches partials in
      (status ≡ strong_alignment → (gaps ≡ 0) × (2 ≤ matches))
      × (status ≡ limited_alignment → 0 < gaps)
      × (status ≡ not_calculated → comparable < 2)
      × (status ≡ partial_alignment → 2 ≤ comparable)
status_of_lem comparable gaps matches partials = ground arith

status_tells :
    (ds : List MatchResult)
    → let cs = keep is_comparable ds in
      let status =
        status_of
          (length cs)
          (count_state gap cs)
          (count_state matched cs)
          (count_state partial cs) in
      (status ≡ strong_alignment → (count_state gap cs ≡ 0) × (2 ≤ count_state matched cs))
      × (status ≡ limited_alignment → 0 < count_state gap cs)
      × (status ≡ not_calculated → length cs < 2)
      × (status ≡ partial_alignment → 2 ≤ length cs)
status_tells ds =
    let cs = keep is_comparable ds in
    status_of_lem (length cs) (count_state gap cs) (count_state matched cs) (count_state partial cs)

empty_of_length {ℓ} : {A : Type ℓ} (xs : List A) → length xs ≡ 0 → xs ≡ []
empty_of_length [] h = refl
empty_of_length (x ∷ xs) h = ground arith

find_of_length {ℓ} :
    {A : Type ℓ} (p : A → Bool) (xs : List A)
    → 0 < length (keep p xs)
    → (x : A) × (find p xs ≡ some x)
find_of_length p [] h = ground arith
find_of_length p (x ∷ xs) h = elim (Bool-cases (p x)) [
  | inl hit ↦ (x, rw hit refl)
  | inr miss ↦ let (y, found) = find_of_length p xs (rw miss at h) in (y, rw miss found)
]

-- Counting among the comparable dimensions is counting among all.
count_comparable :
    (state : MatchState) (ds : List MatchResult)
    → ((d : MatchResult) → has_state state d ≡ true → is_comparable d ≡ true)
    → count_state state (keep is_comparable ds) ≡ count_state state ds
count_comparable state ds h =
    ap length (keep-keep (has_state state) is_comparable ds (All-intro _ ds h))

gap_comparable : (d : MatchResult) → has_state gap d ≡ true → is_comparable d ≡ true
gap_comparable d h = ground arith

matched_comparable : (d : MatchResult) → has_state matched d ≡ true → is_comparable d ≡ true
matched_comparable d h = ground arith

-- What each status says of a brief and of the dimensions that it was made of.
abbrev pub IsSupported : MatchStatus → MatchBrief → List MatchResult → Type 0
IsSupported strong_alignment brief ds = (brief.gaps ≡ []) × (2 ≤ count_state matched ds)
IsSupported partial_alignment brief ds = 2 ≤ brief.comparable_dimension_count
IsSupported limited_alignment brief ds =
    (d : MatchResult) × (find (has_state gap) ds ≡ some d)
    × (brief.primary_reason_code ≡ d.reason_code)
IsSupported not_calculated brief ds =
    (brief.comparable_dimension_count < 2)
    × (brief.primary_reason_code ≡ "INSUFFICIENT_COMPARABLE_DIMENSIONS")

module _ (engine : TextEngine) (job_version : JobMatchFacts → String) (now : ℕ)
    (candidate : CandidateMatchFacts) (job : JobMatchFacts) where
  IsSupported-of :
      (status : MatchStatus)
      → (evaluate engine job_version now candidate job).status ≡ status
      → IsSupported status
          (evaluate engine job_version now candidate job)
          (dimensions engine candidate job)
  unfolding evaluate
  IsSupported-of strong_alignment e =
      let ds = dimensions engine candidate job in
      let (none_left, two) = (status_tells ds).0 e in
      (
        ap summaries (
            empty_of_length (keep (has_state gap) ds)
              (sym (count_comparable gap ds gap_comparable) ∙ none_left)),
        omega (arith, count_comparable matched ds matched_comparable, two),
      )
  IsSupported-of partial_alignment e = (status_tells (dimensions engine candidate job)).3 e
  IsSupported-of limited_alignment e =
      let ds = dimensions engine candidate job in
      let (d, found) =
        find_of_length (has_state gap) ds
          (omega (arith, count_comparable gap ds gap_comparable, (status_tells ds).1 e)) in
      (d, found, rw e (rw found refl))
  IsSupported-of not_calculated e =
      ((status_tells (dimensions engine candidate job)).2 e, rw e refl)

  -- A brief of strong alignment lists no gap and rests on two matches at least; one of partial
  -- alignment compares two dimensions at least; one of limited alignment gives the reason of the first
  -- gap as its primary reason; and one that was not calculated had fewer than two dimensions to
  -- compare, and says so.
  pub evaluate-IsSupported :
      let brief = evaluate engine job_version now candidate job in
      IsSupported brief.status brief (dimensions engine candidate job)
  evaluate-IsSupported = IsSupported-of (evaluate engine job_version now candidate job).status refl
