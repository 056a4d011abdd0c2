-- ===== src/Eligibility/Laws.antt =====
-- What the Eligibility Shield promises.
use rolebrief.Common.{
  ℕ, true, false, Option, none, some, [], ◌∷◌, String, is_empty, present, ◌≡◌, ◌≢◌, ◌↔◌, ◌⊎◌, inl,
  inr, arith, Bool-cases, sym, ◌∙◌,
}
use rolebrief.Common.Int.{ℤ}
use rolebrief.Eligibility.Types.{
  OverallStatus, appears_eligible, likely_eligible, not_calculated, DimensionStatus, satisfied,
  insufficient_data, DimensionResult, unknown, CandidateFacts, JobFacts, JobAvailability,
}
use rolebrief.Eligibility.Timezone
use rolebrief.Eligibility.Dimensions.{
  is_delisted_status, availability, job_expired, has_apply_url, matching_authorization,
  allowed_residence, evaluate_location, evaluate_sponsorship, is_satisfied,
}
use rolebrief.Eligibility.Evaluator.{
  is_conflict, is_closed, synthesize, incomplete_profile, evaluate_timezone, complete_profile,
  evaluate,
}

-- The listing takes applications exactly when it has a link, has not expired and is not delisted;
-- and it is reported as closed exactly when it has expired or is delisted.
pub availability_iff :
    (now : ℕ) (job : JobFacts)
    → (((availability now job).can_apply ≡ true)
        ↔ ((has_apply_url job ≡ true) × (is_closed (availability now job).status ≡ false)))
      × ((is_closed (availability now job).status ≡ true)
          ↔ ((job_expired now job ≡ true) ⊎ (is_delisted_status job.job_status ≡ true)))
unfolding availability
availability_iff now job = ground arith

-- Neither time zones nor sponsorship are ever reported as a conflict.
evaluate_timezone-ne-conflict :
    (offset_at : String → ℕ → Option ℤ) (now winter summer : ℕ) (candidate : CandidateFacts)
    (job : JobFacts)
    → is_conflict (evaluate_timezone offset_at now winter summer candidate job) ≡ false
unfolding evaluate_timezone Timezone.evaluate
evaluate_timezone-ne-conflict offset_at now winter summer candidate job = ground arith

evaluate_sponsorship-ne-conflict :
    (candidate : CandidateFacts) (job : JobFacts) (loc : DimensionResult)
    → is_conflict (evaluate_sponsorship candidate job loc) ≡ false
unfolding evaluate_sponsorship
evaluate_sponsorship-ne-conflict candidate job loc = ground arith

-- The job names countries, and the candidate neither has an authorization in one of them nor lives
-- in one of them.
abbrev pub IsExcluded : CandidateFacts → JobFacts → Type 0
IsExcluded candidate job =
    (job.remote_scope ≢ unknown)
    × (is_empty job.unresolved_labels ≡ true)
    × (is_empty job.remote_country_codes ≡ false)
    × (matching_authorization candidate job ≡ none)
    × (allowed_residence candidate job ≡ none)

evaluate_location-conflict_iff :
    (candidate : CandidateFacts) (job : JobFacts)
    → (is_conflict (evaluate_location candidate job) ≡ true) ↔ IsExcluded candidate job
unfolding evaluate_location
evaluate_location-conflict_iff candidate job = ground arith

-- Every dimension is satisfied, in conflict, or left to be checked.
abbrev IsPlain : DimensionResult → Type 0
IsPlain d =
    (d.status ≡ satisfied) ⊎ (d.status ≡ insufficient_data) ⊎ (d.status ≡ DimensionStatus.conflict)

evaluate_location-IsPlain :
    (candidate : CandidateFacts) (job : JobFacts) → IsPlain (evaluate_location candidate job)
unfolding evaluate_location
evaluate_location-IsPlain candidate job = ground arith

evaluate_sponsorship-IsPlain :
    (candidate : CandidateFacts) (job : JobFacts) (loc : DimensionResult)
    → IsPlain (evaluate_sponsorship candidate job loc)
unfolding evaluate_sponsorship
evaluate_sponsorship-IsPlain candidate job loc = ground arith

evaluate_timezone-IsPlain :
    (offset_at : String → ℕ → Option ℤ) (now winter summer : ℕ) (candidate : CandidateFacts)
    (job : JobFacts)
    → IsPlain (evaluate_timezone offset_at now winter summer candidate job)
unfolding evaluate_timezone Timezone.evaluate
evaluate_timezone-IsPlain offset_at now winter summer candidate job = ground arith

-- The overall status, from the statuses of three dimensions of which only the first can conflict.
abbrev Verdict : OverallStatus → DimensionResult → DimensionResult → DimensionResult → Type 0
Verdict status l t s =
    (status ≢ likely_eligible)
    × (status ≢ not_calculated)
    × ((status ≡ OverallStatus.conflict) ↔ (is_conflict l ≡ true))
    × ((status ≡ appears_eligible) ↔ (
        (is_satisfied l.status ≡ true)
        × (is_satisfied t.status ≡ true)
        × (is_satisfied s.status ≡ true)))

synthesize-Verdict :
    (job : JobFacts) (available : JobAvailability) (l t s : DimensionResult)
    → IsPlain l
    → IsPlain t
    → IsPlain s
    → is_conflict t ≡ false
    → is_conflict s ≡ false
    → Verdict (synthesize job available l (l ∷ t ∷ s ∷ [])).overall_status l t s
unfolding synthesize
synthesize-Verdict job available l t s pl pt ps ct cs = ground arith

false-ne-true : false ≢ true
false-ne-true e = cc

not_calculated-ne-conflict : not_calculated ≢ OverallStatus.conflict
not_calculated-ne-conflict e = cc

not_calculated-ne-appears : not_calculated ≢ appears_eligible
not_calculated-ne-appears e = cc

not_calculated-ne-likely : not_calculated ≢ likely_eligible
not_calculated-ne-likely e = cc

module _ (offset_at : String → ℕ → Option ℤ) (now winter summer : ℕ) where
  module _ (candidate : CandidateFacts) (job : JobFacts) where
    abbrev pub overall : OverallStatus
    overall = (evaluate offset_at now winter summer candidate job).overall_status

    abbrev loc : DimensionResult
    loc = evaluate_location candidate job

    complete-Verdict :
        Verdict
          (complete_profile offset_at now winter summer candidate job).overall_status
          loc
          (evaluate_timezone offset_at now winter summer candidate job)
          (evaluate_sponsorship candidate job loc)
    unfolding complete_profile
    complete-Verdict =
        synthesize-Verdict job (availability now job) loc
          (evaluate_timezone offset_at now winter summer candidate job)
          (evaluate_sponsorship candidate job loc) (evaluate_location-IsPlain candidate job)
          (evaluate_timezone-IsPlain offset_at now winter summer candidate job)
          (evaluate_sponsorship-IsPlain candidate job loc)
          (evaluate_timezone-ne-conflict offset_at now winter summer candidate job)
          (evaluate_sponsorship-ne-conflict candidate job loc)

    abbrev completed : OverallStatus
    completed = (complete_profile offset_at now winter summer candidate job).overall_status

    -- Either the profile is evaluated, or nothing is calculated.
    overall_cases :
        ((present candidate.current_country ≡ true) × (overall ≡ completed))
        ⊎ ((present candidate.current_country ≡ false) × (overall ≡ not_calculated))
    unfolding evaluate incomplete_profile
    overall_cases = elim (Bool-cases (present candidate.current_country)) [
      | inl stated ↦ inl (stated, rw (stated, overall, evaluate))
      | inr missing ↦ inr (missing, rw (missing, overall, evaluate))
    ]

    -- The Shield reports a conflict exactly when the profile states a country, the scope of the job
    -- is known, all its labels are resolved, it names countries, and the candidate neither has an
    -- authorization in one of them nor lives in one of them. Time zone and sponsorship never matter.
    pub evaluate-conflict_iff :
        (overall ≡ OverallStatus.conflict)
        ↔ ((present candidate.current_country ≡ true) × IsExcluded candidate job)
    evaluate-conflict_iff = elim overall_cases [
      | inl (stated, e) ↦
          let (_, _, c, _) = complete-Verdict in
          let x = evaluate_location-conflict_iff candidate job in
          ((λ h. (stated, x.0 (c.0 (sym e ∙ h)))), λ h. e ∙ c.1 (x.1 h.1))
      | inr (missing, e) ↦ (
        (λ h. absurd (not_calculated-ne-conflict (sym e ∙ h))),
        λ h. absurd (false-ne-true (sym missing ∙ h.0)),
      )
    ]

    -- The Shield reports that a candidate appears eligible exactly when the profile states a country
    -- and location, time zone and sponsorship are all satisfied.
    pub evaluate-appears_eligible_iff : (overall ≡ appears_eligible) ↔ (
        (present candidate.current_country ≡ true)
        × (is_satisfied loc.status ≡ true)
        × (is_satisfied (evaluate_timezone offset_at now winter summer candidate job).status ≡ true)
        × (is_satisfied (evaluate_sponsorship candidate job loc).status ≡ true))
    evaluate-appears_eligible_iff = elim overall_cases [
      | inl (stated, e) ↦
          let (_, _, _, a) = complete-Verdict in
          (
            (λ h. let (l, t, p) = a.0 (sym e ∙ h) in (stated, l, t, p)),
            λ h. e ∙ a.1 (h.1, h.2, h.3),
          )
      | inr (missing, e) ↦ (
        (λ h. absurd (not_calculated-ne-appears (sym e ∙ h))),
        λ h. absurd (false-ne-true (sym missing ∙ h.0)),
      )
    ]

    -- It says that nothing was calculated exactly when the profile states no country, and "likely
    -- eligible" never: no dimension is ever likely satisfied.
    pub evaluate-not_calculated_iff :
        ((overall ≡ not_calculated) ↔ (present candidate.current_country ≡ false))
        × (overall ≢ likely_eligible)
    evaluate-not_calculated_iff = elim overall_cases [
      | inl (stated, e) ↦
          let (never, calculated, _, _) = complete-Verdict in
          (
            (λ h. absurd (calculated (sym e ∙ h)), λ h. absurd (false-ne-true (sym h ∙ stated))),
            λ h. never (sym e ∙ h),
          )
      | inr (missing, e) ↦ (((λ _. missing), λ _. e), λ h. not_calculated-ne-likely (sym e ∙ h))
    ]

-- An authorization in a country that the job allows settles the question where the scope is known and
-- every label is resolved: location and sponsorship are satisfied, whether or not the candidate needs
-- a sponsor elsewhere.
pub authorization_settles :
    (candidate : CandidateFacts) (job : JobFacts) (code : String)
    → job.remote_scope ≢ unknown
    → is_empty job.unresolved_labels ≡ true
    → matching_authorization candidate job ≡ some code
    → ((evaluate_location candidate job).status ≡ satisfied)
      × ((evaluate_sponsorship candidate job (evaluate_location candidate job)).status ≡ satisfied)
unfolding evaluate_location evaluate_sponsorship
authorization_settles candidate job code scope labels found = ground arith
