-- ===== src/Radar/Before.antt =====
-- Which job of two is shown first (backend/src/modules/radar/radar-ranking.service.ts), told by what
-- is known of the jobs and not by the numbers of the ranking.
use rolebrief.Common.{
  ℕ, Bool, true, false, not, ◌&&◌, ◌||◌, Option, none, some, or_else, String, leb, if◌then◌else◌,
  ◌≡◌, arith,
}
use rolebrief.Common.Int.{ℤ}
use rolebrief.Common.Sort.{difference, or_then, not_after}
use rolebrief.Eligibility.Types.{
  OverallStatus, appears_eligible, likely_eligible, check_required, Summary,
}
use rolebrief.Matching.{MatchBrief, MatchStatus, strong_alignment, partial_alignment}
use rolebrief.Radar.Types.{RadarCandidate, RadarPreference, RadarSort, relevance, freshest}
use rolebrief.Radar.Ranking.{
  compare_rank, can_apply, match_tier, eligibility_tier, evidence_count, item_of,
}

abbrev is_strong : Option MatchBrief → Bool
is_strong none = false
is_strong (some b) = elim b.status [ strong_alignment ↦ true | _ ↦ false ]

abbrev is_aligned : Option MatchBrief → Bool
is_aligned none = false
is_aligned (some b) = elim b.status [
  | strong_alignment ↦ true
  | partial_alignment ↦ true
  | _ ↦ false
]

abbrev is_calculated : Option MatchBrief → Bool
is_calculated none = false
is_calculated (some b) = elim b.status [ MatchStatus.not_calculated ↦ false | _ ↦ true ]

abbrev is_clear : Option Summary → Bool
is_clear none = false
is_clear (some s) = elim s.overall_status [
  | appears_eligible ↦ true
  | likely_eligible ↦ true
  | _ ↦ false
]

abbrev is_possible : Option Summary → Bool
is_possible none = false
is_possible (some s) = elim s.overall_status [
  | appears_eligible ↦ true
  | likely_eligible ↦ true
  | check_required ↦ true
  | _ ↦ false
]

abbrev is_known : Option Summary → Bool
is_known none = false
is_known (some s) = elim s.overall_status [ OverallStatus.not_calculated ↦ false | _ ↦ true ]

-- The dimensions that a brief compares.
abbrev dimensions_compared : Option MatchBrief → ℕ
dimensions_compared none = 0
dimensions_compared (some b) = b.comparable_dimension_count

-- What holds of the second holds of the first.
abbrev has_too : Bool → Bool → Bool
has_too first second = first || not second

abbrev fits_as_well : Option MatchBrief → Option MatchBrief → Bool
fits_as_well x y =
    has_too (is_strong x) (is_strong y)
    && has_too (is_aligned x) (is_aligned y)
    && has_too (is_calculated x) (is_calculated y)

abbrev is_as_eligible : Option Summary → Option Summary → Bool
is_as_eligible x y =
    has_too (is_clear x) (is_clear y)
    && has_too (is_possible x) (is_possible y)
    && has_too (is_known x) (is_known y)

-- It is at least as good, and where the other is as good too, the rest decides.
abbrev decides : Bool → Bool → Bool → Bool
decides as_good as_bad rest = as_good && (not as_bad || rest)

decided :
    (m n : ℕ) (rest : ℤ) (as_good as_bad after : Bool)
    → as_good ≡ leb m n
    → as_bad ≡ leb n m
    → (not_after rest ≡ true → after ≡ true)
    → not_after (or_then (difference m n) rest) ≡ true
    → decides as_good as_bad after ≡ true
decided m n rest as_good as_bad after good bad next h = ground arith

fits-tier : (x y : Option MatchBrief) → fits_as_well x y ≡ leb (match_tier x) (match_tier y)
fits-tier x y = ground arith

eligible-tier :
    (x y : Option Summary) → is_as_eligible x y ≡ leb (eligibility_tier x) (eligibility_tier y)
eligible-tier x y = ground arith

applies-tier : (x y : Bool) → has_too x y ≡ leb (if x then 0 else 1) (if y then 0 else 1)
applies-tier x y = ground arith

module _ (now : ℕ) (match_briefs : String → Option MatchBrief)
    (eligibility : String → Option Summary) where
  -- By freshness, the one that was published later, or else seen first later. By relevance, one that
  -- takes applications; then one with the better alignment; then one of which more dimensions were
  -- compared; then one that the user is rather eligible for.
  abbrev pub stands_before : RadarSort → RadarCandidate → RadarCandidate → Bool
  stands_before freshest a b =
      leb (or_else b.published_at b.first_seen_at) (or_else a.published_at a.first_seen_at)
  stands_before relevance a b =
      let x = match_briefs a.slug in
      let y = match_briefs b.slug in
      decides (has_too (can_apply now a) (can_apply now b))
        (has_too (can_apply now b) (can_apply now a))
        (decides (fits_as_well x y) (fits_as_well y x) (
          decides (leb (dimensions_compared y) (dimensions_compared x))
            (leb (dimensions_compared x) (dimensions_compared y))
            (is_as_eligible (eligibility a.slug) (eligibility b.slug))))

  module _ (locale_compare : String → String → ℤ) (to_upper : String → String)
      (tracked : String → Bool) (preference : RadarPreference) where
    abbrev pub compare_jobs : RadarSort → RadarCandidate → RadarCandidate → ℤ
    compare_jobs order a b =
        compare_rank locale_compare order
          (item_of to_upper now match_briefs eligibility tracked preference a)
          (item_of to_upper now match_briefs eligibility tracked preference b)

    pub compare_jobs-stands_before :
        (order : RadarSort) (a b : RadarCandidate)
        → not_after (compare_jobs order a b) ≡ true
        → stands_before order a b ≡ true
    compare_jobs-stands_before freshest a b h = later _ _ _ h
      where
        later :
            (m n : ℕ) (rest : ℤ) → not_after (or_then (difference m n) rest) ≡ true → leb m n ≡ true
        later m n rest h = ground arith
    compare_jobs-stands_before relevance a b h =
        let x = match_briefs a.slug in
        let y = match_briefs b.slug in
        decided _ _ _ _ _ _ (applies-tier (can_apply now a) (can_apply now b))
          (applies-tier (can_apply now b) (can_apply now a))
          (decided _ _ _ _ _ _ (fits-tier x y) (fits-tier y x) (
            decided _ _ _ _ _ _ (evidence y x) (evidence x y)
              (eligible_first _ _ _ _ (eligible-tier (eligibility a.slug) (eligibility b.slug)))))
          h
      where
        evidence :
            (x y : Option MatchBrief)
            → leb (dimensions_compared x) (dimensions_compared y)
              ≡ leb (evidence_count x) (evidence_count y)
        evidence x y = ground arith

        eligible_first :
            (m n : ℕ) (rest : ℤ) (after : Bool)
            → after ≡ leb m n
            → not_after (or_then (difference m n) rest) ≡ true
            → after ≡ true
        eligible_first m n rest after same h = ground arith
