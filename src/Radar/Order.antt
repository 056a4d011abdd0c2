-- ===== src/Radar/Order.antt =====
-- The comparisons of the radar are total preorders, so that sorting by them puts jobs in order.
use rolebrief.Common.{ℕ, true, Option, String, not, ◌≡◌, arith}
use rolebrief.Common.Int.{ℤ}
use rolebrief.Common.Sort.{
  not_after, is_negative, IsComparison, or_then-IsComparison, difference-IsComparison,
  descending-IsComparison, comap-IsComparison, swap-IsComparison,
}
use rolebrief.Radar.Types.{RadarSort, relevance, freshest}
use rolebrief.Radar.Ranking.{freshness_ms, compare_deadline, compare_cheap, compare_rank}

deadline_flip :
    (a b : Option ℕ) → is_negative (compare_deadline a b) ≡ not (not_after (compare_deadline b a))
deadline_flip a b = ground arith

deadline_trans :
    (a b c : Option ℕ)
    → not_after (compare_deadline a b) ≡ true
    → not_after (compare_deadline b c) ≡ true
    → not_after (compare_deadline a c) ≡ true
deadline_trans a b c p q = ground arith

compare_deadline-IsComparison : IsComparison compare_deadline
compare_deadline-IsComparison = (deadline_flip, deadline_trans)

module _ (locale_compare : String → String → ℤ) (collates : IsComparison locale_compare) where
  pub compare_cheap-IsComparison : IsComparison (compare_cheap locale_compare)
  compare_cheap-IsComparison =
      or_then-IsComparison _ _ (difference-IsComparison (λ a. a.cheap_rank)) (
        or_then-IsComparison _ _ (descending-IsComparison freshness_ms)
          (swap-IsComparison _ (comap-IsComparison locale_compare (λ a. a.id) collates)))

  pub compare_rank-IsComparison :
      (order : RadarSort) → IsComparison (compare_rank locale_compare order)
  compare_rank-IsComparison freshest =
      or_then-IsComparison _ _ (descending-IsComparison (λ a. a.ranking.freshness_at))
        (comap-IsComparison locale_compare (λ a. a.id) collates)
  compare_rank-IsComparison relevance =
      or_then-IsComparison _ _ (difference-IsComparison (λ a. a.ranking.active_apply_tier)) (
        or_then-IsComparison _ _ (difference-IsComparison (λ a. a.ranking.match_tier)) (
          or_then-IsComparison _ _ (descending-IsComparison (λ a. a.ranking.comparable_evidence)) (
            or_then-IsComparison _ _ (difference-IsComparison (λ a. a.ranking.eligibility_tier)) (
              or_then-IsComparison _ _ (difference-IsComparison (λ a. a.ranking.preference_tier)) (
                or_then-IsComparison _ _ (difference-IsComparison (λ a. a.ranking.tracked_tier)) (
                  or_then-IsComparison _ _ (descending-IsComparison (λ a. a.ranking.freshness_at)) (
                    or_then-IsComparison _ _
                      (comap-IsComparison compare_deadline (λ a. a.ranking.deadline_at)
                        compare_deadline-IsComparison)
                      (comap-IsComparison locale_compare (λ a. a.id) collates))))))))
