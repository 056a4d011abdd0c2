-- ===== src/Radar/Laws.antt =====
-- What the ranking of the radar promises.
use rolebrief.Common.{
  ℕ, zero, suc, min, Bool, true, Option, List, [], ◌∷◌, ◌++◌, map, take, drop, length, String, All,
  Pairs, Pairs-map_le, Pairs-across, length-map, length-take, take-append-drop, ◌≡◌, refl, ap, sym,
  ◌∙◌, subst,
}
use mathlib.Core.List.{Perm}
use mathlib.Core.List.Perm
use rolebrief.Common.Int.{ℤ}
use rolebrief.Common.Sort.{
  not_after, sort, IsComparison, sort-perm, sort-IsInOrder, sort-map, comap-IsComparison,
  length-sort,
}
use rolebrief.Eligibility.Types.{Summary}
use rolebrief.Matching.{MatchBrief}
use rolebrief.Radar.Types.{RadarCandidate, RadarItem, RadarPreference, RadarSort}
use rolebrief.Radar.Ranking.{compare_cheap, compare_rank, pre_order, numbered_from, item_of, rank}
use rolebrief.Radar.Before.{stands_before, compare_jobs, compare_jobs-stands_before}
use rolebrief.Radar.Order.{compare_cheap-IsComparison, compare_rank-IsComparison}

-- n, n + 1, ... of the given length
abbrev pub count_from : ℕ → ℕ → List ℕ
count_from n zero = []
count_from n (suc k) = n ∷ count_from (suc n) k

map-rank-numbered :
    (i : ℕ) (items : List RadarItem)
    → map (λ a. a.rank) (numbered_from i items) ≡ count_from (suc i) (length items)
map-rank-numbered i [] = refl
map-rank-numbered i (a ∷ items) = ap (λ r. suc i ∷ r) (map-rank-numbered (suc i) items)

map-id-numbered :
    (i : ℕ) (items : List RadarItem)
    → map (λ a. a.id) (numbered_from i items) ≡ map (λ a. a.id) items
map-id-numbered i [] = refl
map-id-numbered i (a ∷ items) = ap (λ r. a.id ∷ r) (map-id-numbered (suc i) items)

module _ (locale_compare : String → String → ℤ) where
  -- The jobs that are evaluated are at most `max` of the jobs found, each as often as it was found,
  -- and no job that is left out stands before one that is taken.
  pub pre_order_takes_first :
      (candidates : List RadarCandidate) (max : ℕ)
      → IsComparison locale_compare
      → (length (pre_order locale_compare candidates max) ≡ min max (length candidates))
        × ((rest : List RadarCandidate) × Perm
              (pre_order locale_compare candidates max ++ rest)
              candidates
            × All
                (λ a. All (λ b. not_after (compare_cheap locale_compare a b) ≡ true) rest)
                (pre_order locale_compare candidates max))
  unfolding pre_order
  pre_order_takes_first candidates max collates =
      let sorted = sort (compare_cheap locale_compare) candidates in
      let split = take-append-drop max sorted in
      let compares = compare_cheap-IsComparison locale_compare collates in
      (
        length-take max sorted
            ∙ ap (min max) (length-sort (compare_cheap locale_compare) candidates),
        (
          drop max sorted,
          subst (λ l. Perm l candidates) (sym split)
              (sort-perm (compare_cheap locale_compare) candidates),
          Pairs-across _ (take max sorted) (drop max sorted) (
              subst (Pairs (λ a b. not_after (compare_cheap locale_compare a b) ≡ true)) (sym split)
                (sort-IsInOrder (compare_cheap locale_compare) candidates compares)),
        ),
      )

  module _ (to_upper : String → String) (now : ℕ) (match_briefs : String → Option MatchBrief)
      (eligibility : String → Option Summary) (tracked : String → Bool)
      (preference : RadarPreference) (candidates : List RadarCandidate) where
    abbrev pub feed : RadarSort → List RadarItem
    feed = rank to_upper now match_briefs eligibility tracked preference locale_compare candidates

    abbrev items : List RadarItem
    items = map (item_of to_upper now match_briefs eligibility tracked preference) candidates

    ids_of_items :
        (cs : List RadarCandidate)
        → map
            (λ a. a.id)
            (map (item_of to_upper now match_briefs eligibility tracked preference) cs)
          ≡ map (λ c. c.id) cs
    ids_of_items [] = refl
    ids_of_items (c ∷ cs) = ap (λ r. c.id ∷ r) (ids_of_items cs)

    -- A feed shows the jobs in an order in which, of any two, the first may stand before the second:
    -- by freshness it is as fresh; by relevance it takes applications if the second does, and among
    -- jobs alike in that it has as good an alignment, then as many dimensions compared, then as good
    -- an eligibility. The collation must compare consistently.
    pub rank-best_first :
        (order : RadarSort)
        → IsComparison locale_compare
        → (shown : List RadarCandidate) × Perm shown candidates
          × (map (λ a. a.id) (feed order) ≡ map (λ c. c.id) shown)
          × Pairs (λ a b. stands_before now match_briefs eligibility order a b ≡ true) shown
    unfolding rank
    rank-best_first order collates =
        let compare =
          compare_jobs now match_briefs eligibility locale_compare to_upper tracked preference
            order in
        let item = item_of to_upper now match_briefs eligibility tracked preference in
        let shown = sort compare candidates in
        (
          shown,
          sort-perm compare candidates,
          map-id-numbered 0 (sort (compare_rank locale_compare order) items)
              ∙ ap (map (λ a. a.id)) (sort-map item (compare_rank locale_compare order) candidates)
              ∙ ids_of_items shown,
          Pairs-map_le _ _ shown
              (compare_jobs-stands_before now match_briefs eligibility locale_compare to_upper
                tracked preference order)
              (sort-IsInOrder compare candidates (
                comap-IsComparison (compare_rank locale_compare order) item
                  (compare_rank-IsComparison locale_compare collates order))),
        )

    -- A feed shows every job that was evaluated, as often as it was, and no other, and numbers them
    -- from 1 without a gap.
    pub rank-IsComplete :
        (order : RadarSort)
        → Perm (map (λ a. a.id) (feed order)) (map (λ c. c.id) candidates)
          × (map (λ a. a.rank) (feed order) ≡ count_from 1 (length candidates))
    unfolding rank
    rank-IsComplete order =
        let sorted = sort (compare_rank locale_compare order) items in
        (
          subst (λ l. Perm l (map (λ c. c.id) candidates)) (sym (map-id-numbered 0 sorted))
              (subst (λ l. Perm (map (λ a. a.id) sorted) l) (ids_of_items candidates)
                (Perm.map (λ a. a.id) (sort-perm (compare_rank locale_compare order) items))),
          map-rank-numbered 0 sorted
              ∙ ap (count_from 1) (
                  length-sort (compare_rank locale_compare order) items
                  ∙ length-map candidates
                      (item_of to_upper now match_briefs eligibility tracked preference)),
        )
