-- ===== src/Radar/Tests.antt =====
-- A feed of three jobs. Names are compared by their length.
use rolebrief.Common.{
  ℕ, ◌*◌, str_eq, if◌then◌else◌, Bool, true, Option, none, some, List, [], ◌∷◌, map, length, String,
  utf16_length, Pairs, ◌≡◌, refl,
}
use mathlib.Core.List.{Perm}
use rolebrief.Common.Int.{ℤ}
use rolebrief.Common.Sort.{difference, sort, IsComparison, difference-IsComparison}
use rolebrief.Eligibility.Types.{Summary}
use rolebrief.Matching.{
  MatchBrief, MatchStatus, strong_alignment, partial_alignment, limited_alignment,
}
use rolebrief.Radar.Types.{RadarCandidate, RadarItem, RadarPreference, relevance, freshest}
use rolebrief.Radar.Ranking.{rank}
use rolebrief.Radar.Before.{stands_before}
use rolebrief.Radar.Laws.{count_from, rank-best_first, rank-IsComplete}

abbrev by_length : String → String → ℤ
by_length a b = difference (utf16_length a) (utf16_length b)

by_length-IsComparison : IsComparison by_length
by_length-IsComparison = difference-IsComparison utf16_length

abbrev same_case : String → String
same_case s = s

abbrev preference : RadarPreference
preference = record { work_mode = some "REMOTE_ONLY"; employment_types = "FULL_TIME" ∷ [] }

abbrev open_job : RadarCandidate
open_job = record {
  id = "a";
  slug = "open";
  title = "Developer";
  status = "ACTIVE";
  work_mode = some "ONSITE";
  employment_type = some "FULL - TIME";
  seniority = none;
  first_seen_at = 3;
  published_at = none;
  application_deadline_at = none;
  application_url = some "https://acme.test";
  company_name = none;
  lane_reasons = "LANE" ∷ [];
  cheap_rank = 2;
}

abbrev closed_job : RadarCandidate
closed_job = record open_job {
  id = "bb";
  slug = "closed";
  status = "EXPIRED";
  first_seen_at = 9;
  cheap_rank = 1;
}

abbrev remote_job : RadarCandidate
remote_job = record open_job {
  id = "ccc";
  slug = "remote";
  work_mode = some "REMOTE";
  first_seen_at = 1;
}

abbrev candidates : List RadarCandidate
candidates = closed_job ∷ open_job ∷ remote_job ∷ []

abbrev no_brief : String → Option MatchBrief
no_brief slug = none

abbrev no_summary : String → Option Summary
no_summary slug = none

abbrev all_tracked : String → Bool
all_tracked slug = true

abbrev by_relevance : List RadarItem
by_relevance =
    rank same_case 5 no_brief no_summary all_tracked preference by_length candidates relevance

remote_first : map (λ a. a.id) by_relevance ≡ "ccc" ∷ "a" ∷ "bb" ∷ []
unfolding rank sort
remote_first = refl

freshest_first :
    map
      (λ a. a.id)
      (rank same_case 5 no_brief no_summary all_tracked preference by_length candidates freshest)
    ≡ "bb" ∷ "a" ∷ "ccc" ∷ []
unfolding rank sort
freshest_first = refl

abbrev brief : MatchStatus → ℕ → MatchBrief
brief status dimensions = record {
  engine_version = "1";
  taxonomy_version = "1";
  job_slug = "";
  status = status;
  label = "";
  coverage_percent = 20 * dimensions;
  comparable_dimension_count = dimensions;
  primary_reason_code = "";
  strengths = [];
  gaps = [];
  unknowns = [];
  profile_revision = 1;
  job_match_version = "1";
  calculated_at = 5;
}

-- The closed job fits best, and of the others the one that does not fit the preferences.
abbrev briefs : String → Option MatchBrief
briefs slug =
    if str_eq slug "remote"
    then some (brief limited_alignment 5)
    else if str_eq slug "open"
    then some (brief partial_alignment 2)
    else some (brief strong_alignment 5)

abbrev by_alignment : List RadarItem
by_alignment =
    rank same_case 5 briefs no_summary all_tracked preference by_length candidates relevance

better_fit_first : map (λ a. a.id) by_alignment ≡ "a" ∷ "ccc" ∷ "bb" ∷ []
unfolding rank sort
better_fit_first = refl

rank-best_first_example :
    (shown : List RadarCandidate) × Perm shown candidates
    × (map (λ a. a.id) by_alignment ≡ map (λ c. c.id) shown)
    × Pairs (λ a b. stands_before 5 briefs no_summary relevance a b ≡ true) shown
rank-best_first_example =
    rank-best_first by_length same_case 5 briefs no_summary all_tracked preference candidates
      relevance by_length-IsComparison

rank-IsComplete_example :
    Perm (map (λ a. a.id) by_relevance) (map (λ c. c.id) candidates)
    × (map (λ a. a.rank) by_relevance ≡ count_from 1 (length candidates))
rank-IsComplete_example =
    rank-IsComplete by_length same_case 5 no_brief no_summary all_tracked preference candidates
      relevance
