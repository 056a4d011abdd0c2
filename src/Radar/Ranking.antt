-- ===== src/Radar/Ranking.antt =====
-- backend/src/modules/radar/radar-ranking.service.ts and radar.types.ts: how the feed of jobs is
-- ranked. The collation of `localeCompare` and `toUpperCase` are parameters of the platform.
-- Dates are milliseconds, also where the source keeps their ISO text.
use rolebrief.Common.{
  ℕ, suc, ◌+◌, ltb, Bool, not, ◌&&◌, ◌||◌, true, false, Option, none, some, or_else, List, [], ◌∷◌,
  ◌++◌, map, take, String, str_eq, present, is_space, any, is_empty, if◌then◌else◌, ◌==◌,
}
use Prim.Native.Char.{code}
use Prim.Native.String
use rolebrief.Common.Int.{ℤ, pos, negsuc}
use rolebrief.Common.Sort.{difference, or_then, sort}
use rolebrief.Eligibility.Types.{
  OverallStatus, appears_eligible, likely_eligible, check_required, Summary, Availability, active,
  expired, delisted, suspicious,
}
use rolebrief.Matching.{
  MatchBrief, MatchStatus, strong_alignment, partial_alignment, limited_alignment,
}
use rolebrief.Radar.Types.{
  RadarSort, relevance, freshest, RadarCandidate, RadarAvailability, RadarItem, RadarPreference,
}

abbrev pub freshness_ms : RadarCandidate → ℕ
freshness_ms c = or_else c.published_at c.first_seen_at

abbrev pub match_tier : Option MatchBrief → ℕ
match_tier none = 3
match_tier (some b) = elim b.status [
  | strong_alignment ↦ 0
  | partial_alignment ↦ 1
  | limited_alignment ↦ 2
  | _ ↦ 3
]

abbrev pub eligibility_tier : Option Summary → ℕ
eligibility_tier none = 3
eligibility_tier (some s) = elim s.overall_status [
  | appears_eligible ↦ 0
  | likely_eligible ↦ 0
  | check_required ↦ 1
  | OverallStatus.conflict ↦ 2
  | _ ↦ 3
]

abbrev preferred_job_work_mode : Option String → Option String
preferred_job_work_mode none = none
preferred_job_work_mode (some m) =
    if str_eq m "REMOTE_ONLY"
    then some "REMOTE"
    else if str_eq m "HYBRID"
    then some "HYBRID"
    else if str_eq m "ONSITE"
    then some "ONSITE"
    else none

-- `replace(/[\s-]+/g, "_")`: a run of spaces and dashes becomes one underscore. The flag tells that
-- the character before was one of them.
abbrev pub underscored : Bool → String → String
underscored in_run String.[] = ""
underscored in_run (String.◌∷◌ c s) =
    if is_space (code c) || code c == 45
    then (if in_run then underscored true s else String.◌++◌ "_" (underscored true s))
    else String.◌∷◌ c (underscored false s)

abbrev match_name : MatchStatus → String
match_name strong_alignment = "MATCH_STRONG_ALIGNMENT"
match_name partial_alignment = "MATCH_PARTIAL_ALIGNMENT"
match_name limited_alignment = "MATCH_LIMITED_ALIGNMENT"
match_name MatchStatus.not_calculated = "MATCH_NOT_CALCULATED"

abbrev eligibility_name : OverallStatus → String
eligibility_name appears_eligible = "ELIGIBILITY_APPEARS_ELIGIBLE"
eligibility_name likely_eligible = "ELIGIBILITY_LIKELY_ELIGIBLE"
eligibility_name check_required = "ELIGIBILITY_CHECK_REQUIRED"
eligibility_name OverallStatus.conflict = "ELIGIBILITY_CONFLICT"
eligibility_name OverallStatus.not_calculated = "ELIGIBILITY_NOT_CALCULATED"

abbrev availability_name : Availability → String
availability_name active = "ACTIVE"
availability_name expired = "EXPIRED"
availability_name delisted = "DELISTED"
availability_name suspicious = "SUSPICIOUS"

-- `deadline && deadline > now`
abbrev pub in_future : ℕ → Option ℕ → Bool
in_future now none = false
in_future now (some d) = ltb now d

abbrev pub future_deadline : ℕ → Option ℕ → Option ℕ
future_deadline now d = if in_future now d then d else none

abbrev pub is_null {ℓ} : {A : Type ℓ} → Option A → Bool
is_null none = true
is_null (some a) = false

abbrev pub can_apply : ℕ → RadarCandidate → Bool
can_apply now c =
    str_eq c.status "ACTIVE"
    && present c.application_url
    && (is_null c.application_deadline_at || in_future now c.application_deadline_at)

abbrev unavailable : String
unavailable = "Application destination is unavailable or the listing is no longer active."

abbrev availability_of : ℕ → RadarCandidate → Option Summary → RadarAvailability
availability_of now c none = record {
  status = c.status;
  can_apply = can_apply now c;
  reason = if can_apply now c then none else some unavailable;
}
availability_of now c (some s) = record {
  status = availability_name s.job_availability.status;
  can_apply = s.job_availability.can_apply;
  reason = s.job_availability.reason;
}

abbrev match_reason : Option MatchBrief → String
match_reason none = "MATCH_NOT_CALCULATED"
match_reason (some b) = match_name b.status

abbrev eligibility_reason : Option Summary → String
eligibility_reason none = "ELIGIBILITY_NOT_CALCULATED"
eligibility_reason (some s) = eligibility_name s.overall_status

abbrev pub evidence_count : Option MatchBrief → ℕ
evidence_count none = 0
evidence_count (some b) = b.comparable_dimension_count

abbrev pub compare_deadline : Option ℕ → Option ℕ → ℤ
compare_deadline (some a) (some b) = difference a b
compare_deadline (some a) none = negsuc 0
compare_deadline none (some b) = pos 1
compare_deadline none none = pos 0

-- `map((item, index) => ({ ...item, rank: index + 1 }))`
abbrev pub numbered_from : ℕ → List RadarItem → List RadarItem
numbered_from index [] = []
numbered_from index (item ∷ items) =
    record item { rank = suc index } ∷ numbered_from (suc index) items

-- The preferred work mode differs from the job's.
abbrev misses_work_mode : Option String → Option String → Bool
misses_work_mode (some preferred) (some mode) =
    present (some preferred) && present (some mode) && not (str_eq preferred mode)
misses_work_mode _ _ = false

module _ (locale_compare : String → String → ℤ) where
  -- Jobs that the query found, in the order in which they are worth evaluating.
  abbrev pub compare_cheap : RadarCandidate → RadarCandidate → ℤ
  compare_cheap a b =
      or_then (difference a.cheap_rank b.cheap_rank)
        (or_then (difference (freshness_ms b) (freshness_ms a)) (locale_compare b.id a.id))

  unfoldable pub pre_order : List RadarCandidate → ℕ → List RadarCandidate
  pre_order candidates max = take max (sort compare_cheap candidates)

  abbrev pub compare_rank : RadarSort → RadarItem → RadarItem → ℤ
  compare_rank freshest a b =
      or_then (difference b.ranking.freshness_at a.ranking.freshness_at) (locale_compare a.id b.id)
  compare_rank relevance a b =
      or_then (difference a.ranking.active_apply_tier b.ranking.active_apply_tier) (
        or_then (difference a.ranking.match_tier b.ranking.match_tier) (
          or_then (difference b.ranking.comparable_evidence a.ranking.comparable_evidence) (
            or_then (difference a.ranking.eligibility_tier b.ranking.eligibility_tier) (
              or_then (difference a.ranking.preference_tier b.ranking.preference_tier) (
                or_then (difference a.ranking.tracked_tier b.ranking.tracked_tier) (
                  or_then (difference b.ranking.freshness_at a.ranking.freshness_at) (
                    or_then (compare_deadline a.ranking.deadline_at b.ranking.deadline_at)
                      (locale_compare a.id b.id))))))))

module _ (to_upper : String → String) where
  abbrev misses_employment : List String → Option String → Bool
  misses_employment types none = false
  misses_employment types (some type) =
      not (is_empty types)
      && present (some type)
      && not (any (str_eq (underscored false (to_upper type))) types)

  abbrev pub preference_tier : RadarCandidate → RadarPreference → ℕ
  preference_tier c preference =
      (if misses_work_mode (preferred_job_work_mode preference.work_mode) c.work_mode then 1 else 0)
      + (if misses_employment preference.employment_types c.employment_type then 1 else 0)

  -- What the maps of briefs and of eligibility hold of a job, by its slug, and whether its slug is
  -- in the set of tracked jobs.
  module _ (now : ℕ) (match_briefs : String → Option MatchBrief)
      (eligibility : String → Option Summary) (tracked : String → Bool)
      (preference : RadarPreference) where
    abbrev pub item_of : RadarCandidate → RadarItem
    item_of c =
        let match = match_briefs c.slug in
        let summary = eligibility c.slug in
        record {
          id = c.id;
          slug = c.slug;
          rank = 0;
          reason_codes = c.lane_reasons ++ (match_reason match ∷ eligibility_reason summary ∷ []);
          job_availability = availability_of now c summary;
          match_brief = match;
          eligibility = summary;
          ranking = record {
            active_apply_tier = if can_apply now c then 0 else 1;
            match_tier = match_tier match;
            comparable_evidence = evidence_count match;
            eligibility_tier = eligibility_tier summary;
            preference_tier = preference_tier c preference;
            tracked_tier = if tracked c.slug then 1 else 0;
            first_seen_at = c.first_seen_at;
            freshness_at = freshness_ms c;
            deadline_at = future_deadline now c.application_deadline_at;
            stable_job_id = c.id;
          };
        }

    -- The order in which the jobs are shown, and their places in it.
    unfoldable pub rank : (String → String → ℤ) → List RadarCandidate → RadarSort → List RadarItem
    rank locale_compare candidates order =
        numbered_from 0 (sort (compare_rank locale_compare order) (map item_of candidates))
