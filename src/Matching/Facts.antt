-- ===== src/Matching/Facts.antt =====
-- backend/src/modules/matching/match-brief.types.ts, and the facts that
-- backend/src/modules/matching/match-brief-evaluator.service.ts compares. What JavaScript computes on
-- texts by regular expressions and by Unicode tables is a `TextEngine`.
use Prim.Native.Char.{Char, code}
use Prim.Native.String.{String, ◌++◌}
use mathlib.Core.List.{◌++◌ as append}
use rolebrief.Common.{
  ℕ, ◌-◌, Bool, true, false, ◌&&◌, ◌||◌, Option, none, some, List, [], ◌∷◌, ltb, ◌==◌, str_eq,
  truthy, trim, keep, any, length, utf16_length, min, if◌then◌else◌, not,
}

pub data SeniorityLevel : Type 0 where
  entry mid senior lead principal director executive : SeniorityLevel

pub data CanonicalSeniority : Type 0 where
  entry_level junior_level mid_level senior_level lead_level manager_level executive_level :
      CanonicalSeniority

pub data EmploymentType : Type 0 where
  full_time part_time contract internship temporary : EmploymentType

pub data RemotePreference : Type 0 where
  remote_only prefers_hybrid prefers_onsite open_to_any : RemotePreference

pub data WorkMode : Type 0 where
  onsite hybrid remote unknown_mode : WorkMode

pub data SalaryPeriod : Type 0 where
  hourly monthly annual : SalaryPeriod

pub record CandidateMatchFacts : Type 0 where
  pub revision : ℕ
  pub target_role_titles : List String
  pub seniority_level : Option SeniorityLevel
  pub remote_preference : Option RemotePreference
  pub employment_types : List EmploymentType
  pub min_salary : Option ℕ
  pub max_salary : Option ℕ
  pub salary_currency : Option String
  pub salary_period : Option SalaryPeriod

pub record JobSalary : Type 0 where
  pub min : Option ℕ
  pub max : Option ℕ
  pub currency : Option String
  pub period : Option String

pub record JobMatchFacts : Type 0 where
  pub slug : String
  pub title : String
  pub seniority : Option String
  pub employment_type : Option String
  pub work_mode : WorkMode
  pub salary : Option JobSalary

-- `normalize_title` is `normalizeTitleForMatch` of title-taxonomy.ts, `mentions` a test of a regular
-- expression, `squeeze` and `underscored` the replacements of white space, `prefix` is `slice(0, n)`.
pub record TextEngine : Type 0 where
  pub normalize_title : String → String
  pub upper : String → String
  pub lower : String → String
  pub locale_number : ℕ → String
  pub squeeze : String → String
  pub underscored : String → String
  pub mentions : String → String → Bool
  pub prefix : ℕ → String → String

abbrev pub rank : CanonicalSeniority → ℕ
rank entry_level = 1
rank junior_level = 2
rank mid_level = 3
rank senior_level = 4
rank lead_level = 5
rank manager_level = 6
rank executive_level = 7

abbrev pub level_name : CanonicalSeniority → String
level_name entry_level = "ENTRY"
level_name junior_level = "JUNIOR"
level_name mid_level = "MID"
level_name senior_level = "SENIOR"
level_name lead_level = "LEAD"
level_name manager_level = "MANAGER"
level_name executive_level = "EXECUTIVE"

-- `mapCandidateSeniority`, of a level that is there.
abbrev pub map_candidate_seniority : SeniorityLevel → CanonicalSeniority
map_candidate_seniority entry = entry_level
map_candidate_seniority mid = mid_level
map_candidate_seniority senior = senior_level
map_candidate_seniority lead = lead_level
map_candidate_seniority principal = lead_level
map_candidate_seniority director = manager_level
map_candidate_seniority executive = executive_level

abbrev pub type_name : EmploymentType → String
type_name full_time = "FULL_TIME"
type_name part_time = "PART_TIME"
type_name contract = "CONTRACT"
type_name internship = "INTERNSHIP"
type_name temporary = "TEMPORARY"

abbrev pub preference_name : RemotePreference → String
preference_name remote_only = "REMOTE_ONLY"
preference_name prefers_hybrid = "HYBRID"
preference_name prefers_onsite = "ONSITE"
preference_name open_to_any = "OPEN_TO_ANY"

abbrev pub mode_name : WorkMode → String
mode_name onsite = "ONSITE"
mode_name hybrid = "HYBRID"
mode_name remote = "REMOTE"
mode_name unknown_mode = "UNKNOWN"

-- `salaryPeriod.toLowerCase()`
abbrev pub period_label : SalaryPeriod → String
period_label hourly = "hourly"
period_label monthly = "monthly"
period_label annual = "annual"

abbrev begins : String → String → Bool
begins String.[] s = true
begins (String.◌∷◌ c p) String.[] = false
begins (String.◌∷◌ c p) (String.◌∷◌ d s) = code c == code d && begins p s

-- `s.includes(p)`
abbrev pub includes : String → String → Bool
includes p String.[] = begins p ""
includes p (String.◌∷◌ c s) = begins p (String.◌∷◌ c s) || includes p s

abbrev push_front : Char → List String → List String
push_front c [] = String.◌∷◌ c "" ∷ []
push_front c (w ∷ ws) = String.◌∷◌ c w ∷ ws

-- `s.split(" ")`
abbrev pub split_at_spaces : String → List String
split_at_spaces String.[] = "" ∷ []
split_at_spaces (String.◌∷◌ c s) =
    let rest = split_at_spaces s in if code c == 32 then "" ∷ rest else push_front c rest

module _ (engine : TextEngine) where
  -- `bound`
  abbrev pub bound : String → ℕ → String
  bound value max =
      let trimmed = trim (engine.squeeze value) in
      if ltb max (utf16_length trimmed) then engine.prefix (max - 1) trimmed ++ "…" else trimmed

  abbrev pub title_tokens : String → List String
  title_tokens value = keep truthy (split_at_spaces (engine.normalize_title value))

  abbrev pub is_protected_pair : List String → List String → String → String → Bool
  is_protected_pair candidate job left right =
      (any (str_eq left) candidate && any (str_eq right) job)
      || (any (str_eq right) candidate && any (str_eq left) job)

  -- `hasConservativePartialTitleMatch`
  unfoldable pub has_conservative_partial_title_match : String → String → Bool
  has_conservative_partial_title_match candidate job =
      let cs = title_tokens candidate in
      let js = title_tokens job in
      let overlap = keep (λ token. any (λ w. str_eq w token) js) cs in
      if ltb (length cs) 2 || ltb (length js) 2
      then false
      else if is_protected_pair cs js "java" "javascript"
          || is_protected_pair cs js "manager" "designer"
          || is_protected_pair cs js "engineer" "analyst"
          || is_protected_pair cs js "frontend" "fullstack"
          || is_protected_pair cs js "backend" "fullstack"
      then false
      else not (ltb (length overlap) 2) && length overlap == min (length cs) (length js)

  abbrev level_if : Bool → CanonicalSeniority → List CanonicalSeniority
  level_if b level = if b then level ∷ [] else []

  -- `mapJobSeniorities`: the levels that the text names, in the order of the source; none is named twice.
  abbrev pub map_job_seniorities : String → List CanonicalSeniority
  map_job_seniorities value =
      let text = engine.upper value in
      append (level_if (engine.mentions "INTERN|ENTRY" text) entry_level) (
        append (level_if (engine.mentions "JUNIOR|JR" text) junior_level) (
          append (level_if (engine.mentions "MID|INTERMEDIATE" text) mid_level) (
            append (level_if (engine.mentions "SENIOR|SR" text) senior_level) (
              append (level_if (engine.mentions "LEAD|STAFF|PRINCIPAL" text) lead_level) (
                append (level_if (engine.mentions "MANAGER|DIRECTOR|HEAD" text) manager_level) (
                  level_if (engine.mentions "EXECUTIVE|VP|C[- ]?LEVEL|CHIEF" text)
                    executive_level))))))

  -- `mapJobEmploymentType`, of a text that is not empty.
  abbrev pub map_job_employment_type : String → Option EmploymentType
  map_job_employment_type value =
      let text = engine.underscored (engine.upper value) in
      if includes "FULL_TIME" text || str_eq text "FULLTIME"
      then some full_time
      else if includes "PART_TIME" text || str_eq text "PARTTIME"
      then some part_time
      else if includes "CONTRACT" text
      then some contract
      else if includes "INTERN" text
      then some internship
      else if includes "TEMP" text
      then some temporary
      else none

  abbrev pub normalize_period : String → Option SalaryPeriod
  normalize_period value =
      let text = engine.upper value in
      if includes "YEAR" text || includes "ANNUAL" text
      then some annual
      else if includes "MONTH" text
      then some monthly
      else if includes "HOUR" text
      then some hourly
      else none
