-- ===== src/Profile.antt =====
-- backend/src/modules/profile/profile-completeness.util.ts: how complete a candidate's profile and
-- opportunity brief are.
use rolebrief.Common.{
  ℕ, ◌+◌, min, Bool, not, ◌&&◌, ◌||◌, true, false, Option, none, some, is_some, List, String,
  present, trim, leb, utf16_length, length, is_empty, if◌then◌else◌,
}
pub mod Laws
mod Tests

-- The rows of `CandidateProfile` and `CandidatePreference`, as far as completeness reads them.
-- Enumerations are their names.
pub record CandidatePreference : Type 0 where
  pub target_role_titles : List String
  pub target_disciplines : List String
  pub remote_preference : Option String
  pub preferred_countries : List String
  pub employment_types : List String
  pub relocation_preference : Option String
  pub min_salary : Option ℕ
  pub salary_currency : Option String

pub record CandidateProfile : Type 0 where
  pub headline : Option String
  pub bio : Option String
  pub experience_years : Option ℕ
  pub seniority_level : Option String
  pub current_country : Option String
  pub work_authorizations : List String
  pub requires_visa_sponsorship : Option Bool
  pub search_status : Option String
  pub preferences : Option CandidatePreference
  pub skills : Option (List String)

pub record ProfileBreakdown : Type 0 where
  pub score : ℕ
  pub roles_and_disciplines : ℕ
  pub location_and_remote : ℕ
  pub skills : ℕ
  pub seniority_and_experience : ℕ
  pub headline_and_bio : ℕ

pub record OnboardingBreakdown : Type 0 where
  pub score : ℕ
  pub roles : ℕ
  pub location : ℕ
  pub skills : ℕ
  pub compensation_and_preferences : ℕ

-- `preferences?.field && preferences.field.length > 0`
abbrev pub listed : (CandidatePreference → List String) → Option CandidatePreference → Bool
listed field none = false
listed field (some p) = not (is_empty (field p))

-- `Boolean(preferences?.field)`
abbrev pub stated : (CandidatePreference → Option String) → Option CandidatePreference → Bool
stated field none = false
stated field (some p) = present (field p)

-- A minimum salary or a currency is given.
abbrev pub salary_given : Option CandidatePreference → Bool
salary_given none = false
salary_given (some p) = is_some p.min_salary || present p.salary_currency

abbrev pub points : Bool → ℕ → ℕ
points b n = if b then n else 0

-- `text && text.trim().length >= n`
abbrev pub has_text : ℕ → Option String → Bool
has_text n none = false
has_text n (some t) = present (some t) && leb n (utf16_length (trim t))

-- `skills ?? []` has at least `n` elements.
abbrev pub has_skills : ℕ → Option (List String) → Bool
has_skills n none = leb n 0
has_skills n (some skills) = leb n (length skills)

abbrev pub skill_points : Option (List String) → ℕ
skill_points skills = points (has_skills 1 skills) 10 + points (has_skills 3 skills) 15

abbrev pub location_points : CandidateProfile → ℕ
location_points p = min 25 (
    points (present p.current_country) 10
    + points (stated (λ r. r.remote_preference) p.preferences) 10
    + (if not (is_empty p.work_authorizations)
        then 5
        else points (is_some p.requires_visa_sponsorship) 5))

-- The points of the work terms, with those of a salary on top.
abbrev pub with_salary : Bool → ℕ → ℕ
with_salary given terms = min 25 (if given then min 25 (terms + 10) else terms)

unfoldable pub calculate_onboarding_brief_completeness :
    Option CandidateProfile → OnboardingBreakdown
calculate_onboarding_brief_completeness none = record {
  score = 0;
  roles = 0;
  location = 0;
  skills = 0;
  compensation_and_preferences = 0;
}
calculate_onboarding_brief_completeness (some p) =
    let roles =
      points (listed (λ r. r.target_role_titles) p.preferences) 15
      + points (listed (λ r. r.target_disciplines) p.preferences || present p.seniority_level) 10 in
    let skills = skill_points p.skills in
    let terms = with_salary (salary_given p.preferences) (
      points (listed (λ r. r.employment_types) p.preferences) 15
      + points (stated (λ r. r.relocation_preference) p.preferences || present p.search_status)
          10) in
    record {
      score = min 100 (roles + location_points p + skills + terms);
      roles = roles;
      location = location_points p;
      skills = skills;
      compensation_and_preferences = terms;
    }

unfoldable pub calculate_profile_completeness : Option CandidateProfile → ProfileBreakdown
calculate_profile_completeness none = record {
  score = 0;
  roles_and_disciplines = 0;
  location_and_remote = 0;
  skills = 0;
  seniority_and_experience = 0;
  headline_and_bio = 0;
}
calculate_profile_completeness (some p) =
    let roles =
      points (listed (λ r. r.target_role_titles) p.preferences) 15
      + points (listed (λ r. r.target_disciplines) p.preferences) 10 in
    let location =
      points (present p.current_country || listed (λ r. r.preferred_countries) p.preferences) 10
      + points (stated (λ r. r.remote_preference) p.preferences) 10 in
    let skills = skill_points p.skills in
    let seniority = points (present p.seniority_level) 10 + points (is_some p.experience_years) 5 in
    let headline = points (has_text 3 p.headline) 10 + points (has_text 10 p.bio) 5 in
    record {
      score = min 100 (roles + location + skills + seniority + headline);
      roles_and_disciplines = roles;
      location_and_remote = location;
      skills = skills;
      seniority_and_experience = seniority;
      headline_and_bio = headline;
    }
