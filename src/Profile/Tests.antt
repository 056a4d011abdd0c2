-- ===== src/Profile/Tests.antt =====
-- The completeness of an empty profile and of a full one.
use rolebrief.Common.{◌||◌, true, none, some, is_some, [], ◌∷◌, present, ◌≡◌, ◌↔◌, refl, trim}
use rolebrief.Profile.{
  CandidatePreference, CandidateProfile, listed, stated, has_text, has_skills,
  calculate_profile_completeness, calculate_onboarding_brief_completeness,
}
use rolebrief.Profile.Laws.{profile-complete_iff}

abbrev preference : CandidatePreference
preference = record {
  target_role_titles = "Engineer" ∷ [];
  target_disciplines = "Platform" ∷ [];
  remote_preference = some "REMOTE_ONLY";
  preferred_countries = [];
  employment_types = "FULL_TIME" ∷ [];
  relocation_preference = none;
  min_salary = some 50000;
  salary_currency = none;
}

abbrev profile : CandidateProfile
profile = record {
  headline = some " Engineer ";
  bio = none;
  experience_years = some 4;
  seniority_level = some "SENIOR";
  current_country = some "DE";
  work_authorizations = [];
  requires_visa_sponsorship = some true;
  search_status = none;
  preferences = some preference;
  skills = some ("Go" ∷ "SQL" ∷ "Rust" ∷ []);
}

misses_the_bio : (calculate_profile_completeness (some profile)).score ≡ 95
unfolding calculate_profile_completeness trim
misses_the_bio = refl

brief_is_complete : (calculate_onboarding_brief_completeness (some profile)).score ≡ 100
unfolding calculate_onboarding_brief_completeness
brief_is_complete = refl

profile-complete_iff_example : ((calculate_profile_completeness (some profile)).score ≡ 100) ↔ (
    ((listed (λ r. r.target_role_titles) profile.preferences ≡ true)
      × (listed (λ r. r.target_disciplines) profile.preferences ≡ true))
    × (((present profile.current_country || listed (λ r. r.preferred_countries) profile.preferences)
          ≡ true)
        × (stated (λ r. r.remote_preference) profile.preferences ≡ true))
    × (has_skills 3 profile.skills ≡ true)
    × ((present profile.seniority_level ≡ true) × (is_some profile.experience_years ≡ true))
    × ((has_text 3 profile.headline ≡ true) × (has_text 10 profile.bio ≡ true)))
profile-complete_iff_example = profile-complete_iff profile
