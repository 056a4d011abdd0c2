-- ===== src/Profile/Laws.antt =====
-- When a profile or an opportunity brief is complete.
use rolebrief.Common.{
  ℕ, ◌+◌, ◌≤◌, min, Bool, not, ◌||◌, true, Option, none, some, is_some, List, String, present,
  is_empty, if◌then◌else◌, ◌≡◌, ◌↔◌, sym, ◌∙◌, arith,
}
use rolebrief.Profile.{
  CandidateProfile, listed, stated, salary_given, points, has_text, has_skills, skill_points,
  with_salary, calculate_profile_completeness, calculate_onboarding_brief_completeness,
}

three_skills :
    (skills : Option (List String)) → (skill_points skills ≡ 25) ↔ (has_skills 3 skills ≡ true)
three_skills skills = ground arith

skill_points_le : (skills : Option (List String)) → skill_points skills ≤ 25
skill_points_le skills = ground arith

-- Five parts with their maxima make a hundred only together.
five_parts :
    (a b c d e : ℕ)
    → a ≤ 25
    → b ≤ 20
    → c ≤ 25
    → d ≤ 15
    → e ≤ 15
    → (min 100 (a + b + c + d + e) ≡ a + b + c + d + e)
      × ((a + b + c + d + e ≡ 100) ↔ ((a ≡ 25) × (b ≡ 20) × (c ≡ 25) × (d ≡ 15) × (e ≡ 15)))
five_parts a b c d e ha hb hc hd he = ground arith

two_points :
    (p q : Bool) (m n : ℕ)
    → 1 ≤ m
    → 1 ≤ n
    → (points p m + points q n ≤ m + n)
      × ((points p m + points q n ≡ m + n) ↔ ((p ≡ true) × (q ≡ true)))
two_points p q m n hm hn = ground arith

points_le : (p q : Bool) (m n : ℕ) → points p m + points q n ≤ m + n
points_le p q m n = ground arith

-- Four quarters make a hundred only together.
four_parts :
    (a b c d : ℕ)
    → a ≤ 25
    → b ≤ 25
    → c ≤ 25
    → d ≤ 25
    → (min 100 (a + b + c + d) ≡ 100) ↔ ((a ≡ 25) × (b ≡ 25) × (c ≡ 25) × (d ≡ 25))
four_parts a b c d ha hb hc hd = ground arith

full_terms :
    (given types others : Bool)
    → (with_salary given (points types 15 + points others 10) ≤ 25)
      × ((with_salary given (points types 15 + points others 10) ≡ 25)
          ↔ ((types ≡ true) × ((others || given) ≡ true)))
full_terms given types others = ground arith

full_location :
    (country remote authorized answered : Bool)
    → let total =
        min 25
          (points country 10 + points remote 10 + (if authorized then 5 else points answered 5)) in
      (total ≤ 25)
      × ((total ≡ 25) ↔ ((country ≡ true) × (remote ≡ true) × ((authorized || answered) ≡ true)))
full_location country remote authorized answered = ground arith

-- A profile scores 100 exactly when it names target roles and disciplines, a current or preferred
-- country, a remote preference, at least three skills, seniority, years of experience, a headline of
-- three characters and a bio of ten.
pub profile-complete_iff :
    (p : CandidateProfile)
    → ((calculate_profile_completeness (some p)).score ≡ 100) ↔ (
        ((listed (λ r. r.target_role_titles) p.preferences ≡ true)
          × (listed (λ r. r.target_disciplines) p.preferences ≡ true))
        × ((present p.current_country || listed (λ r. r.preferred_countries) p.preferences ≡ true)
            × (stated (λ r. r.remote_preference) p.preferences ≡ true))
        × (has_skills 3 p.skills ≡ true)
        × ((present p.seniority_level ≡ true) × (is_some p.experience_years ≡ true))
        × ((has_text 3 p.headline ≡ true) × (has_text 10 p.bio ≡ true)))
unfolding calculate_profile_completeness
profile-complete_iff p =
    let prefs = p.preferences in
    let roles =
      two_points (listed (λ r. r.target_role_titles) prefs)
        (listed (λ r. r.target_disciplines) prefs) 15 10 (omega arith) (omega arith) in
    let place =
      two_points (present p.current_country || listed (λ r. r.preferred_countries) prefs)
        (stated (λ r. r.remote_preference) prefs) 10 10 (omega arith) (omega arith) in
    let level =
      two_points (present p.seniority_level) (is_some p.experience_years) 10 5 (omega arith)
        (omega arith) in
    let about =
      two_points (has_text 3 p.headline) (has_text 10 p.bio) 10 5 (omega arith) (omega arith) in
    let skills = three_skills p.skills in
    let total = five_parts _ _ _ _ _ roles.0 place.0 (skill_points_le p.skills) level.0 about.0 in
    (
      (λ h.
          let (r, l, s, q, a) = total.1.0 (sym total.0 ∙ h) in
          (roles.1.0 r, place.1.0 l, skills.0 s, level.1.0 q, about.1.0 a)),
      λ (r, l, s, q, a).
          total.0 ∙ total.1.1 (roles.1.1 r, place.1.1 l, skills.1 s, level.1.1 q, about.1.1 a),
    )

-- The shares of a profile's score stay within 25, 20, 25, 15 and 15, and the score is their sum:
-- the cap at 100 never takes a point away.
pub profile-score :
    (p : Option CandidateProfile)
    → let b = calculate_profile_completeness p in
      (b.roles_and_disciplines ≤ 25)
      × (b.location_and_remote ≤ 20)
      × (b.skills ≤ 25)
      × (b.seniority_and_experience ≤ 15)
      × (b.headline_and_bio ≤ 15)
      × (b.score
          ≡ b.roles_and_disciplines + b.location_and_remote + b.skills + b.seniority_and_experience
            + b.headline_and_bio)
unfolding calculate_profile_completeness
profile-score none = ground arith
profile-score (some p) =
    let prefs = p.preferences in
    let roles =
      points_le (listed (λ r. r.target_role_titles) prefs)
        (listed (λ r. r.target_disciplines) prefs) 15 10 in
    let place =
      points_le (present p.current_country || listed (λ r. r.preferred_countries) prefs)
        (stated (λ r. r.remote_preference) prefs) 10 10 in
    let level = points_le (present p.seniority_level) (is_some p.experience_years) 10 5 in
    let about = points_le (has_text 3 p.headline) (has_text 10 p.bio) 10 5 in
    let skills = skill_points_le p.skills in
    (roles, place, skills, level, about, (five_parts _ _ _ _ _ roles place skills level about).0)

-- An opportunity brief scores 100 exactly when it names target roles, a discipline or a seniority, a
-- country, a remote preference, a work authorization or an answer about sponsorship, at least three
-- skills, employment types, and one of relocation, search status and salary. A headline and a bio
-- are not asked for, and a salary is never required.
pub onboarding-complete_iff :
    (p : CandidateProfile)
    → ((calculate_onboarding_brief_completeness (some p)).score ≡ 100) ↔ (
        ((listed (λ r. r.target_role_titles) p.preferences ≡ true)
          × ((listed (λ r. r.target_disciplines) p.preferences || present p.seniority_level)
              ≡ true))
        × ((present p.current_country ≡ true)
            × (stated (λ r. r.remote_preference) p.preferences ≡ true)
            × ((not (is_empty p.work_authorizations) || is_some p.requires_visa_sponsorship)
                ≡ true))
        × (has_skills 3 p.skills ≡ true)
        × ((listed (λ r. r.employment_types) p.preferences ≡ true)
            × (((stated (λ r. r.relocation_preference) p.preferences || present p.search_status)
                  || salary_given p.preferences)
                ≡ true)))
unfolding calculate_onboarding_brief_completeness
onboarding-complete_iff p =
    let prefs = p.preferences in
    let roles =
      two_points (listed (λ r. r.target_role_titles) prefs)
        (listed (λ r. r.target_disciplines) prefs || present p.seniority_level) 15 10 (omega arith)
        (omega arith) in
    let place =
      full_location (present p.current_country) (stated (λ r. r.remote_preference) prefs)
        (not (is_empty p.work_authorizations)) (is_some p.requires_visa_sponsorship) in
    let terms =
      full_terms (salary_given prefs) (listed (λ r. r.employment_types) prefs)
        (stated (λ r. r.relocation_preference) prefs || present p.search_status) in
    let skills = three_skills p.skills in
    let total = four_parts _ _ _ _ roles.0 place.0 (skill_points_le p.skills) terms.0 in
    (
      (λ h. let (r, l, s, t) = total.0 h in (roles.1.0 r, place.1.0 l, skills.0 s, terms.1.0 t)),
      λ (r, l, s, t). total.1 (roles.1.1 r, place.1.1 l, skills.1 s, terms.1.1 t),
    )
