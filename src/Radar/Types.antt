-- ===== src/Radar/Types.antt =====
-- backend/src/modules/radar/radar.types.ts: what the ranking reads and shows.
use rolebrief.Common.{ℕ, Bool, Option, List, String}
use rolebrief.Eligibility.Types.{Summary}
use rolebrief.Matching.{MatchBrief}

pub data RadarSort : Type 0 where
  relevance freshest : RadarSort

pub record RadarCandidate : Type 0 where
  pub id : String
  pub slug : String
  pub title : String
  pub status : String
  pub work_mode : Option String
  pub employment_type : Option String
  pub seniority : Option String
  pub first_seen_at : ℕ
  pub published_at : Option ℕ
  pub application_deadline_at : Option ℕ
  pub application_url : Option String
  pub company_name : Option String
  pub lane_reasons : List String
  pub cheap_rank : ℕ

pub record Ranking : Type 0 where
  pub active_apply_tier : ℕ
  pub match_tier : ℕ
  pub comparable_evidence : ℕ
  pub eligibility_tier : ℕ
  pub preference_tier : ℕ
  pub tracked_tier : ℕ
  pub first_seen_at : ℕ
  pub freshness_at : ℕ
  pub deadline_at : Option ℕ
  pub stable_job_id : String

pub record RadarAvailability : Type 0 where
  pub status : String
  pub can_apply : Bool
  pub reason : Option String

pub record RadarItem : Type 0 where
  pub id : String
  pub slug : String
  pub rank : ℕ
  pub reason_codes : List String
  pub job_availability : RadarAvailability
  pub match_brief : Option MatchBrief
  pub eligibility : Option Summary
  pub ranking : Ranking

pub record RadarPreference : Type 0 where
  pub work_mode : Option String
  pub employment_types : List String
