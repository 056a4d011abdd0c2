-- ===== src/Matching.antt =====
-- backend/src/modules/matching/reason-codes.ts: what a match brief holds.
pub mod Facts
pub mod Evaluator
pub mod Compensation
pub mod Brief
pub mod BriefLaws
pub mod Tests
use rolebrief.Common.{ℕ, List, String}

pub data MatchStatus : Type 0 where
  strong_alignment partial_alignment limited_alignment not_calculated : MatchStatus

pub data MatchDimension : Type 0 where
  title seniority employment_type work_mode compensation : MatchDimension

pub data MatchState : Type 0 where
  matched partial gap unknown not_applicable : MatchState

pub data Provenance : Type 0 where
  user_declared provider_structured normalized_provider unavailable : Provenance

pub record MatchFact : Type 0 where
  pub label : String
  pub value : String
  pub provenance : Provenance

pub record MatchResult : Type 0 where
  pub dimension : MatchDimension
  pub status : MatchState
  pub reason_code : String
  pub candidate_fact : MatchFact
  pub job_fact : MatchFact
  pub explanation : String

pub record MatchEvidence : Type 0 where
  pub dimension : MatchDimension
  pub reason_code : String
  pub label : String

-- `scorePercent` is always null.
pub record MatchBrief : Type 0 where
  pub engine_version : String
  pub taxonomy_version : String
  pub job_slug : String
  pub status : MatchStatus
  pub label : String
  pub coverage_percent : ℕ
  pub comparable_dimension_count : ℕ
  pub primary_reason_code : String
  pub strengths : List MatchEvidence
  pub gaps : List MatchEvidence
  pub unknowns : List MatchEvidence
  pub profile_revision : ℕ
  pub job_match_version : String
  pub calculated_at : ℕ
