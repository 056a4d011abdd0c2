-- ===== src/Resume/Drafts/Types.antt =====
-- The rows, requests, answers and exceptions of `ResumeReviewService`
-- (backend/src/modules/resumes/review/resume-review.service.ts). A view has the items as they stand,
-- where the source groups them by category and heading.
use rolebrief.Common.{ℕ, Bool, Option, List, String}
use rolebrief.Resume.Review.{Item, Operation, ReviewError, ReviewSummary}

pub record Document : Type 0 where
  pub id : ℕ
  pub user_id : ℕ
  pub deleted_at : Option ℕ
  pub is_ready : Bool
  pub current_draft_id : Option ℕ

pub record Draft (V : Type 0) : Type 0 where
  pub id : ℕ
  pub user_id : ℕ
  pub resume_document_id : ℕ
  pub is_ready : Bool
  pub review_revision : ℕ
  pub target_profile_revision : Option ℕ
  pub items : List (Item V)
  pub review : Option ReviewSummary
  pub reviewed_at : Option ℕ
  pub updated_at : ℕ

-- `serialize`
pub record DraftView (V : Type 0) : Type 0 where
  pub resume_document_id : ℕ
  pub is_ready : Bool
  pub draft_id : ℕ
  pub review_revision : ℕ
  pub profile_revision_at_extraction : ℕ
  pub current_profile_revision : ℕ
  pub profile_changed_since_extraction : Bool
  pub items : List (Item V)
  pub summary : ReviewSummary
  pub updated_at : ℕ

pub record Mutation (V : Type 0) : Type 0 where
  pub user_id : ℕ
  pub resume_document_id : ℕ
  pub draft_id : ℕ
  pub idempotency_key : String
  pub request_hash : String
  pub response : DraftView V
  pub expires_at : ℕ

pub record ProfileRow : Type 0 where
  pub user_id : ℕ
  pub revision : ℕ

pub record Store (V : Type 0) : Type 0 where
  pub documents : List Document
  pub drafts : List (Draft V)
  pub mutations : List (Mutation V)
  pub profiles : List ProfileRow

pub record UpdateDraft (V : Type 0) : Type 0 where
  pub draft_id : ℕ
  pub expected_review_revision : ℕ
  pub idempotency_key : String
  pub operations : List (Operation V)

pub data DraftError : Type 0 where
  idempotency_key_reused draft_not_found not_ready_for_review json_too_large : DraftError
  review_revision_conflict : ℕ → ℕ → DraftError
  duplicate_review_item unknown_review_item : String → DraftError
  operation_refused : ReviewError → DraftError

pub data Answer {ℓ} (A : Type ℓ) : Type ℓ where
  failed : DraftError → Answer A
  answered : A → Answer A

infixl 5 ◌>>=◌
abbrev pub ◌>>=◌ {ℓ κ} : {A : Type ℓ} {B : Type κ} → Answer A → (A → Answer B) → Answer B
failed reason >>= next = failed reason
answered a >>= next = next a
