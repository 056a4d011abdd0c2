-- ===== src/Resume/Types.antt =====
-- The rows of `ResumeDocument` and `ResumeParseAttempt`, the errors of their processing and the
-- results of calls. One document is followed: every write names it, or tests each row by itself.
use rolebrief.Common.{
  ℕ, Bool, true, false, Option, none, some, List, ◌∷◌, String, str_eq, ltb, if◌then◌else◌, map,
}

-- The unused codes of the enumeration are left out.
pub data FailureCode : Type 0 where
  storage_unavailable checksum_mismatch size_mismatch : FailureCode
  parser_timeout parser_failed mapper_failed : FailureCode
  type_unsupported file_empty file_too_large signature_mismatch : FailureCode
  pdf_invalid pdf_encrypted pdf_page_limit_exceeded : FailureCode
  docx_invalid docx_archive_limit_exceeded docx_unsafe_path docx_macro_unsupported : FailureCode
  malware_detected scanner_unavailable scan_timeout no_usable_content : FailureCode
  extraction_artifact_write_failed processing_attempts_exhausted : FailureCode

pub data DocumentStatus : Type 0 where
  created uploading uploaded verifying scanning verified_clean : DocumentStatus
  extracting mapping ready_for_review applying applied : DocumentStatus
  rejected failed deleted : DocumentStatus

pub record Document : Type 0 where
  pub id : String
  pub status : DocumentStatus
  pub byte_size : ℕ
  pub sha256 : String
  pub verified_at : Option ℕ
  pub scanned_at : Option ℕ
  pub scanned_clean_at : Option ℕ
  pub processing_started_at : Option ℕ
  pub processing_lease_token : Option String
  pub processing_lease_expires_at : Option ℕ
  pub processing_attempt_count : ℕ
  pub verification_version : Option String
  pub scanner_name : Option String
  pub scanner_version : Option String
  pub scanner_definition_version : Option String
  pub current_draft_id : Option String
  pub parser_version : Option String
  pub mapper_version : Option String
  pub failure_code : Option FailureCode
  pub failure_message_safe : Option String
  pub retention_delete_at : Option ℕ
  pub deleted_at : Option ℕ

pub data AttemptStatus : Type 0 where
  running succeeded failed : AttemptStatus

pub record Artifact : Type 0 where
  pub key : String
  pub sha256 : String
  pub byte_size : ℕ

-- The queue's job is told by the queue and the attempt; of the metrics nothing is kept.
pub record Attempt : Type 0 where
  pub queue : String
  pub attempt : ℕ
  pub status : AttemptStatus
  pub started_at : ℕ
  pub completed_at : Option ℕ
  pub failed_at : Option ℕ
  pub failure_code : Option FailureCode
  pub artifact : Option Artifact

-- A document, its attempts, and the checksums of the extraction jobs that were put in the queue.
pub record World : Type 0 where
  pub document : Document
  pub attempts : List Attempt
  pub jobs : List String

-- `config.resumes.processing` and the limits of an extraction
pub record Limits : Type 0 where
  pub max_attempts : ℕ
  pub lease_seconds : ℕ
  pub max_blocks : ℕ
  pub max_text_bytes : ℕ
  pub max_block_text_bytes : ℕ

-- What a failing call or check throws.
pub data ProcessingError : Type 0 where
  permanent retryable : FailureCode → ProcessingError
  scan_timed_out scanner_down scanner_protocol : ProcessingError
  parser_timed_out parser_down parser_protocol output_too_large output_invalid : ProcessingError
  service_unavailable other : ProcessingError

-- What a call of the storage, the scanner, the validator, the parser or the mapper comes to.
pub data Call {ℓ} (A : Type ℓ) : Type ℓ where
  returns : A → Call A
  throws : ProcessingError → Call A

-- What `headObject` tells of the stored file.
pub record Head : Type 0 where
  pub exists : Bool
  pub content_length : ℕ
  pub sha256 : Option String

abbrev pub holds_token : String → Option String → Bool
holds_token token none = false
holds_token token (some t) = str_eq t token

-- `OR: [{ processingLeaseExpiresAt: null }, { processingLeaseExpiresAt: { lt: now } }]`
abbrev pub lease_free : ℕ → Option ℕ → Bool
lease_free now none = true
lease_free now (some t) = ltb t now

-- `processingLeaseExpiresAt: { lt: now }`: null is never before `now`.
abbrev pub lease_expired : ℕ → Option ℕ → Bool
lease_expired now none = false
lease_expired now (some t) = ltb t now

abbrev pub is_running : Attempt → Bool
is_running a = elim a.status [ running ↦ true | _ ↦ false ]

-- `resumeParseAttempt.updateMany` on the attempts that run
abbrev pub update_running : (Attempt → Attempt) → List Attempt → List Attempt
update_running f = map (λ a. if is_running a then f a else a)

abbrev pub failed_attempt : ℕ → FailureCode → Attempt → Attempt
failed_attempt now code a = record a {
  status = failed;
  failed_at = some now;
  failure_code = some code;
}

-- The row that `acquireLease` creates; `stored` tells whether the creation succeeds.
abbrev pub with_attempt : Bool → String → ℕ → ℕ → List Attempt → List Attempt
with_attempt false queue count now attempts = attempts
with_attempt true queue count now attempts =
    record {
      queue = queue;
      attempt = count;
      status = running;
      started_at = now;
      completed_at = none;
      failed_at = none;
      failure_code = none;
      artifact = none;
    }
    ∷ attempts

-- What the read of `acquireLease` leads to: to nothing, to the update of a document whose attempts
-- are used up, or to the update that takes the lease. The write follows the read outside any
-- transaction, so that others may write in between.
pub data Reading : Type 0 where
  refuses gives_up takes : Reading

-- The update of a document whose attempts are used up. It does not look at the status or the lease.
abbrev pub exhausted : String → World → World
exhausted message w = record w {
  document = record w.document {
    status = DocumentStatus.failed;
    failure_code = some processing_attempts_exhausted;
    failure_message_safe = some message;
  };
}
