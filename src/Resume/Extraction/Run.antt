-- ===== src/Resume/Extraction/Run.antt =====
-- `process` and `validateExtraction` of
-- backend/src/modules/resumes/processing/resume-extraction.service.ts: one extraction.
use rolebrief.Common.{
  ℕ, ◌+◌, Bool, true, false, not, ◌||◌, Option, none, some, List, [], ◌∷◌, String, str_eq, ltb,
  ◌==◌, if◌then◌else◌, any, length, is_empty,
}
use Prim.Native.Char.{code}
use rolebrief.Resume.Types.{
  FailureCode, storage_unavailable, checksum_mismatch, parser_failed, mapper_failed,
  no_usable_content, extraction_artifact_write_failed, Document, Artifact, World, Limits,
  ProcessingError, permanent, retryable, Call, returns, throws, Head,
}
use rolebrief.Resume.Extraction.{acquire_lease, transition, complete_ready, handle_error}

pub record ExtractJob : Type 0 where
  pub source_sha256 : String
  pub mapper_version : String

-- What the parser tells of the document: the texts of its blocks and the version of the parser.
pub record Extracted : Type 0 where
  pub blocks : List String
  pub parser_version : String

-- What the calls of one run answer: the head and the bytes of the stored file, the parser, the
-- storage of the artifact (whatever it throws, the same retryable error follows), the number of the
-- mapper's items, and the draft's identifier.
pub record ExtractAnswers : Type 0 where
  pub head : Call Head
  pub bytes : Call Bool
  pub extraction : Call Extracted
  pub artifact : Option Artifact
  pub item_count : Call ℕ
  pub draft_id : Call String

pub data ExtractResult : Type 0 where
  skipped ready : ExtractResult
  refused : FailureCode → ExtractResult
  rethrown : ProcessingError → ExtractResult

-- `Buffer.byteLength(text, "utf8")`
abbrev pub byte_length : String → ℕ
byte_length String.[] = 0
byte_length (String.◌∷◌ c s) =
    (if ltb (code c) 128
      then 1
      else if ltb (code c) 2048
      then 2
      else if ltb (code c) 65536
      then 3
      else 4)
    + byte_length s

abbrev pub total_bytes : List String → ℕ
total_bytes [] = 0
total_bytes (text ∷ rest) = byte_length text + total_bytes rest

unfoldable pub validate_extraction : Limits → List String → Option ProcessingError
validate_extraction limits blocks =
    let total = total_bytes blocks in
    if is_empty blocks || total == 0
    then some (permanent no_usable_content)
    else if ltb limits.max_blocks (length blocks) || ltb limits.max_text_bytes total
    then some (permanent parser_failed)
    else if any (λ text. ltb limits.max_block_text_bytes (byte_length text)) blocks
    then some (permanent parser_failed)
    else none

abbrev same_sum : Option String → String → Bool
same_sum none expected = false
same_sum (some sum) expected = str_eq sum expected

abbrev pub check_head : Head → Document → Option ProcessingError
check_head head d =
    if not head.exists
    then some (retryable storage_unavailable)
    else if not (head.content_length == d.byte_size) || not (same_sum head.sha256 d.sha256)
    then some (permanent checksum_mismatch)
    else none

-- What is known before the document is moved to MAPPING.
abbrev pub before_mapping : Limits → ExtractAnswers → Document → Call (Extracted × Artifact)
before_mapping limits answers d = elim answers.head [
  | throws e ↦ throws e
  | returns head ↦ elim (check_head head d) [
    | some e ↦ throws e
    | none ↦ elim answers.bytes [
      | throws e ↦ throws e
      | returns _ ↦ elim answers.extraction [
        | throws e ↦ throws e
        | returns x ↦ elim (validate_extraction limits x.blocks) [
          | some e ↦ throws e
          | none ↦ elim answers.artifact [
            | none ↦ throws (retryable extraction_artifact_write_failed)
            | some a ↦ returns (x, a)
          ]
        ]
      ]
    ]
  ]
]

-- The draft that the mapper's items are stored in.
abbrev pub mapped : ExtractAnswers → Call String
mapped answers = elim answers.item_count [
  | throws e ↦ throws e
  | returns n ↦ if n == 0 then throws (permanent no_usable_content) else answers.draft_id
]

abbrev completed : Bool × World → Option ProcessingError × World
completed (true, w) = (none, w)
completed (false, w) = (some (retryable mapper_failed), w)

abbrev drafted :
    ExtractAnswers
    → ExtractJob
    → String
    → ℕ
    → Extracted
    → Artifact
    → Bool × World
    → Option ProcessingError × World
drafted answers job token now x artifact (false, w) = (some (retryable parser_failed), w)
drafted answers job token now x artifact (true, w) = elim (mapped answers) [
  | throws e ↦ (some e, w)
  | returns draft_id ↦
      completed (complete_ready token now draft_id x.parser_version job.mapper_version artifact w)
]

abbrev pub attempted :
    Limits
    → ExtractAnswers
    → ExtractJob
    → String
    → ℕ
    → Document
    → World
    → Option ProcessingError × World
attempted limits answers job token now d w = elim (before_mapping limits answers d) [
  | throws e ↦ (some e, w)
  | returns (x, artifact) ↦
      drafted answers job token now x artifact (transition token x.parser_version w)
]

abbrev finished : String → ℕ → Option ProcessingError × World → ExtractResult × World
finished token now (none, w) = (ready, w)
finished token now (some (permanent code), w) =
    (refused code, handle_error token now (permanent code) w)
finished token now (some e, w) = (rethrown e, handle_error token now e w)

abbrev leased_run :
    Limits
    → ExtractAnswers
    → ExtractJob
    → String
    → ℕ
    → Option Document × World
    → ExtractResult × World
leased_run limits answers job token now (none, w) = (skipped, w)
leased_run limits answers job token now (some d, w) =
    finished token now (attempted limits answers job token now d w)

unfoldable pub process :
    Limits → ExtractAnswers → ExtractJob → ℕ → String → Bool → World → ExtractResult × World
process limits answers job now token stored w =
    leased_run limits answers job token now
      (acquire_lease limits now job.source_sha256 token stored w)
