-- ===== src/Resume/Verification/Run.antt =====
-- `process` of backend/src/modules/resumes/processing/resume-processing.service.ts: one verification.
use rolebrief.Common.{
  ℕ, Bool, true, false, not, ◌&&◌, Option, none, some, ◌∷◌, String, str_eq, ◌==◌, if◌then◌else◌,
}
use rolebrief.Resume.Types.{
  FailureCode, storage_unavailable, checksum_mismatch, size_mismatch, malware_detected, Document,
  World, Limits, ProcessingError, permanent, retryable, Call, returns, throws, Head,
}
use rolebrief.Resume.Verification.{acquire_lease, transition, complete_clean, handle_error}

-- What the calls of one run answer: the head and the bytes of the stored file, the validator, and
-- the scanner, which tells whether the file is infected.
pub record VerifyAnswers : Type 0 where
  pub head : Call Head
  pub bytes : Call Bool
  pub valid : Call Bool
  pub infected : Call Bool

pub data VerifyResult : Type 0 where
  skipped verified : VerifyResult
  rejected : FailureCode → VerifyResult
  rethrown : ProcessingError → VerifyResult

abbrev pub during_scan : VerifyAnswers → Option ProcessingError
during_scan answers = elim answers.valid [
  | throws e ↦ some e
  | returns _ ↦ elim answers.infected [
    | throws e ↦ some e
    | returns infected ↦ if infected then some (permanent malware_detected) else none
  ]
]

abbrev completed : Bool × World → Option ProcessingError × World
completed (true, w) = (none, w)
completed (false, w) = (some (retryable storage_unavailable), w)

abbrev pub scanned : VerifyAnswers → String → ℕ → Bool × World → Option ProcessingError × World
scanned answers token now (false, w) = (some (retryable storage_unavailable), w)
scanned answers token now (true, w) = elim (during_scan answers) [
  | some e ↦ (some e, w)
  | none ↦ completed (complete_clean token now w)
]

-- `extraction.enqueue(...).catch(() => undefined)`: `queued` tells whether the queue takes the job.
abbrev enqueued : Bool → Document → World → World
enqueued queued d w = if queued then record w { jobs = d.sha256 ∷ w.jobs } else w

abbrev pub finished :
    Bool → String → ℕ → Document → Option ProcessingError × World → VerifyResult × World
finished queued token now d (none, w) = (verified, enqueued queued d w)
finished queued token now d (some (permanent code), w) =
    (VerifyResult.rejected code, handle_error token now (permanent code) w)
finished queued token now d (some e, w) = (rethrown e, handle_error token now e w)

module _ (to_lower : String → String) where
  -- An empty checksum is no checksum.
  abbrev pub same_sum : Option String → String → Bool
  same_sum none expected = false
  same_sum (some sum) expected = not (str_eq sum "") && str_eq (to_lower sum) expected

  abbrev pub check_head : Head → Document → Option ProcessingError
  check_head head d =
      if not head.exists
      then some (retryable storage_unavailable)
      else if not (head.content_length == d.byte_size)
      then some (permanent size_mismatch)
      else if not (same_sum head.sha256 d.sha256)
      then some (permanent checksum_mismatch)
      else none

  -- What the calls before the scan throw.
  abbrev pub before_scan : VerifyAnswers → Document → Option ProcessingError
  before_scan answers d = elim answers.head [
    | throws e ↦ some e
    | returns head ↦ elim (check_head head d) [
      | some e ↦ some e
      | none ↦ elim answers.bytes [ throws e ↦ some e | returns _ ↦ none ]
    ]
  ]

  -- The body of the `try`.
  abbrev pub attempted :
      VerifyAnswers → String → ℕ → Document → World → Option ProcessingError × World
  attempted answers token now d w = elim (before_scan answers d) [
    | some e ↦ (some e, w)
    | none ↦ scanned answers token now (transition token w)
  ]

  abbrev leased_run :
      VerifyAnswers → String → ℕ → Bool → Option Document × World → VerifyResult × World
  leased_run answers token now queued (none, w) = (skipped, w)
  leased_run answers token now queued (some d, w) =
      finished queued token now d (attempted answers token now d w)

  -- A run that nothing interrupts, at one time `now`.
  unfoldable pub process :
      Limits → VerifyAnswers → ℕ → String → String → Bool → Bool → World → VerifyResult × World
  process limits answers now expected token stored queued w =
      leased_run answers token now queued (acquire_lease limits now expected token stored w)
