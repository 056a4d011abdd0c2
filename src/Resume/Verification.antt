-- ===== src/Resume/Verification.antt =====
-- backend/src/modules/resumes/processing/resume-processing.service.ts. What the storage, the file
-- validator and the scanner answer is an argument; `to_lower` is `toLowerCase`.
pub mod Run
use rolebrief.Common.{
  ℕ, suc, ◌+◌, ◌*◌, Bool, true, false, not, ◌&&◌, ◌||◌, Option, none, some, is_some, ◌∷◌, String,
  str_eq, leb, ◌==◌, if◌then◌else◌,
}
use rolebrief.Resume.Types.{
  FailureCode, storage_unavailable, checksum_mismatch, size_mismatch, scan_timeout,
  scanner_unavailable, malware_detected, DocumentStatus, uploaded, verifying, scanning,
  verified_clean, deleted, Document, succeeded, Attempt, World, Limits, ProcessingError, permanent,
  retryable, scan_timed_out, scanner_down, scanner_protocol, Call, returns, throws, Head,
  holds_token, lease_free, lease_expired, update_running, failed_attempt, with_attempt, exhausted,
  Reading, refuses, gives_up, takes,
}

abbrev is_settled : DocumentStatus → Bool
is_settled verified_clean = true
is_settled DocumentStatus.rejected = true
is_settled deleted = true
is_settled _ = false

abbrev is_startable : DocumentStatus → Bool
is_startable uploaded = true
is_startable DocumentStatus.failed = true
is_startable _ = false

abbrev pub is_verifying : DocumentStatus → Bool
is_verifying verifying = true
is_verifying _ = false

abbrev pub is_scanning : DocumentStatus → Bool
is_scanning scanning = true
is_scanning _ = false

abbrev pub leased : ℕ → ℕ → String → Document → Document
leased lease_seconds now token d = record d {
  status = verifying;
  failure_code = none;
  failure_message_safe = none;
  processing_lease_token = some token;
  processing_lease_expires_at = some (now + lease_seconds * 1000);
  processing_started_at = some now;
  processing_attempt_count = suc d.processing_attempt_count;
  verification_version = some "resume-validation-v1";
}

-- The locked document, and the attempt that is created for it.
abbrev pub taken : Bool → ℕ → Document → World → Option Document × World
taken stored now locked w = (
  some locked,
  record w {
    document = locked;
    attempts = with_attempt stored "verify" locked.processing_attempt_count now w.attempts;
  },
)

-- The first half of `acquireLease`: `findUnique` and the tests of what it found.
unfoldable pub read_lease : Limits → String → World → Reading
read_lease limits expected w =
    let d = w.document in
    if is_some d.deleted_at || not (str_eq d.sha256 expected) || is_settled d.status
    then refuses
    else if leb limits.max_attempts d.processing_attempt_count
    then gives_up
    else takes

-- The second half, on the document as it is by then: the update of exhausted attempts names the
-- document only; the `updateMany` that takes the lease does not test the count again.
unfoldable pub write_lease :
    Limits → ℕ → String → String → Bool → Reading → World → Option Document × World
write_lease limits now expected token stored refuses w = (none, w)
write_lease limits now expected token stored gives_up w =
    (none, exhausted "Resume processing attempts exhausted." w)
write_lease limits now expected token stored takes w =
    let d = w.document in
    if str_eq d.sha256 expected
      && not (is_some d.deleted_at)
      && is_startable d.status
      && lease_free now d.processing_lease_expires_at
    then taken stored now (leased limits.lease_seconds now token d) w
    else (none, w)

-- The document that the lease is for, if it is got, where nobody writes between the halves.
unfoldable pub acquire_lease : Limits → ℕ → String → String → Bool → World → Option Document × World
acquire_lease limits now expected token stored w =
    write_lease limits now expected token stored (read_lease limits expected w) w

-- From VERIFYING to SCANNING, and whether the row was there.
unfoldable pub transition : String → World → Bool × World
transition token w =
    let d = w.document in
    if is_verifying d.status
      && holds_token token d.processing_lease_token
      && not (is_some d.deleted_at)
    then (true, record w { document = record d { status = scanning } })
    else (false, w)

abbrev cleaned : ℕ → Document → Document
cleaned now d = record d {
  status = verified_clean;
  verified_at = some now;
  scanned_at = some now;
  scanned_clean_at = some now;
  scanner_name = some "clamav";
  scanner_version = some "clamav-instream";
  scanner_definition_version = some "runtime";
  processing_lease_token = none;
  processing_lease_expires_at = none;
  failure_code = none;
  failure_message_safe = none;
}

abbrev succeeded_attempt : ℕ → Attempt → Attempt
succeeded_attempt now a = record a { status = succeeded; completed_at = some now }

unfoldable pub complete_clean : String → ℕ → World → Bool × World
complete_clean token now w =
    let d = w.document in
    if is_scanning d.status
      && holds_token token d.processing_lease_token
      && not (is_some d.deleted_at)
    then (
      true,
      record w {
        document = cleaned now d;
        attempts = update_running (succeeded_attempt now) w.attempts;
      },
    )
    else (false, w)

abbrev pub classify : ProcessingError → FailureCode
classify (permanent code) = code
classify (retryable code) = code
classify scan_timed_out = scan_timeout
classify scanner_down = scanner_unavailable
classify scanner_protocol = scanner_unavailable
classify _ = storage_unavailable

abbrev pub is_permanent : ProcessingError → Bool
is_permanent (permanent code) = true
is_permanent _ = false

abbrev is_malware : FailureCode → Bool
is_malware malware_detected = true
is_malware _ = false

abbrev dropped : ℕ → ProcessingError → Document → Document
dropped now e d = record d {
  status = if is_permanent e then DocumentStatus.rejected else DocumentStatus.failed;
  failure_code = some (classify e);
  failure_message_safe = some (
      if is_permanent e
      then "Resume file failed validation."
      else "Resume processing dependency is temporarily unavailable.");
  processing_lease_token = none;
  processing_lease_expires_at = none;
  scanned_at = if is_permanent e && is_malware (classify e) then some now else d.scanned_at;
  retention_delete_at =
      if is_permanent e then some (now + 7 * 24 * 60 * 60 * 1000) else d.retention_delete_at;
}

unfoldable pub handle_error : String → ℕ → ProcessingError → World → World
handle_error token now e w =
    let d = w.document in
    record w {
      document =
          if holds_token token d.processing_lease_token
            && not (is_some d.deleted_at)
            && (is_verifying d.status || is_scanning d.status)
          then dropped now e d
          else d;
      attempts = update_running (failed_attempt now (classify e)) w.attempts;
    }

unfoldable pub reclaim_stalled : ℕ → World → World
reclaim_stalled now w =
    let d = w.document in
    if (is_verifying d.status || is_scanning d.status)
      && not (is_some d.deleted_at)
      && lease_expired now d.processing_lease_expires_at
    then record w {
      document = record d {
        status = DocumentStatus.failed;
        failure_code = some storage_unavailable;
        failure_message_safe = some "Processing lease expired.";
        processing_lease_token = none;
        processing_lease_expires_at = none;
      };
    }
    else w
