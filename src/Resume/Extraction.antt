-- ===== src/Resume/Extraction.antt =====
-- backend/src/modules/resumes/processing/resume-extraction.service.ts. What the storage, the parser,
-- the mapper and the table of drafts answer is an argument.
pub mod Run
use rolebrief.Common.{
  ℕ, suc, ◌+◌, ◌*◌, Bool, true, false, not, ◌&&◌, ◌||◌, Option, none, some, is_some, List, [], ◌∷◌,
  String, str_eq, ltb, leb, ◌==◌, if◌then◌else◌, any, length, is_empty,
}
use Prim.Native.Char.{code}
use rolebrief.Resume.Types.{
  FailureCode, storage_unavailable, checksum_mismatch, parser_timeout, parser_failed, mapper_failed,
  no_usable_content, extraction_artifact_write_failed, DocumentStatus, verified_clean, extracting,
  mapping, ready_for_review, rejected, failed, deleted, Document, succeeded, Artifact, Attempt,
  World, Limits, ProcessingError, permanent, retryable, parser_timed_out, parser_down,
  parser_protocol, output_too_large, output_invalid, service_unavailable, Call, returns, throws,
  Head, holds_token, lease_free, lease_expired, update_running, failed_attempt, with_attempt,
  exhausted, Reading, refuses, gives_up, takes,
}

abbrev is_past : DocumentStatus → Bool
is_past ready_for_review = true
is_past rejected = true
is_past deleted = true
is_past _ = false

abbrev pub is_startable : DocumentStatus → Bool
is_startable verified_clean = true
is_startable failed = true
is_startable _ = false

abbrev pub is_extracting : DocumentStatus → Bool
is_extracting extracting = true
is_extracting _ = false

abbrev pub is_mapping : DocumentStatus → Bool
is_mapping mapping = true
is_mapping _ = false

abbrev leased : ℕ → ℕ → String → Document → Document
leased lease_seconds now token d = record d {
  status = extracting;
  failure_code = none;
  failure_message_safe = none;
  processing_lease_token = some token;
  processing_lease_expires_at = some (now + lease_seconds * 1000);
  processing_started_at = some now;
  processing_attempt_count = suc d.processing_attempt_count;
}

-- The locked document, and the attempt that is created for it.
abbrev taken : Bool → ℕ → Document → World → Option Document × World
taken stored now locked w = (
  some locked,
  record w {
    document = locked;
    attempts = with_attempt stored "extract" locked.processing_attempt_count now w.attempts;
  },
)

-- The first half of `acquireLease`: `findUnique` and the tests of what it found.
unfoldable pub read_lease : Limits → String → World → Reading
read_lease limits expected w =
    let d = w.document in
    if is_some d.deleted_at || not (str_eq d.sha256 expected) || is_past d.status
    then refuses
    else if leb limits.max_attempts d.processing_attempt_count
    then gives_up
    else takes

-- The second half, on the document as it is by then: the update of exhausted attempts names the
-- document only; the `updateMany` that takes the lease does not test the count again.
unfoldable pub write_lease :
    Limits → ℕ → String → String → Bool → Reading → World → Option Document × World
write_lease limits now expected token stored refuses w = (none, w)
write_lease limits now expected token stored gives_up w =
    (none, exhausted "Resume extraction attempts exhausted." w)
write_lease limits now expected token stored takes w =
    let d = w.document in
    if str_eq d.sha256 expected
      && not (is_some d.deleted_at)
      && is_startable d.status
      && lease_free now d.processing_lease_expires_at
    then taken stored now (leased limits.lease_seconds now token d) w
    else (none, w)

-- The document that the lease is for, if it is got, where nobody writes between the halves.
unfoldable pub acquire_lease : Limits → ℕ → String → String → Bool → World → Option Document × World
acquire_lease limits now expected token stored w =
    write_lease limits now expected token stored (read_lease limits expected w) w

-- `transition`, with which the source only goes from EXTRACTING to MAPPING.
unfoldable pub transition : String → String → World → Bool × World
transition token parser_version w =
    let d = w.document in
    if is_extracting d.status
      && holds_token token d.processing_lease_token
      && not (is_some d.deleted_at)
    then (
      true,
      record w { document = record d { status = mapping; parser_version = some parser_version } },
    )
    else (false, w)

abbrev readied : String → String → String → Document → Document
readied draft_id parser_version mapper_version d = record d {
  status = ready_for_review;
  current_draft_id = some draft_id;
  parser_version = some parser_version;
  mapper_version = some mapper_version;
  processing_lease_token = none;
  processing_lease_expires_at = none;
  failure_code = none;
  failure_message_safe = none;
}

abbrev succeeded_attempt : ℕ → Artifact → Attempt → Attempt
succeeded_attempt now artifact a = record a {
  status = succeeded;
  completed_at = some now;
  artifact = some artifact;
}

unfoldable pub complete_ready :
    String → ℕ → String → String → String → Artifact → World → Bool × World
complete_ready token now draft_id parser_version mapper_version artifact w =
    let d = w.document in
    if is_mapping d.status
      && holds_token token d.processing_lease_token
      && not (is_some d.deleted_at)
    then (
      true,
      record w {
        document = readied draft_id parser_version mapper_version d;
        attempts = update_running (succeeded_attempt now artifact) w.attempts;
      },
    )
    else (false, w)

abbrev pub classify : ProcessingError → FailureCode
classify (permanent code) = code
classify (retryable code) = code
classify parser_timed_out = parser_timeout
classify parser_down = parser_failed
classify parser_protocol = parser_failed
classify output_too_large = parser_failed
classify output_invalid = parser_failed
classify service_unavailable = storage_unavailable
classify _ = mapper_failed

unfoldable pub handle_error : String → ℕ → ProcessingError → World → World
handle_error token now e w =
    let d = w.document in
    record w {
      document =
          if holds_token token d.processing_lease_token
            && not (is_some d.deleted_at)
            && (is_extracting d.status || is_mapping d.status)
          then record d {
            status = failed;
            failure_code = some (classify e);
            failure_message_safe = some "Resume extraction or mapping failed safely.";
            processing_lease_token = none;
            processing_lease_expires_at = none;
          }
          else d;
      attempts = update_running (failed_attempt now (classify e)) w.attempts;
    }

unfoldable pub reclaim_stalled : ℕ → World → World
reclaim_stalled now w =
    let d = w.document in
    if (is_extracting d.status || is_mapping d.status)
      && not (is_some d.deleted_at)
      && lease_expired now d.processing_lease_expires_at
    then record w {
      document = record d {
        status = failed;
        failure_code = some parser_failed;
        failure_message_safe = some "Extraction lease expired.";
        processing_lease_token = none;
        processing_lease_expires_at = none;
      };
    }
    else w

-- `enqueue`: the queue takes the job.
abbrev pub enqueue : String → World → World
enqueue sum w = record w { jobs = sum ∷ w.jobs }

abbrev is_clean : DocumentStatus → Bool
is_clean verified_clean = true
is_clean _ = false

-- One row of `reconcileVerifiedClean`.
unfoldable pub reconcile : World → World
reconcile w =
    let d = w.document in
    if is_clean d.status && not (is_some d.deleted_at) && not (is_some d.current_draft_id)
    then enqueue d.sha256 w
    else w
