-- ===== src/Resume/Tests.antt =====
-- A resume that is verified, extracted and made ready, and what goes wrong.
use rolebrief.Common.{
  true, false, none, some, List, [], ◌∷◌, String, take, ◌≡◌, inl, refl, arith, ◌↔◌,
}
use rolebrief.Resume.Types.{
  malware_detected, uploaded, scanning, ready_for_review, verified_clean, rejected, failed,
  Document, World, Limits, Artifact, permanent, other, returns, takes,
}
use rolebrief.Resume.Verification
use rolebrief.Resume.Verification.Run
use rolebrief.Resume.Verification.Run.{VerifyAnswers}
use rolebrief.Resume.Extraction
use rolebrief.Resume.Steps.{
  Step, verify_reads, extract_reads, writes, acts, verify_scans, verify_completes, verify_fails,
  extract_maps, extract_completes, verification, State, act, run, step,
}
use rolebrief.Resume.Sound.{IsSound}
use rolebrief.Resume.Safety.{run-IsSound}
use rolebrief.Resume.Leases.{closed-run}
use rolebrief.Resume.Outcomes.{
  Concludes, first_error, process-Concludes, IsStored, is_returned, process-verified_iff,
}

abbrev limits : Limits
limits = record {
  max_attempts = 2;
  lease_seconds = 60;
  max_blocks = 10;
  max_text_bytes = 100;
  max_block_text_bytes = 50;
}

abbrev document : Document
document = record {
  id = "r";
  status = uploaded;
  byte_size = 10;
  sha256 = "ab";
  verified_at = none;
  scanned_at = none;
  scanned_clean_at = none;
  processing_started_at = none;
  processing_lease_token = none;
  processing_lease_expires_at = none;
  processing_attempt_count = 0;
  verification_version = none;
  scanner_name = none;
  scanner_version = none;
  scanner_definition_version = none;
  current_draft_id = none;
  parser_version = none;
  mapper_version = none;
  failure_code = none;
  failure_message_safe = none;
  retention_delete_at = none;
  deleted_at = none;
}

abbrev world : World
world = record { document = document; attempts = []; jobs = [] }

abbrev artifact : Artifact
artifact = record { key = "k"; sha256 = "cd"; byte_size = 5 }

abbrev state : State
state = record { world = world; flights = [] }

abbrev steps : List Step
steps =
    verify_reads 1 "ab" "v"
    ∷ writes 0 true
    ∷ acts (verify_scans "v")
    ∷ acts (verify_completes "v" 2 true)
    ∷ extract_reads 3 "ab" "x"
    ∷ writes 0 true
    ∷ acts (extract_maps "x" "p1")
    ∷ acts (extract_completes "x" 4 "d" "p1" "m1" artifact)
    ∷ []

becomes_ready : (run 1 limits steps state).world.document.status ≡ ready_for_review
unfolding run step act Verification.read_lease Verification.write_lease Verification.transition
    Verification.complete_clean Extraction.read_lease Extraction.write_lease Extraction.transition
    Extraction.complete_ready
becomes_ready = refl

-- Without a job in the queue nothing is extracted.
not_extracted : run 1 limits (extract_reads 3 "ab" "x" ∷ writes 0 true ∷ []) state ≡ state
unfolding run step
not_extracted = refl

run-IsSound_example : IsSound 2 limits (run 2 limits steps state)
run-IsSound_example = run-IsSound 2 limits steps state (omega arith) (refl, refl, refl, refl)

abbrev closed_world : World
closed_world = record world { document = record document { status = rejected } }

-- A worker is about to take the lease of a document that was rejected meanwhile.
abbrev closed_state : State
closed_state = record {
  world = closed_world;
  flights =
      record {
        service = verification;
        reading = takes;
        started_at = 1;
        expected = "ab";
        token = "v";
      }
      ∷ [];
}

closed-run_example :
    (run 2 limits (writes 0 true ∷ steps) closed_state).world.document ≡ closed_world.document
closed-run_example = closed-run 2 limits (writes 0 true ∷ steps) closed_state (inl refl) (refl, tt)

-- A failed document with one attempt left.
abbrev failed_state : State
failed_state = record {
  world = record world {
    document = record document { status = failed; processing_attempt_count = 1 };
  };
  flights = [];
}

-- Two workers read before either writes; the second takes the lease when the first has failed.
abbrev both_take : List Step
both_take =
    verify_reads 1 "ab" "v"
    ∷ verify_reads 1 "ab" "w"
    ∷ writes 1 true
    ∷ acts (verify_fails "v" 2 other)
    ∷ writes 0 true
    ∷ []

counts_too_many : (run 2 limits both_take failed_state).world.document.processing_attempt_count ≡ 3
unfolding run step act Verification.read_lease Verification.write_lease Verification.handle_error
counts_too_many = refl

-- The last attempt allowed is under way.
abbrev last_state : State
last_state = record {
  world = record world {
    document = record document {
      status = scanning;
      processing_attempt_count = 2;
      processing_lease_token = some "v";
      processing_lease_expires_at = some 100;
    };
  };
  flights = [];
}

-- A job that is delivered again reads that the attempts are used up, and writes so after the scan
-- rejected the document.
abbrev late_write : List Step
late_write =
    verify_reads 1 "ab" "w"
    ∷ acts (verify_fails "v" 2 (permanent malware_detected))
    ∷ writes 0 true
    ∷ []

rejection_lost :
    ((run 2 limits (take 2 late_write) last_state).world.document.status ≡ rejected)
    × ((run 2 limits late_write last_state).world.document.status ≡ failed)
unfolding run step act Verification.read_lease Verification.write_lease Verification.handle_error
rejection_lost = (refl, refl)

-- Two attempts, one of each kind, and a draft to review.
abbrev ready_world : World
ready_world = record world {
  document = record document {
    status = ready_for_review;
    processing_attempt_count = 2;
    current_draft_id = some "d";
  };
}

-- A verification job that is delivered again when the attempts are used up.
review_lost :
    let d = (Verification.acquire_lease limits 9 "ab" "v" true ready_world).1.document in
    (d.status ≡ failed) × (d.current_draft_id ≡ some "d")
unfolding Verification.acquire_lease Verification.read_lease Verification.write_lease
review_lost = (refl, refl)

abbrev answers : VerifyAnswers
answers = record {
  head = returns (record { exists = true; content_length = 10; sha256 = some "ab" });
  bytes = returns true;
  valid = returns true;
  infected = returns true;
}

abbrev same_case : String → String
same_case s = s

infected_is_rejected :
    (Run.process same_case limits answers 5 "ab" "v" true true world).0
    ≡ Run.rejected malware_detected
unfolding Run.process Verification.acquire_lease Verification.read_lease Verification.write_lease
    Verification.transition
infected_is_rejected = refl

process-Concludes_example :
    let r = Run.process same_case limits answers 5 "ab" "v" true true world in
    (r.1.document.processing_lease_token ≡ none)
    × (r.1.document.processing_attempt_count ≡ 1)
    × Concludes 5 (first_error same_case answers document) r
process-Concludes_example =
    process-Concludes same_case limits answers 5 "v" true true world (refl, refl, refl, omega arith)

process-verified_iff_example :
    let r = Run.process same_case limits answers 5 "ab" "v" true true world in
    let Passes : Type 0 =
      (IsStored same_case document answers.head × (is_returned answers.bytes ≡ true))
      × ((is_returned answers.valid ≡ true) × (answers.infected ≡ returns false)) in
    ((r.0 ≡ Run.verified) ↔ Passes) × ((r.1.document.status ≡ verified_clean) ↔ Passes)
process-verified_iff_example =
    process-verified_iff same_case limits answers 5 "v" true true world
      (refl, refl, refl, omega arith)
