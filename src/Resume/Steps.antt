-- ===== src/Resume/Steps.antt =====
-- The writes of all workers on one document, in any order: each call of the two processing services
-- between two reads of the clock is an act, and runs of several workers are sequences of steps. The
-- two halves of `acquireLease` are steps of their own, and what it reads back and the attempt that
-- it creates belong to the second. Also `retryVerification` of
-- backend/src/modules/resumes/resume-upload.service.ts, as far as it puts extractions in the queue.
use rolebrief.Common.{
  ℕ, zero, suc, Bool, true, false, not, ◌&&◌, Option, none, some, is_some, List, [], ◌∷◌, String,
  str_eq, any, length, ltb, if◌then◌else◌,
}
use mathlib.Core.Option
use rolebrief.Resume.Types.{
  DocumentStatus, uploaded, failed, Artifact, World, Limits, ProcessingError, Reading, refuses,
}
use rolebrief.Resume.Verification
use rolebrief.Resume.Extraction
use rolebrief.Resume.Extraction.{enqueue, reconcile}

pub data Service : Type 0 where
  verification extraction : Service

-- A call of `acquireLease` that has read the document and not written yet, with its time, the
-- checksum of its job and its token.
pub record Flight : Type 0 where
  pub service : Service
  pub reading : Reading
  pub started_at : ℕ
  pub expected : String
  pub token : String

pub record State : Type 0 where
  pub world : World
  pub flights : List Flight

-- What is one write. A number is the time, a first text the worker's token.
pub data Act : Type 0 where
  verify_scans : String → Act
  verify_completes : String → ℕ → Bool → Act
  verify_fails : String → ℕ → ProcessingError → Act
  verify_reclaims : ℕ → Act
  extract_maps : String → String → Act
  extract_completes : String → ℕ → String → String → String → Artifact → Act
  extract_fails : String → ℕ → ProcessingError → Act
  extract_reclaims : ℕ → Act
  reconciles retries : Act

-- A call of `acquireLease` is told by its time, its checksum and its token when it reads, and by its
-- place among the calls under way when it writes, or when its worker dies.
pub data Step : Type 0 where
  verify_reads extract_reads : ℕ → String → String → Step
  writes : ℕ → Bool → Step
  dies : ℕ → Step
  acts : Act → Step

abbrev pub queued_if_done : Bool → Bool × World → World
queued_if_done queued (false, w) = w
queued_if_done queued (true, w) = if queued then enqueue w.document.sha256 w else w

abbrev may_retry : DocumentStatus → Bool
may_retry uploaded = true
may_retry failed = true
may_retry _ = false

-- The extraction that `retryVerification` asks for; its other branch only queues a verification,
-- which may start at any time.
unfoldable pub retry : World → World
retry w =
    let d = w.document in
    if not (is_some d.deleted_at) && may_retry d.status && is_some d.scanned_clean_at
    then enqueue d.sha256 w
    else w

unfoldable pub act : Act → World → World
act (verify_scans token) w = (Verification.transition token w).1
act (verify_completes token now queued) w =
    queued_if_done queued (Verification.complete_clean token now w)
act (verify_fails token now e) w = Verification.handle_error token now e w
act (verify_reclaims now) w = Verification.reclaim_stalled now w
act (extract_maps token parser_version) w = (Extraction.transition token parser_version w).1
act (extract_completes token now draft_id parser_version mapper_version artifact) w =
    (Extraction.complete_ready token now draft_id parser_version mapper_version artifact w).1
act (extract_fails token now e) w = Extraction.handle_error token now e w
act (extract_reclaims now) w = Extraction.reclaim_stalled now w
act reconciles w = reconcile w
act retries w = retry w

abbrev pub read_of : Limits → Service → String → World → Reading
read_of limits verification expected w = Verification.read_lease limits expected w
read_of limits extraction expected w = Extraction.read_lease limits expected w

abbrev pub written : Limits → Bool → Flight → World → World
written limits stored f w = elim f.service [
  | verification ↦
      (Verification.write_lease limits f.started_at f.expected f.token stored f.reading w).1
  | extraction ↦
      (Extraction.write_lease limits f.started_at f.expected f.token stored f.reading w).1
]

-- A call that refuses is over at once.
abbrev pub under_way : Flight → List Flight → List Flight
under_way f fs = elim f.reading [ refuses ↦ fs | _ ↦ f ∷ fs ]

-- At most `workers` calls are under way at once.
abbrev pub reads : ℕ → Limits → Service → ℕ → String → String → State → State
reads workers limits service now expected token s =
    if ltb (length s.flights) workers
    then record s {
      flights =
          under_way
            (record {
              service = service;
              reading = read_of limits service expected s.world;
              started_at = now;
              expected = expected;
              token = token;
            })
            s.flights;
    }
    else s

-- The call at a place, and the others.
abbrev pub picked : ℕ → List Flight → Option (Flight × List Flight)
picked n [] = none
picked zero (f ∷ fs) = some (f, fs)
picked (suc n) (f ∷ fs) = Option.map (λ r. (r.0, f ∷ r.1)) (picked n fs)

abbrev pub write_picked : Limits → Bool → State → Option (Flight × List Flight) → State
write_picked limits stored s none = s
write_picked limits stored s (some (f, fs)) = record {
  world = written limits stored f s.world;
  flights = fs;
}

abbrev pub drop_picked : State → Option (Flight × List Flight) → State
drop_picked s none = s
drop_picked s (some (f, fs)) = record s { flights = fs }

-- A worker only extracts for a job that the queue got.
unfoldable pub step : ℕ → Limits → Step → State → State
step workers limits (verify_reads now expected token) s =
    reads workers limits verification now expected token s
step workers limits (extract_reads now sum token) s =
    if any (str_eq sum) s.world.jobs then reads workers limits extraction now sum token s else s
step workers limits (writes n stored) s = write_picked limits stored s (picked n s.flights)
step workers limits (dies n) s = drop_picked s (picked n s.flights)
step workers limits (acts a) s = record s { world = act a s.world }

unfoldable pub run : ℕ → Limits → List Step → State → State
run workers limits [] s = s
run workers limits (x ∷ steps) s = run workers limits steps (step workers limits x s)
