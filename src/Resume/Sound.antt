-- ===== src/Resume/Sound.antt =====
-- What a sound resume is, and that each write on it keeps it sound.
use rolebrief.Common.{
  ℕ, ◌+◌, ◌≤◌, ◌<◌, Bool, true, false, is_some, List, [], ◌∷◌, String, length, is_empty, All, ◌≡◌,
  refl, arith,
}
use rolebrief.Resume.Types.{
  DocumentStatus, verifying, scanning, verified_clean, extracting, mapping, ready_for_review, World,
  Limits, ProcessingError, Artifact, Reading, refuses, gives_up, takes,
}
use rolebrief.Resume.Verification
use rolebrief.Resume.Extraction
use rolebrief.Resume.Extraction.{reconcile}
use rolebrief.Resume.Steps.{
  Service, verification, extraction, Flight, State, Act, verify_scans, verify_completes,
  verify_fails, verify_reclaims, extract_maps, extract_completes, extract_fails, extract_reclaims,
  reconciles, retries, queued_if_done, retry, act, written,
}

abbrev is_cleared : DocumentStatus → Bool
is_cleared verified_clean = true
is_cleared extracting = true
is_cleared mapping = true
is_cleared ready_for_review = true
is_cleared _ = false

abbrev is_working : DocumentStatus → Bool
is_working verifying = true
is_working scanning = true
is_working extracting = true
is_working mapping = true
is_working _ = false

abbrev is_ready : DocumentStatus → Bool
is_ready ready_for_review = true
is_ready _ = false

-- A document past the scan was scanned clean, and so was one that an extraction is queued for; one
-- that is ready has a draft; and one that is worked on is leased until a known time.
abbrev pub IsSoundWorld : World → Type 0
IsSoundWorld w =
    let d = w.document in
    (is_cleared d.status ≡ true → is_some d.scanned_clean_at ≡ true)
    × (is_empty w.jobs ≡ false → is_some d.scanned_clean_at ≡ true)
    × (is_ready d.status ≡ true → is_some d.current_draft_id ≡ true)
    × (is_working d.status ≡ true
        → (is_some d.processing_lease_token ≡ true)
          × (is_some d.processing_lease_expires_at ≡ true))

abbrev pub taking : Reading → ℕ
taking takes = 1
taking _ = 0

-- The calls under way that are about to take the lease.
abbrev pub takes_in : List Flight → ℕ
takes_in [] = 0
takes_in (f ∷ fs) = taking f.reading + takes_in fs

abbrev pub is_extraction : Service → Bool
is_extraction verification = false
is_extraction extraction = true

-- The call is not an extraction, or the document was scanned clean.
abbrev pub IsCleanFor : World → Flight → Type 0
IsCleanFor w f = is_extraction f.service ≡ true → is_some w.document.scanned_clean_at ≡ true

-- The world is sound. With one call of `acquireLease` at a time, no more attempts were counted than
-- are allowed; each further call that may be under way at once allows one more.
abbrev pub IsSound : ℕ → Limits → State → Type 0
IsSound workers limits s =
    IsSoundWorld s.world
    × (s.world.document.processing_attempt_count + takes_in s.flights
        < limits.max_attempts + workers)
    × (length s.flights ≤ workers)
    × All (IsCleanFor s.world) s.flights

-- After a write that counts `n` attempts at most, the world is sound, and as clean as before.
abbrev pub Keeps : ℕ → World → World → Type 0
Keeps n w v =
    IsSoundWorld v
    × (v.document.processing_attempt_count ≤ n + w.document.processing_attempt_count)
    × (is_some w.document.scanned_clean_at ≡ true → is_some v.document.scanned_clean_at ≡ true)

verify_scans-Keeps :
    (token : String) (w : World) → IsSoundWorld w → Keeps 0 w (Verification.transition token w).1
unfolding Verification.transition
verify_scans-Keeps token w h = (ground arith, ground arith, ground arith)

verify_completes-Keeps :
    (token : String) (now : ℕ) (queued : Bool) (w : World)
    → IsSoundWorld w
    → Keeps 0 w (queued_if_done queued (Verification.complete_clean token now w))
unfolding Verification.complete_clean
verify_completes-Keeps token now queued w h = (ground arith, ground arith, ground arith)

verify_fails-Keeps :
    (token : String) (now : ℕ) (e : ProcessingError) (w : World)
    → IsSoundWorld w
    → Keeps 0 w (Verification.handle_error token now e w)
unfolding Verification.handle_error
verify_fails-Keeps token now e w h = (ground arith, ground arith, ground arith)

verify_reclaims-Keeps :
    (now : ℕ) (w : World) → IsSoundWorld w → Keeps 0 w (Verification.reclaim_stalled now w)
unfolding Verification.reclaim_stalled
verify_reclaims-Keeps now w h = (ground arith, ground arith, ground arith)

extract_maps-Keeps :
    (token parser_version : String) (w : World)
    → IsSoundWorld w
    → Keeps 0 w (Extraction.transition token parser_version w).1
unfolding Extraction.transition
extract_maps-Keeps token parser_version w h = (ground arith, ground arith, ground arith)

extract_completes-Keeps :
    (token : String) (now : ℕ) (draft_id parser_version mapper_version : String)
    (artifact : Artifact) (w : World)
    → IsSoundWorld w
    → Keeps 0 w
        (Extraction.complete_ready token now draft_id parser_version mapper_version artifact w).1
unfolding Extraction.complete_ready
extract_completes-Keeps token now draft_id parser_version mapper_version artifact w h =
    (ground arith, ground arith, ground arith)

extract_fails-Keeps :
    (token : String) (now : ℕ) (e : ProcessingError) (w : World)
    → IsSoundWorld w
    → Keeps 0 w (Extraction.handle_error token now e w)
unfolding Extraction.handle_error
extract_fails-Keeps token now e w h = (ground arith, ground arith, ground arith)

extract_reclaims-Keeps :
    (now : ℕ) (w : World) → IsSoundWorld w → Keeps 0 w (Extraction.reclaim_stalled now w)
unfolding Extraction.reclaim_stalled
extract_reclaims-Keeps now w h = (ground arith, ground arith, ground arith)

reconciles-Keeps : (w : World) → IsSoundWorld w → Keeps 0 w (reconcile w)
unfolding reconcile
reconciles-Keeps w h = (ground arith, ground arith, ground arith)

retries-Keeps : (w : World) → IsSoundWorld w → Keeps 0 w (retry w)
unfolding retry
retries-Keeps w h = (ground arith, ground arith, ground arith)

pub act-Keeps : (a : Act) (w : World) → IsSoundWorld w → Keeps 0 w (act a w)
unfolding act
act-Keeps (verify_scans token) w h = verify_scans-Keeps token w h
act-Keeps (verify_completes token now queued) w h = verify_completes-Keeps token now queued w h
act-Keeps (verify_fails token now e) w h = verify_fails-Keeps token now e w h
act-Keeps (verify_reclaims now) w h = verify_reclaims-Keeps now w h
act-Keeps (extract_maps token parser_version) w h = extract_maps-Keeps token parser_version w h
act-Keeps (extract_completes token now draft_id parser_version mapper_version artifact) w h =
    extract_completes-Keeps token now draft_id parser_version mapper_version artifact w h
act-Keeps (extract_fails token now e) w h = extract_fails-Keeps token now e w h
act-Keeps (extract_reclaims now) w h = extract_reclaims-Keeps now w h
act-Keeps reconciles w h = reconciles-Keeps w h
act-Keeps retries w h = retries-Keeps w h

verify_writes-Keeps :
    (limits : Limits) (now : ℕ) (expected token : String) (stored : Bool) (r : Reading) (w : World)
    → IsSoundWorld w
    → Keeps (taking r) w (Verification.write_lease limits now expected token stored r w).1
unfolding Verification.write_lease
verify_writes-Keeps limits now expected token stored refuses w h = (h, ground arith, λ c. c)
verify_writes-Keeps limits now expected token stored gives_up w h =
    (ground arith, ground arith, ground arith)
verify_writes-Keeps limits now expected token stored takes w h =
    (ground arith, ground arith, ground arith)

extract_writes-Keeps :
    (limits : Limits) (now : ℕ) (sum token : String) (stored : Bool) (r : Reading) (w : World)
    → is_some w.document.scanned_clean_at ≡ true
    → IsSoundWorld w
    → Keeps (taking r) w (Extraction.write_lease limits now sum token stored r w).1
unfolding Extraction.write_lease
extract_writes-Keeps limits now sum token stored refuses w clean h = (h, ground arith, λ c. c)
extract_writes-Keeps limits now sum token stored gives_up w clean h =
    (ground arith, ground arith, ground arith)
extract_writes-Keeps limits now sum token stored takes w clean h =
    (ground arith, ground arith, ground arith)

written-service :
    (limits : Limits) (stored : Bool) (service : Service) (r : Reading) (now : ℕ)
    (expected token : String) (w : World)
    → (is_extraction service ≡ true → is_some w.document.scanned_clean_at ≡ true)
    → IsSoundWorld w
    → Keeps (taking r) w (
        written limits stored
          (record {
            service = service;
            reading = r;
            started_at = now;
            expected = expected;
            token = token;
          })
          w)
written-service limits stored verification r now expected token w clean h =
    verify_writes-Keeps limits now expected token stored r w h
written-service limits stored extraction r now expected token w clean h =
    extract_writes-Keeps limits now expected token stored r w (clean refl) h

pub written-Keeps :
    (limits : Limits) (stored : Bool) (f : Flight) (w : World)
    → IsCleanFor w f
    → IsSoundWorld w
    → Keeps (taking f.reading) w (written limits stored f w)
written-Keeps limits stored f w clean h =
    written-service limits stored f.service f.reading f.started_at f.expected f.token w clean h
