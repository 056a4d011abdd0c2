-- ===== src/Resume/Leases.antt =====
-- What a worker can do to a resume that it holds no lease for, and to one that is settled.
use rolebrief.Common.{
  ℕ, zero, suc, Bool, true, false, Option, none, some, is_some, List, [], ◌∷◌, String, str_eq, any,
  length, ltb, All, ◌≡◌, ◌⊎◌, inl, inr, refl, sym, ap, subst, ◌∙◌, arith, Bool-cases,
}
use mathlib.Core.Option
use rolebrief.Resume.Types.{
  rejected, World, Limits, Document, ProcessingError, Artifact, holds_token, Reading, refuses,
  gives_up, takes,
}
use rolebrief.Resume.Verification
use rolebrief.Resume.Extraction
use rolebrief.Resume.Extraction.{reconcile}
use rolebrief.Resume.Steps.{
  Service, verification, extraction, Flight, State, Act, verify_scans, verify_completes,
  verify_fails, verify_reclaims, extract_maps, extract_completes, extract_fails, extract_reclaims,
  reconciles, retries, Step, verify_reads, extract_reads, writes, dies, acts, queued_if_done, retry,
  act, written, reads, picked, write_picked, drop_picked, step, run,
}

-- The document was rejected or deleted.
abbrev pub IsClosed : Document → Type 0
IsClosed d = (d.status ≡ rejected) ⊎ (is_some d.deleted_at ≡ true)

verification_keeps_closed :
    (now : ℕ) (token : String) (queued : Bool) (e : ProcessingError) (w : World)
    → IsClosed w.document
    → (Verification.transition token w ≡ (false, w))
      × (Verification.complete_clean token now w ≡ (false, w))
      × ((Verification.handle_error token now e w).document ≡ w.document)
      × (Verification.reclaim_stalled now w ≡ w)
unfolding Verification.transition Verification.complete_clean Verification.handle_error
    Verification.reclaim_stalled
verification_keeps_closed now token queued e w h =
    (ground arith, ground arith, ground arith, ground arith)

abbrev no_artifact : Artifact
no_artifact = record { key = ""; sha256 = ""; byte_size = 0 }

extraction_keeps_closed :
    (now : ℕ) (token draft_id parser_version mapper_version : String) (artifact : Artifact)
    (e : ProcessingError) (w : World)
    → IsClosed w.document
    → (Extraction.transition token parser_version w ≡ (false, w))
      × (Extraction.complete_ready token now draft_id parser_version mapper_version artifact w
          ≡ (false, w))
      × ((Extraction.handle_error token now e w).document ≡ w.document)
      × (Extraction.reclaim_stalled now w ≡ w)
unfolding Extraction.transition Extraction.complete_ready Extraction.handle_error
    Extraction.reclaim_stalled
extraction_keeps_closed now token draft_id parser_version mapper_version artifact e w h =
    (ground arith, ground arith, ground arith, ground arith)

queueing_keeps :
    (w : World) → ((reconcile w).document ≡ w.document) × ((retry w).document ≡ w.document)
unfolding reconcile retry
queueing_keeps w = (ground arith, ground arith)

closed-act : (a : Act) (w : World) → IsClosed w.document → (act a w).document ≡ w.document
unfolding act
closed-act (verify_scans token) w h =
    ap (λ r. r.1.document) (verification_keeps_closed 0 token false ProcessingError.other w h).0
closed-act (verify_completes token now queued) w h =
    ap (λ r. (queued_if_done queued r).document)
      (verification_keeps_closed now token queued ProcessingError.other w h).1
closed-act (verify_fails token now e) w h = (verification_keeps_closed now token false e w h).2
closed-act (verify_reclaims now) w h =
    ap (λ v. v.document) (verification_keeps_closed now "" false ProcessingError.other w h).3
closed-act (extract_maps token parser_version) w h =
    ap (λ r. r.1.document)
      (extraction_keeps_closed 0 token "" parser_version "" no_artifact ProcessingError.other w h).0
closed-act (extract_completes token now draft_id parser_version mapper_version artifact) w h =
    ap (λ r. r.1.document)
      (extraction_keeps_closed now token draft_id parser_version mapper_version artifact
        ProcessingError.other w h).1
closed-act (extract_fails token now e) w h =
    (extraction_keeps_closed now token "" "" "" no_artifact e w h).2
closed-act (extract_reclaims now) w h =
    ap (λ v. v.document)
      (extraction_keeps_closed now "" "" "" "" no_artifact ProcessingError.other w h).3
closed-act reconciles w h = (queueing_keeps w).0
closed-act retries w h = (queueing_keeps w).1

-- No call of `acquireLease` reads such a document further, and one that meant to take its lease
-- writes nothing.
refused :
    (limits : Limits) (now : ℕ) (expected token : String) (stored : Bool) (w : World)
    → IsClosed w.document
    → ((Verification.read_lease limits expected w ≡ refuses)
        × (Extraction.read_lease limits expected w ≡ refuses))
      × (((Verification.write_lease limits now expected token stored takes w).1 ≡ w)
          × ((Extraction.write_lease limits now expected token stored takes w).1 ≡ w))
unfolding Verification.read_lease Extraction.read_lease Verification.write_lease
    Extraction.write_lease
refused limits now expected token stored w h =
    ((ground arith, ground arith), (ground arith, ground arith))

abbrev is_giving_up : Reading → Bool
is_giving_up gives_up = true
is_giving_up _ = false

-- The call did not find the attempts used up.
abbrev pub IsHarmless : Flight → Type 0
IsHarmless f = is_giving_up f.reading ≡ false

harmless_write :
    (limits : Limits) (stored : Bool) (service : Service) (r : Reading) (now : ℕ)
    (expected token : String) (w : World)
    → is_giving_up r ≡ false
    → IsClosed w.document
    → written limits stored
        (record {
          service = service;
          reading = r;
          started_at = now;
          expected = expected;
          token = token;
        })
        w
      ≡ w
unfolding Verification.write_lease Extraction.write_lease
harmless_write limits stored verification refuses now expected token w harmless h = refl
harmless_write limits stored extraction refuses now expected token w harmless h = refl
harmless_write limits stored service gives_up now expected token w harmless h = ground arith
harmless_write limits stored verification takes now expected token w harmless h =
    (refused limits now expected token stored w h).1.0
harmless_write limits stored extraction takes now expected token w harmless h =
    (refused limits now expected token stored w h).1.1

-- What is picked of harmless calls is harmless, and so is what is left.
abbrev IsPicked : Option (Flight × List Flight) → Type 0
IsPicked none = Unit
IsPicked (some (f, fs)) = IsHarmless f × All IsHarmless fs

IsPicked-later :
    (f : Flight) (r : Option (Flight × List Flight))
    → IsHarmless f
    → IsPicked r
    → IsPicked (Option.map (λ p. (p.0, f ∷ p.1)) r)
IsPicked-later f none harmless h = tt
IsPicked-later f (some (g, gs)) harmless (c, rest) = (c, (harmless, rest))

picked-IsPicked : (n : ℕ) (fs : List Flight) → All IsHarmless fs → IsPicked (picked n fs)
picked-IsPicked n [] h = tt
picked-IsPicked zero (f ∷ fs) h = h
picked-IsPicked (suc n) (f ∷ fs) h = IsPicked-later f (picked n fs) h.0 (picked-IsPicked n fs h.1)

-- A closed document is as it was, and no call under way found the attempts used up.
abbrev Stays : State → State → Type 0
Stays s t = (t.world.document ≡ s.world.document) × All IsHarmless t.flights

write_picked-Stays :
    (limits : Limits) (stored : Bool) (s : State) (p : Option (Flight × List Flight))
    → IsClosed s.world.document
    → All IsHarmless s.flights
    → IsPicked p
    → Stays s (write_picked limits stored s p)
write_picked-Stays limits stored s none h harmless picks = (refl, harmless)
write_picked-Stays limits stored s (some (f, fs)) h harmless picks = (
  ap (λ w. w.document)
      (harmless_write limits stored f.service f.reading f.started_at f.expected f.token s.world
        picks.0 h),
  picks.1,
)

drop_picked-Stays :
    (s : State) (p : Option (Flight × List Flight))
    → All IsHarmless s.flights
    → IsPicked p
    → Stays s (drop_picked s p)
drop_picked-Stays s none harmless picks = (refl, harmless)
drop_picked-Stays s (some (f, fs)) harmless picks = (refl, picks.1)

reads-Stays :
    (workers : ℕ) (limits : Limits) (service : Service) (now : ℕ) (expected token : String)
    (s : State)
    → IsClosed s.world.document
    → All IsHarmless s.flights
    → Stays s (reads workers limits service now expected token s)
reads-Stays workers limits verification now expected token s h harmless =
    let (r, _) = (refused limits now expected token false s.world h).0 in
    elim (Bool-cases (ltb (length s.flights) workers)) [
      | inr full ↦ rw full (refl, harmless)
      | inl room ↦ rw (room, r) (refl, harmless)
    ]
reads-Stays workers limits extraction now expected token s h harmless =
    let (_, r) = (refused limits now expected token false s.world h).0 in
    elim (Bool-cases (ltb (length s.flights) workers)) [
      | inr full ↦ rw full (refl, harmless)
      | inl room ↦ rw (room, r) (refl, harmless)
    ]

closed-step :
    (workers : ℕ) (limits : Limits) (x : Step) (s : State)
    → IsClosed s.world.document
    → All IsHarmless s.flights
    → Stays s (step workers limits x s)
unfolding step
closed-step workers limits (verify_reads now expected token) s h harmless =
    reads-Stays workers limits verification now expected token s h harmless
closed-step workers limits (extract_reads now sum token) s h harmless =
    elim (Bool-cases (any (str_eq sum) s.world.jobs)) [
      | inl held ↦ rw held (reads-Stays workers limits extraction now sum token s h harmless)
      | inr unknown ↦ rw unknown (refl, harmless)
    ]
closed-step workers limits (writes n stored) s h harmless =
    write_picked-Stays limits stored s (picked n s.flights) h harmless
      (picked-IsPicked n s.flights harmless)
closed-step workers limits (dies n) s h harmless =
    drop_picked-Stays s (picked n s.flights) harmless (picked-IsPicked n s.flights harmless)
closed-step workers limits (acts a) s h harmless = (closed-act a s.world h, harmless)

-- Once a document is rejected or deleted, no worker changes it any more, whatever they do and in
-- whatever order, as long as no call of `acquireLease` under way by then had found its attempts used
-- up.
pub closed-run :
    (workers : ℕ) (limits : Limits) (steps : List Step) (s : State)
    → IsClosed s.world.document
    → All IsHarmless s.flights
    → (run workers limits steps s).world.document ≡ s.world.document
unfolding run
closed-run workers limits [] s h harmless = refl
closed-run workers limits (x ∷ steps) s h harmless =
    let (same, harmless) = closed-step workers limits x s h harmless in
    closed-run workers limits steps (step workers limits x s) (subst IsClosed (sym same) h) harmless
    ∙ same

-- A worker whose token is not the document's moves it nowhere: both transitions and both
-- completions report that the row was not found and change nothing, and neither error handler
-- changes the document.
pub stale_worker :
    (token : String) (now : ℕ) (draft_id parser_version mapper_version : String)
    (artifact : Artifact) (e : ProcessingError) (w : World)
    → holds_token token w.document.processing_lease_token ≡ false
    → ((Verification.transition token w ≡ (false, w))
        × (Verification.complete_clean token now w ≡ (false, w))
        × ((Verification.handle_error token now e w).document ≡ w.document))
      × ((Extraction.transition token parser_version w ≡ (false, w))
          × (Extraction.complete_ready token now draft_id parser_version mapper_version artifact w
              ≡ (false, w))
          × ((Extraction.handle_error token now e w).document ≡ w.document))
unfolding Verification.transition Verification.complete_clean Verification.handle_error
    Extraction.transition Extraction.complete_ready Extraction.handle_error
stale_worker token now draft_id parser_version mapper_version artifact e w h =
    ((ground arith, ground arith, ground arith), (ground arith, ground arith, ground arith))
