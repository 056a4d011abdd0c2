-- ===== src/Resume/Safety.antt =====
-- What holds of a resume whatever the workers do, and in whatever order.
use rolebrief.Common.{
  ℕ, zero, suc, ◌+◌, ◌≤◌, ◌<◌, Bool, true, false, Option, none, some, is_some, List, [], ◌∷◌,
  String, str_eq, any, length, ltb, is_empty, All, All-map_le, ◌≡◌, inl, inr, refl, arith,
  Bool-cases,
}
use mathlib.Core.Option
use rolebrief.Resume.Types.{uploaded, World, Limits, Reading, refuses, gives_up, takes}
use rolebrief.Resume.Verification
use rolebrief.Resume.Extraction
use rolebrief.Resume.Extraction.{reconcile}
use rolebrief.Resume.Steps.{
  Service, verification, extraction, Flight, State, Step, verify_reads, extract_reads, writes, dies,
  acts, act, written, under_way, reads, picked, write_picked, drop_picked, step, run,
}
use rolebrief.Resume.Sound.{
  taking, takes_in, is_extraction, IsCleanFor, IsSound, Keeps, act-Keeps, written-Keeps,
}

-- The calls under way are still clean after such a write.
kept_clean :
    (n : ℕ) (w v : World) (fs : List Flight)
    → Keeps n w v
    → All (IsCleanFor w) fs
    → All (IsCleanFor v) fs
kept_clean n w v fs k clean = All-map_le (IsCleanFor w) (IsCleanFor v) fs (λ f h e. k.2 (h e)) clean

-- What is picked, and what is left, of the calls under way.
abbrev IsPicked : World → List Flight → Option (Flight × List Flight) → Type 0
IsPicked w all none = Unit
IsPicked w all (some (f, fs)) =
    (takes_in all ≡ taking f.reading + takes_in fs)
    × (length all ≡ suc (length fs))
    × (IsCleanFor w f)
    × All (IsCleanFor w) fs

IsPicked-later :
    (w : World) (f : Flight) (fs : List Flight) (r : Option (Flight × List Flight))
    → IsCleanFor w f
    → IsPicked w fs r
    → IsPicked w (f ∷ fs) (Option.map (λ p. (p.0, f ∷ p.1)) r)
IsPicked-later w f fs none clean h = tt
IsPicked-later w f fs (some (g, gs)) clean (t, l, c, rest) =
    (omega (arith, t), omega (arith, l), c, (clean, rest))

picked-IsPicked :
    (n : ℕ) (w : World) (fs : List Flight) → All (IsCleanFor w) fs → IsPicked w fs (picked n fs)
picked-IsPicked n w [] h = tt
picked-IsPicked zero w (f ∷ fs) h = (refl, refl, h.0, h.1)
picked-IsPicked (suc n) w (f ∷ fs) h =
    IsPicked-later w f fs (picked n fs) h.0 (picked-IsPicked n w fs h.1)

module _ (workers : ℕ) (limits : Limits) where
  write_picked-IsSound :
      (stored : Bool) (s : State) (p : Option (Flight × List Flight))
      → IsPicked s.world s.flights p
      → IsSound workers limits s
      → IsSound workers limits (write_picked limits stored s p)
  write_picked-IsSound stored s none picks h = h
  write_picked-IsSound stored s (some (f, fs)) (t, l, c, rest) h =
      let k = written-Keeps limits stored f s.world c h.0 in
      (
        k.0,
        omega (arith, k.1, t, h.1),
        omega (arith, l, h.2),
        kept_clean (taking f.reading) s.world (written limits stored f s.world) fs k rest,
      )

  drop_picked-IsSound :
      (s : State) (p : Option (Flight × List Flight))
      → IsPicked s.world s.flights p
      → IsSound workers limits s
      → IsSound workers limits (drop_picked s p)
  drop_picked-IsSound s none picks h = h
  drop_picked-IsSound s (some (f, fs)) (t, l, c, rest) h =
      (h.0, omega (arith, t, h.1), omega (arith, l, h.2), rest)

  takes_in_le : (fs : List Flight) → takes_in fs ≤ length fs
  takes_in_le [] = omega arith
  takes_in_le (f ∷ fs) = ground (arith, takes_in_le fs)

  -- A reading that finds an attempt left.
  abbrev IsReading : Reading → World → Type 0
  IsReading r w = r ≡ takes → w.document.processing_attempt_count < limits.max_attempts

  verify-IsReading :
      (expected : String) (w : World) → IsReading (Verification.read_lease limits expected w) w
  unfolding Verification.read_lease
  verify-IsReading expected w e = ground arith

  extract-IsReading : (sum : String) (w : World) → IsReading (Extraction.read_lease limits sum w) w
  unfolding Extraction.read_lease
  extract-IsReading sum w e = ground arith

  under_way-IsSound :
      (s : State) (service : Service) (r : Reading) (now : ℕ) (expected token : String)
      → (is_extraction service ≡ true → is_some s.world.document.scanned_clean_at ≡ true)
      → IsReading r s.world
      → length s.flights < workers
      → IsSound workers limits s
      → IsSound workers limits (record s {
        flights =
            under_way
              (record {
                service = service;
                reading = r;
                started_at = now;
                expected = expected;
                token = token;
              })
              s.flights;
      })
  under_way-IsSound s service refuses now expected token clean left room h = h
  under_way-IsSound s service gives_up now expected token clean left room h =
      (h.0, omega (arith, h.1), omega (arith, room), (clean, h.3))
  under_way-IsSound s service takes now expected token clean left room h = (
    h.0,
    omega (arith, left refl, room, takes_in_le s.flights),
    omega (arith, room),
    (clean, h.3),
  )

  verify_reads-IsSound :
      (now : ℕ) (expected token : String) (s : State)
      → IsSound workers limits s
      → IsSound workers limits (reads workers limits verification now expected token s)
  verify_reads-IsSound now expected token s h = elim (Bool-cases (ltb (length s.flights) workers)) [
    | inr full ↦ rw full h
    | inl room ↦ rw room (
        under_way-IsSound s verification (Verification.read_lease limits expected s.world) now
          expected token (λ e. ground arith) (verify-IsReading expected s.world) (ground arith) h)
  ]

  extract_reads-IsSound :
      (now : ℕ) (sum token : String) (s : State)
      → is_some s.world.document.scanned_clean_at ≡ true
      → IsSound workers limits s
      → IsSound workers limits (reads workers limits extraction now sum token s)
  extract_reads-IsSound now sum token s clean h =
      elim (Bool-cases (ltb (length s.flights) workers)) [
        | inr full ↦ rw full h
        | inl room ↦ rw room (
            under_way-IsSound s extraction (Extraction.read_lease limits sum s.world) now sum token
              (λ e. clean) (extract-IsReading sum s.world) (ground arith) h)
      ]

  jobs_known : (p : String → Bool) (jobs : List String) → any p jobs ≡ true → is_empty jobs ≡ false
  jobs_known p jobs h = ground arith

  step-IsSound :
      (x : Step) (s : State)
      → IsSound workers limits s
      → IsSound workers limits (step workers limits x s)
  unfolding step
  step-IsSound (verify_reads now expected token) s h = verify_reads-IsSound now expected token s h
  step-IsSound (extract_reads now sum token) s h =
      elim (Bool-cases (any (str_eq sum) s.world.jobs)) [
        | inl held ↦
            rw held
              (extract_reads-IsSound now sum token s (h.0.1 (jobs_known _ s.world.jobs held)) h)
        | inr unknown ↦ rw unknown h
      ]
  step-IsSound (writes n stored) s h =
      write_picked-IsSound stored s (picked n s.flights) (picked-IsPicked n s.world s.flights h.3) h
  step-IsSound (dies n) s h =
      drop_picked-IsSound s (picked n s.flights) (picked-IsPicked n s.world s.flights h.3) h
  step-IsSound (acts a) s h =
      let k = act-Keeps a s.world h.0 in
      (k.0, omega (arith, k.1, h.1), h.2, kept_clean 0 s.world (act a s.world) s.flights k h.3)

  run_from-IsSound :
      (steps : List Step) (s : State)
      → IsSound workers limits s
      → IsSound workers limits (run workers limits steps s)
  unfolding run
  run_from-IsSound [] s h = h
  run_from-IsSound (x ∷ steps) s h =
      run_from-IsSound steps (step workers limits x s) (step-IsSound x s h)

-- A document as the upload leaves it, before any processing.
abbrev pub IsUploaded : State → Type 0
IsUploaded s =
    (s.world.document.status ≡ uploaded)
    × (s.world.jobs ≡ [])
    × (s.world.document.processing_attempt_count ≡ 0)
    × (s.flights ≡ [])

uploaded-IsSound :
    (workers : ℕ) (limits : Limits) (s : State)
    → 0 < workers
    → IsUploaded s
    → IsSound workers limits s
uploaded-IsSound workers limits s some_worker h = ground arith

-- From an uploaded document, whatever the workers do and in whatever order: a document that is
-- clean, extracted, mapped or ready was scanned clean before; extractions are only queued for such a
-- document; one that is ready has a draft; one that is worked on is leased until a known time; and
-- where at most n calls of `acquireLease` are under way at once, the attempts counted are at most
-- n - 1 more than allowed, so that one call at a time keeps to the limit.
pub run-IsSound :
    (workers : ℕ) (limits : Limits) (steps : List Step) (s : State)
    → 0 < workers
    → IsUploaded s
    → IsSound workers limits (run workers limits steps s)
run-IsSound workers limits steps s some_worker fresh =
    run_from-IsSound workers limits steps s (uploaded-IsSound workers limits s some_worker fresh)
