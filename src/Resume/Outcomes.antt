-- ===== src/Resume/Outcomes.antt =====
-- What a run of the verification or of the extraction that nothing interrupts comes to.
use rolebrief.Common.{
  ℕ, suc, Bool, true, false, Option, none, some, String, str_eq_refl, if◌then◌else◌, ◌<◌, ◌≡◌, ◌≢◌,
  ◌⊎◌, ◌↔◌, inl, inr, refl, arith, str_eq_iff, Option-cases,
}
use mathlib.Core.Option
use rolebrief.Resume.Types.{
  uploaded, verifying, scanning, verified_clean, rejected, failed, Document, World, Limits,
  ProcessingError, permanent, Call, returns, throws, Head,
}
use rolebrief.Resume.Verification
use rolebrief.Resume.Verification.{is_permanent, classify, leased, taken}
use rolebrief.Resume.Verification.Run
use rolebrief.Resume.Verification.Run.{
  VerifyAnswers, VerifyResult, verified, before_scan, during_scan, same_sum, check_head, finished,
  scanned, attempted,
}

-- An uploaded document that nobody holds, with an attempt left.
abbrev pub IsWaiting : Limits → Document → Type 0
IsWaiting limits d =
    (d.status ≡ uploaded)
    × (d.deleted_at ≡ none)
    × (d.processing_lease_expires_at ≡ none)
    × (d.processing_attempt_count < limits.max_attempts)

-- The first error of the checks and calls, if there is one.
abbrev pub first_error : (String → String) → VerifyAnswers → Document → Option ProcessingError
first_error to_lower answers d = elim (before_scan to_lower answers d) [
  | some e ↦ some e
  | none ↦ during_scan answers
]

-- The result and the document that such a first error leads to.
abbrev pub Concludes : ℕ → Option ProcessingError → VerifyResult × World → Type 0
Concludes now none (result, w) =
    (result ≡ verified)
    × (w.document.status ≡ verified_clean)
    × (w.document.scanned_clean_at ≡ some now)
    × (w.document.failure_code ≡ none)
Concludes now (some e) (result, w) =
    (result ≢ verified)
    × (w.document.status ≡ (if is_permanent e then rejected else failed))
    × (w.document.failure_code ≡ some (classify e))

acquires :
    (limits : Limits) (now : ℕ) (token : String) (stored : Bool) (w : World)
    → IsWaiting limits w.document
    → Verification.acquire_lease limits now w.document.sha256 token stored w
      ≡ taken stored now (leased limits.lease_seconds now token w.document) w
unfolding Verification.acquire_lease Verification.read_lease Verification.write_lease
acquires limits now token stored w waiting = ground (arith, str_eq_refl w.document.sha256)

-- An error ends a run that holds the lease.
fails-Concludes :
    (queued : Bool) (token : String) (now : ℕ) (d : Document) (e : ProcessingError) (w : World)
    → (w.document.status ≡ verifying) ⊎ (w.document.status ≡ scanning)
    → w.document.processing_lease_token ≡ some token
    → w.document.deleted_at ≡ none
    → let r = finished queued token now d (some e, w) in
      (r.1.document.processing_lease_token ≡ none)
      × (r.1.document.processing_attempt_count ≡ w.document.processing_attempt_count)
      × Concludes now (some e) r
unfolding Verification.handle_error
fails-Concludes queued token now d (permanent code) w working held kept =
    ground (arith, str_eq_refl token)
fails-Concludes queued token now d e w working held kept = ground (arith, str_eq_refl token)

scans :
    (token : String) (w : World)
    → w.document.status ≡ verifying
    → w.document.processing_lease_token ≡ some token
    → w.document.deleted_at ≡ none
    → Verification.transition token w
      ≡ (true, record w { document = record w.document { status = scanning } })
unfolding Verification.transition
scans token w working held kept = ground (arith, str_eq_refl token)

scanned-Concludes :
    (answers : VerifyAnswers) (now : ℕ) (token : String) (queued : Bool) (d : Document) (w : World)
    → w.document.status ≡ scanning
    → w.document.processing_lease_token ≡ some token
    → w.document.deleted_at ≡ none
    → let r = finished queued token now d (scanned answers token now (true, w)) in
      (r.1.document.processing_lease_token ≡ none)
      × (r.1.document.processing_attempt_count ≡ w.document.processing_attempt_count)
      × Concludes now (during_scan answers) r
unfolding Verification.complete_clean
scanned-Concludes answers now token queued d w working held kept =
    elim (Option-cases (during_scan answers)) [
      | inr (e, late) ↦
          rw (late, scanned) (fails-Concludes queued token now d e w (inr working) held kept)
      | inl fine ↦ ground (arith, str_eq_refl token)
    ]

-- The rest of a run, once the lease is got.
leased-Concludes :
    (to_lower : String → String) (answers : VerifyAnswers) (now : ℕ) (token : String)
    (queued : Bool) (d : Document) (w : World)
    → w.document.status ≡ verifying
    → w.document.processing_lease_token ≡ some token
    → w.document.deleted_at ≡ none
    → let r = finished queued token now d (attempted to_lower answers token now d w) in
      (r.1.document.processing_lease_token ≡ none)
      × (r.1.document.processing_attempt_count ≡ w.document.processing_attempt_count)
      × Concludes now (first_error to_lower answers d) r
leased-Concludes to_lower answers now token queued d w working held kept =
    elim (Option-cases (before_scan to_lower answers d)) [
      | inr (e, early) ↦
          rw (early, attempted, first_error)
            (fails-Concludes queued token now d e w (inl working) held kept)
      | inl fine ↦
          rw (fine, attempted, first_error, scans token w working held kept)
            (scanned-Concludes answers now token queued d
              (record w { document = record w.document { status = scanning } }) refl held kept)
    ]

-- The verification of a waiting document ends with its lease released and one attempt counted. If no
-- check or call fails, it is clean and no failure is kept; otherwise it is rejected where the first
-- error is permanent, failed where it is not, and keeps that error's code.
pub process-Concludes :
    (to_lower : String → String) (limits : Limits) (answers : VerifyAnswers) (now : ℕ)
    (token : String) (stored queued : Bool) (w : World)
    → IsWaiting limits w.document
    → let r = Run.process to_lower limits answers now w.document.sha256 token stored queued w in
      (r.1.document.processing_lease_token ≡ none)
      × (r.1.document.processing_attempt_count ≡ suc w.document.processing_attempt_count)
      × Concludes now (first_error to_lower answers w.document) r
unfolding Run.process
process-Concludes to_lower limits answers now token stored queued w waiting =
    rw (acquires limits now token stored w waiting) (
      let locked = leased limits.lease_seconds now token w.document in
      leased-Concludes to_lower answers now token queued locked (taken stored now locked w).1 refl
        refl waiting.1)

-- The call returns.
abbrev pub is_returned {ℓ} : {A : Type ℓ} → Call A → Bool
is_returned (returns a) = true
is_returned (throws e) = false

-- The file is stored with the declared size and the declared checksum, which is not empty.
abbrev pub IsStored : (String → String) → Document → Call Head → Type 0
IsStored to_lower d (throws e) = false ≡ true
IsStored to_lower d (returns head) =
    (head.exists ≡ true)
    × (head.content_length ≡ d.byte_size)
    × (Option.map to_lower head.sha256 ≡ some d.sha256)
    × (head.sha256 ≢ some "")

same_sum_iff :
    (to_lower : String → String) (sum : Option String) (expected : String)
    → (same_sum to_lower sum expected ≡ true)
      ↔ ((Option.map to_lower sum ≡ some expected) × (sum ≢ some ""))
same_sum_iff to_lower none expected = ground arith
same_sum_iff to_lower (some sum) expected =
    ground (arith, str_eq_iff (to_lower sum) expected, str_eq_iff sum "")

check_head-none_iff :
    (to_lower : String → String) (d : Document) (head : Head)
    → (check_head to_lower head d ≡ none) ↔ IsStored to_lower d (returns head)
check_head-none_iff to_lower d head = ground (arith, same_sum_iff to_lower head.sha256 d.sha256)

-- What is to be shown, by what the storage answers.
IsStored-first :
    (to_lower : String → String) (d : Document) (head : Call Head) (answers : VerifyAnswers)
    → answers.head ≡ head
    → (before_scan to_lower answers d ≡ none)
      ↔ (IsStored to_lower d head × (is_returned answers.bytes ≡ true))
IsStored-first to_lower d (throws e) answers same = ground arith
IsStored-first to_lower d (returns head) answers same =
    ground (arith, check_head-none_iff to_lower d head)

before_scan-none_iff :
    (to_lower : String → String) (answers : VerifyAnswers) (d : Document)
    → (before_scan to_lower answers d ≡ none)
      ↔ (IsStored to_lower d answers.head × (is_returned answers.bytes ≡ true))
before_scan-none_iff to_lower answers d = IsStored-first to_lower d answers.head answers refl

during_scan-none_iff :
    (answers : VerifyAnswers)
    → (during_scan answers ≡ none)
      ↔ ((is_returned answers.valid ≡ true) × (answers.infected ≡ returns false))
during_scan-none_iff answers = ground arith

first_error-none_iff :
    (to_lower : String → String) (answers : VerifyAnswers) (d : Document)
    → (first_error to_lower answers d ≡ none)
      ↔ ((before_scan to_lower answers d ≡ none) × (during_scan answers ≡ none))
first_error-none_iff to_lower answers d = ground arith

verified_iff :
    (now : ℕ) (e : Option ProcessingError) (result : VerifyResult) (w : World)
    → Concludes now e (result, w)
    → ((result ≡ verified) ↔ (e ≡ none)) × ((w.document.status ≡ verified_clean) ↔ (e ≡ none))
verified_iff now e result w h = ground arith

-- A waiting document is verified, and is clean afterwards, exactly when the file is stored with the
-- declared size and the declared checksum, which is not empty, its bytes are read, the validator
-- accepts it, and the scanner answers that it is not infected.
pub process-verified_iff :
    (to_lower : String → String) (limits : Limits) (answers : VerifyAnswers) (now : ℕ)
    (token : String) (stored queued : Bool) (w : World)
    → IsWaiting limits w.document
    → let r = Run.process to_lower limits answers now w.document.sha256 token stored queued w in
      let Passes : Type 0 =
        (IsStored to_lower w.document answers.head × (is_returned answers.bytes ≡ true))
        × ((is_returned answers.valid ≡ true) × (answers.infected ≡ returns false)) in
      ((r.0 ≡ verified) ↔ Passes) × ((r.1.document.status ≡ verified_clean) ↔ Passes)
process-verified_iff to_lower limits answers now token stored queued w waiting =
    let (_, _, c) = process-Concludes to_lower limits answers now token stored queued w waiting in
    let v = verified_iff now (first_error to_lower answers w.document) _ _ c in
    let f = first_error-none_iff to_lower answers w.document in
    let b = before_scan-none_iff to_lower answers w.document in
    let s = during_scan-none_iff answers in
    (
      ((λ h. let (x, y) = f.0 (v.0.0 h) in (b.0 x, s.0 y)), λ h. v.0.1 (f.1 (b.1 h.0, s.1 h.1))),
      ((λ h. let (x, y) = f.0 (v.1.0 h) in (b.0 x, s.0 y)), λ h. v.1.1 (f.1 (b.1 h.0, s.1 h.1))),
    )
