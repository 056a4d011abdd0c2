-- ===== src/RateLimit/Laws.antt =====
-- How many requests the rate limits let pass
-- (backend/src/common/rate-limit/rate-limit.service.ts and
-- backend/src/modules/resumes/resume-rate-limit.service.ts).
use rolebrief.Common.{
  ℕ, suc, ◌+◌, ◌≤◌, max, true, false, Option, none, List, [], ◌∷◌, All, String, ◌&&◌, if◌then◌else◌,
  ◌≡◌, ◌≢◌, refl, sym, inl, inr, arith, Bool-cases, str_eq, str_eq_iff,
}
use rolebrief.RateLimit.Counting.{IsRedis, IsCount, IsWithin, consume-other, consume-same}
use rolebrief.RateLimit.{Redis, ConsumeOptions, is_allowed, redis_key, consume}

module _ {S : Type 0} (redis : Redis S) (sha256 to_lower : String → String)
    (seen : S → String → Option (ℕ × Option ℕ)) (key : String) (limit until : ℕ) where
  -- How many of some requests of the key are let through, one after the other, with requests of other
  -- keys between them.
  abbrev pub admitted : List (ℕ × ConsumeOptions) → S → ℕ
  admitted [] s = 0
  admitted ((now, o) ∷ rest) s =
      let (out, s') = consume redis sha256 to_lower true now o s in
      (if str_eq (redis_key redis sha256 to_lower o) key && is_allowed out then 1 else 0)
      + admitted rest s'

  admitted_from :
      (requests : List (ℕ × ConsumeOptions)) (m : ℕ) (s : S)
      → IsRedis redis seen
      → All (λ r. IsWithin redis sha256 to_lower seen key limit until r.0 r.1) requests
      → IsCount redis sha256 to_lower seen key limit until m s
      → admitted requests s + m ≤ max limit m
  admitted_from [] m s r h c = omega arith
  admitted_from ((now, o) ∷ rest) m s r h c =
      elim (Bool-cases (str_eq (redis_key redis sha256 to_lower o) key)) [
        | inr other ↦ rw other (
            omega (
              arith,
              admitted_from rest m _ r h.1 (
                  consume-other redis sha256 to_lower seen key limit until now m o s r
                    (differs _ _ other) c),
            ))
        | inl same ↦
            elim (consume-same redis sha256 to_lower seen key limit until now m o s r
              ((str_eq_iff _ _).0 same) h.0 c) [
                | inl (passed, room, c') ↦
                    rw same (rw passed (omega (arith, admitted_from rest (suc m) _ r h.1 c')))
                | inr (inl (refused, c')) ↦
                    rw same (rw refused (omega (arith, admitted_from rest m _ r h.1 c')))
                | inr (inr (refused, full, c')) ↦
                    rw same (rw refused (omega (arith, admitted_from rest (suc m) _ r h.1 c')))
              ]
      ]
    where
      differs : (a b : String) → str_eq a b ≡ false → b ≢ a
      differs a b h e = ground (arith, (str_eq_iff a b).1 (sym e))

  -- At most `limit` requests of a key are let through in a window that starts without a counter of the
  -- key, whatever requests of other keys come between them, and whether Redis answers or not, if the
  -- service is configured to refuse in an outage. The requests of the key ask for the same limit, and
  -- for windows that reach the end of the period they are counted in.
  pub admitted-limit :
      (requests : List (ℕ × ConsumeOptions)) (s : S)
      → IsRedis redis seen
      → All (λ r. IsWithin redis sha256 to_lower seen key limit until r.0 r.1) requests
      → seen s key ≡ none
      → admitted requests s ≤ limit
  admitted-limit requests s r h missing =
      omega (arith, admitted_from requests 0 s r h (inl (refl, missing)))
