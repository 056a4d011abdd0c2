-- ===== src/RateLimit.antt =====
-- backend/src/common/rate-limit/rate-limit.service.ts,
-- backend/src/modules/resumes/resume-rate-limit.service.ts and
-- backend/src/auth/rate-limit.service.ts: admission by a counter in Redis. Redis is
-- a parameter, as are SHA-256 and `toLowerCase`; a command that throws has no answer.
use Prim.Native.String.{◌++◌}
use rolebrief.Common.{
  ℕ, ◌-◌, ◌*◌, max, Bool, true, false, Option, none, some, String, trim, ltb, ◌==◌, if◌then◌else◌,
}
pub mod Counting
pub mod Laws
mod Tests

-- The commands that the services send, at an instant in milliseconds.
pub record Redis (S : Type 0) : Type 0 where
  pub incr : ℕ → String → S → Option (ℕ × S)
  pub expire : ℕ → String → ℕ → S → S
  pub ttl : ℕ → String → S → Option ℕ

pub record ConsumeOptions : Type 0 where
  pub namespace : String
  pub subject : String
  pub limit : ℕ
  pub window_seconds : ℕ

pub record ConsumeResult : Type 0 where
  pub count : ℕ
  pub limit : ℕ
  pub remaining : ℕ
  pub retry_after_seconds : ℕ

pub data Outcome : Type 0 where
  allowed : ConsumeResult → Outcome
  too_many_requests : ℕ → Outcome
  unavailable : Outcome

abbrev pub is_allowed : Outcome → Bool
is_allowed (allowed r) = true
is_allowed _ = false

module _ {S : Type 0} (redis : Redis S) (sha256 to_lower : String → String) where
  -- The Lua script: `INCR`, and `EXPIRE` for the first of a window.
  abbrev pub count_request : ℕ → String → ℕ → S → Option (ℕ × S)
  count_request now key window_seconds s = elim (redis.incr now key s) [
    | none ↦ none
    | some (current, s') ↦
        some (current, if current == 1 then redis.expire now key (window_seconds * 1000) s' else s')
  ]

  -- The policy of an outage: refuse if configured so, else let everything pass.
  abbrev pub on_failure : Bool → ConsumeOptions → Outcome
  on_failure fail_closed o =
      if fail_closed
      then unavailable
      else allowed
          (record { count = 0; limit = o.limit; remaining = o.limit; retry_after_seconds = 0 })

  unfoldable pub redis_key : ConsumeOptions → String
  redis_key o = "rl:" ++ (o.namespace ++ (":" ++ sha256 (to_lower (trim o.subject))))

  -- `consume` of `RateLimitService`.
  unfoldable pub consume : Bool → ℕ → ConsumeOptions → S → Outcome × S
  consume fail_closed now o s = elim (count_request now (redis_key o) o.window_seconds s) [
    | none ↦ (on_failure fail_closed o, s)
    | some (count, s') ↦
        if ltb o.limit count
        then (elim (redis.ttl now (redis_key o) s') [
          | none ↦ (on_failure fail_closed o, s')
          | some ttl ↦ (too_many_requests (max ttl 1), s')
        ])
        else (
          allowed (record {
            count = count;
            limit = o.limit;
            remaining = o.limit - count;
            retry_after_seconds = 0;
          }),
          s',
        )
  ]

  -- A limiter that refuses in every outage; `true` where it returns.
  abbrev pub passes : ℕ → String → ConsumeOptions → S → Bool × S
  passes now key o s = elim (count_request now key o.window_seconds s) [
    | none ↦ (false, s)
    | some (count, s') ↦ (if ltb o.limit count then false else true, s')
  ]

  unfoldable pub resume_key : ConsumeOptions → String
  resume_key o = "rl:resumes:" ++ (o.namespace ++ (":" ++ sha256 o.subject))

  -- `consume` of `ResumeRateLimitService`.
  unfoldable pub consume_resume : ℕ → ConsumeOptions → S → Bool × S
  consume_resume now o s = passes now (resume_key o) o s

  unfoldable pub auth_key : ConsumeOptions → String
  auth_key o = "auth:rate:" ++ (o.namespace ++ (":" ++ sha256 (to_lower (trim o.subject))))

  -- `consume` of `AuthRateLimitService`, where no failure comes between its two commands.
  unfoldable pub consume_auth : ℕ → ConsumeOptions → S → Bool × S
  consume_auth now o s = passes now (auth_key o) o s
