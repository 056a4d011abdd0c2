-- ===== src/RateLimit/Tests.antt =====
-- Rate limits with counters that are kept in a function.
use rolebrief.Common.{
  ℕ, suc, ◌+◌, ◌-◌, ◌≤◌, true, false, Option, none, some, some-injective, List, [], ◌∷◌, String,
  ltb, lt→ltb, if◌then◌else◌, ◌≡◌, ◌≢◌, refl, ap, sym, ◌∙◌, arith, trim, str_eq, str_eq_iff,
  str_eq_refl, Bool-cases, inl, inr,
}
use rolebrief.RateLimit.{
  Redis, ConsumeOptions, redis_key, resume_key, consume, consume_resume, consume_auth, auth_key,
}
use rolebrief.RateLimit.Counting.{IsRedis}
use rolebrief.RateLimit.Laws.{admitted, admitted-limit}

abbrev Counters : Type 0
Counters = String → Option (ℕ × Option ℕ)

abbrev incremented : ℕ → Option (ℕ × Option ℕ) → ℕ × Option ℕ
incremented now none = (1, none)
incremented now (some (m, none)) = (suc m, none)
incremented now (some (m, some d)) = if ltb now d then (suc m, some d) else (1, none)

abbrev put : String → Option (ℕ × Option ℕ) → Counters → Counters
put k o s j = if str_eq j k then o else s j

abbrev with_deadline : ℕ → Option (ℕ × Option ℕ) → Option (ℕ × Option ℕ)
with_deadline d none = none
with_deadline d (some c) = some (c.0, some d)

abbrev left_of : ℕ → Option (ℕ × Option ℕ) → ℕ
left_of now (some (m, some d)) = d - now
left_of now _ = 0

abbrev counters : Redis Counters
counters = record {
  incr = λ now k s. let c = incremented now (s k) in some (c.0, put k (some c) s);
  expire = λ now k time s. put k (with_deadline (now + time) (s k)) s;
  ttl = λ now k s. some (left_of now (s k));
}

abbrev look : Counters → String → Option (ℕ × Option ℕ)
look s k = s k

put_same : (k : String) (o : Option (ℕ × Option ℕ)) (s : Counters) → put k o s k ≡ o
put_same k o s = rw (str_eq_refl k) refl

put_other : (j k : String) (o : Option (ℕ × Option ℕ)) (s : Counters) → j ≢ k → put k o s j ≡ s j
put_other j k o s apart = elim (Bool-cases (str_eq j k)) [
  | inl same ↦ elim (apart ((str_eq_iff j k).0 same)) [ ]
  | inr other ↦ rw other refl
]

incr_gives :
    (now : ℕ) (k : String) (s s' : Counters) (n : ℕ) (c : ℕ × Option ℕ)
    → incremented now (s k) ≡ c
    → counters.incr now k s ≡ some (n, s')
    → (n ≡ c.0) × (look s' k ≡ some c)
incr_gives now k s s' n c is e =
    let done = some-injective _ _ e in
    (
      ap (λ (t : ℕ × Counters). t.0) (sym done) ∙ ap (λ (t : ℕ × Option ℕ). t.0) is,
      ap (λ (t : ℕ × Counters). t.1 k) (sym done) ∙ put_same k _ s ∙ ap some is,
    )

counters-IsRedis : IsRedis counters look
counters-IsRedis = record {
  incr_new =
      λ now k s s' n missing e. incr_gives now k s s' n (1, none) (ap (incremented now) missing) e;
  incr_live = λ now k s s' n m d live early e.
      incr_gives now k s s' n (suc m, some d)
        (ap (incremented now) live
          ∙ ap (λ b. if b then (suc m, some d) else (1, none)) (lt→ltb now d early))
        e;
  incr_other = λ now j k s s' n apart e.
      ap (λ (t : ℕ × Counters). t.1 j) (sym (some-injective _ _ e)) ∙ put_other j k _ s apart;
  expire_same = λ now k time m d s e. put_same k _ s ∙ ap (with_deadline (now + time)) e;
  expire_other = λ now j k time s apart. put_other j k _ s apart;
}

abbrev same_text : String → String
same_text s = s

abbrev two_a_minute : ConsumeOptions
two_a_minute = record { namespace = "login"; subject = "a@b.c"; limit = 2; window_seconds = 60 }

abbrev key : String
key = redis_key counters same_text same_text two_a_minute

abbrev three_requests : List (ℕ × ConsumeOptions)
three_requests = (0, two_a_minute) ∷ (1000, two_a_minute) ∷ (59999, two_a_minute) ∷ []

abbrev no_counters : Counters
no_counters k = none

admitted-limit_example :
    admitted counters same_text same_text look key 2 60000 three_requests no_counters ≤ 2
admitted-limit_example =
    admitted-limit counters same_text same_text look key 2 60000 three_requests no_counters
      counters-IsRedis
      (
        (omega arith, λ e. (omega arith, refl)),
        ((omega arith, λ e. (omega arith, refl)), ((omega arith, λ e. (omega arith, refl)), tt)),
      )
      refl

-- Two of the three are let through.
admitted_test :
    admitted counters same_text same_text look key 2 60000 three_requests no_counters ≡ 2
unfolding consume redis_key trim
admitted_test = refl

consume_resume_test :
    (consume_resume counters same_text same_text 0 two_a_minute no_counters).0 ≡ true
unfolding consume_resume resume_key
consume_resume_test = refl

-- The third request of a minute is refused.
consume_auth_test :
    let first = consume_auth counters same_text same_text 0 two_a_minute no_counters in
    let second = consume_auth counters same_text same_text 1 two_a_minute first.1 in
    (second.0 ≡ true)
    × ((consume_auth counters same_text same_text 2 two_a_minute second.1).0 ≡ false)
unfolding consume_auth auth_key trim
consume_auth_test = (refl, refl)
