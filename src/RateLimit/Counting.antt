-- ===== src/RateLimit/Counting.antt =====
-- What one request does to the counter of a key
-- (backend/src/common/rate-limit/rate-limit.service.ts).
use rolebrief.Common.{
  ℕ, suc, ◌+◌, ◌*◌, ◌≤◌, ◌<◌, Bool, true, false, not, Option, none, some, some-injective, String,
  ◌==◌, ltb, ltb→lt, if◌then◌else◌, ◌≡◌, ◌≢◌, refl, ap, sym, subst, ◌∙◌, ◌⊎◌, inl, inr, arith,
  Bool-cases, Option-cases,
}
use rolebrief.RateLimit.{Redis, ConsumeOptions, is_allowed, count_request, redis_key, consume}

-- What the documentation of Redis promises of a counter and its deadline: `INCR` makes one without a
-- deadline or raises one that is not over, `EXPIRE` sets the deadline, and other keys keep theirs.
pub record IsRedis {S : Type 0} (redis : Redis S) (seen : S → String → Option (ℕ × Option ℕ))
    : Type 0 where
  pub incr_new :
      (now : ℕ) (k : String) (s s' : S) (n : ℕ)
      → seen s k ≡ none
      → redis.incr now k s ≡ some (n, s')
      → (n ≡ 1) × (seen s' k ≡ some (1, none))
  pub incr_live :
      (now : ℕ) (k : String) (s s' : S) (n m deadline : ℕ)
      → seen s k ≡ some (m, some deadline)
      → now < deadline
      → redis.incr now k s ≡ some (n, s')
      → (n ≡ suc m) × (seen s' k ≡ some (suc m, some deadline))
  pub incr_other :
      (now : ℕ) (j k : String) (s s' : S) (n : ℕ)
      → j ≢ k
      → redis.incr now k s ≡ some (n, s')
      → seen s' j ≡ seen s j
  pub expire_same :
      (now : ℕ) (k : String) (time m : ℕ) (d : Option ℕ) (s : S)
      → seen s k ≡ some (m, d)
      → seen (redis.expire now k time s) k ≡ some (m, some (now + time))
  pub expire_other :
      (now : ℕ) (j k : String) (time : ℕ) (s : S)
      → j ≢ k
      → seen (redis.expire now k time s) j ≡ seen s j

module _ {S : Type 0} (redis : Redis S) (sha256 to_lower : String → String)
    (seen : S → String → Option (ℕ × Option ℕ)) (key : String) (limit until : ℕ) where
  -- The counter of the key: none, or one of `m` requests that outlives the period.
  abbrev pub IsCount : ℕ → S → Type 0
  IsCount m s =
      ((m ≡ 0) × (seen s key ≡ none))
      ⊎ ((deadline : ℕ) × (until ≤ deadline) × (1 ≤ m) × (seen s key ≡ some (m, some deadline)))

  count_request-some :
      (k : String) (w now n : ℕ) (s s' : S)
      → count_request redis sha256 to_lower now k w s ≡ some (n, s')
      → (s0 : S) × (redis.incr now k s ≡ some (n, s0))
        × ((if n == 1 then redis.expire now k (w * 1000) s0 else s0) ≡ s')
  count_request-some k w now n s s' e = elim (Option-cases (redis.incr now k s)) [
    | inl down ↦ cc (rw (down, count_request) at e)
    | inr ((n0, s0), up) ↦
        let done = some-injective _ _ (rw (up, count_request) at e) in
        let same : n0 ≡ n = ap (λ (t : ℕ × S). t.0) done in
        (
          s0,
          up ∙ ap (λ i. some (i, s0)) same,
          ap (λ i. if i == 1 then redis.expire now k (w * 1000) s0 else s0) (sym same)
              ∙ ap (λ (t : ℕ × S). t.1) done,
        )
  ]

  not_first : (n m : ℕ) → n ≡ suc m → 1 ≤ m → (n == 1) ≡ false
  not_first n m e h = ground arith

  -- A request of the key raises its counter; the deadline of a new one is after the period.
  count_request-same :
      (window now m n : ℕ) (s s' : S)
      → IsRedis redis seen
      → now < until
      → until ≤ now + window * 1000
      → IsCount m s
      → count_request redis sha256 to_lower now key window s ≡ some (n, s')
      → (n ≡ suc m) × IsCount (suc m) s'
  count_request-same window now m n s s' r early late (inl (fresh, missing)) e =
      let (s0, up, after) = count_request-some key window now n s s' e in
      let (first, made) = r.incr_new now key s s0 n missing up in
      let set : seen s' key ≡ some (1, some (now + window * 1000)) =
        subst (λ t. seen t key ≡ some (1, some (now + window * 1000)))
          (sym (ap (λ i. if i == 1 then redis.expire now key (window * 1000) s0 else s0) first)
            ∙ after)
          (r.expire_same now key (window * 1000) 1 none s0 made) in
      (
        omega (arith, first, fresh),
        inr (
          now + window * 1000,
          late,
          omega arith,
          set ∙ ap (λ i. some (suc i, some (now + window * 1000))) (sym fresh),
        ),
      )
  count_request-same window now m n s s' r early late (inr (deadline, after, some_seen, live)) e =
      let (s0, up, same) = count_request-some key window now n s s' e in
      let (next, kept) = r.incr_live now key s s0 n m deadline live (omega arith) up in
      let unset : s0 ≡ s' =
        ap (λ i. if i then redis.expire now key (window * 1000) s0 else s0)
          (sym (not_first n m next some_seen))
        ∙ same in
      (
        next,
        inr (
          deadline,
          after,
          omega arith,
          subst (λ t. seen t key ≡ some (suc m, some deadline)) unset kept,
        ),
      )

  count_request-other :
      (k : String) (window now n : ℕ) (s s' : S)
      → IsRedis redis seen
      → key ≢ k
      → count_request redis sha256 to_lower now k window s ≡ some (n, s')
      → seen s' key ≡ seen s key
  count_request-other k window now n s s' r apart e =
      let (s0, up, same) = count_request-some k window now n s s' e in
      ap (λ t. seen t key) (sym same)
      ∙ set_or_not (n == 1) k (window * 1000) now s0 r apart
      ∙ r.incr_other now key k s s0 n apart up
    where
      set_or_not :
          (b : Bool) (k : String) (w now : ℕ) (s0 : S)
          → IsRedis redis seen
          → key ≢ k
          → seen (if b then redis.expire now k w s0 else s0) key ≡ seen s0 key
      set_or_not true k w now s0 r apart = r.expire_other now key k w s0 apart
      set_or_not false k w now s0 r apart = refl

  -- A request that Redis does not count changes nothing; one that it counts passes within the limit.
  consume-cases :
      (now : ℕ) (o : ConsumeOptions) (s : S)
      → let counted =
          count_request redis sha256 to_lower now
            (redis_key redis sha256 to_lower o)
            o.window_seconds
            s in
        let (out, s') = consume redis sha256 to_lower true now o s in
        ((counted ≡ none) × (is_allowed out ≡ false) × (s' ≡ s))
        ⊎ ((n : ℕ) × (counted ≡ some (n, s')) × (is_allowed out ≡ not (ltb o.limit n)))
  unfolding consume
  consume-cases now o s =
      elim (Option-cases (
        count_request redis sha256 to_lower now (redis_key redis sha256 to_lower o) o.window_seconds
          s)) [
            | inl down ↦ rw (down, consume) (inl (refl, refl, refl))
            | inr ((n, s'), up) ↦ elim (Bool-cases (ltb o.limit n)) [
              | inr within ↦ rw (up, consume, within) (inr (n, refl, ap not (sym within)))
              | inl over ↦
                  elim (Option-cases (redis.ttl now (redis_key redis sha256 to_lower o) s')) [
                    | inl gone ↦ rw (up, consume, over, gone) (inr (n, refl, ap not (sym over)))
                    | inr (t, left) ↦
                        rw (up, consume, over, left) (inr (n, refl, ap not (sym over)))
                  ]
            ]
          ]

  -- A request as the period counts it: before its end, and with the limit and a window that reaches it.
  abbrev pub IsWithin : ℕ → ConsumeOptions → Type 0
  IsWithin now o =
      (now < until)
      × (redis_key redis sha256 to_lower o ≡ key
          → (until ≤ now + o.window_seconds * 1000) × (o.limit ≡ limit))

  same-IsCount : (m : ℕ) (s s' : S) → seen s' key ≡ seen s key → IsCount m s → IsCount m s'
  same-IsCount m s s' e (inl (fresh, missing)) = inl (fresh, e ∙ missing)
  same-IsCount m s s' e (inr (deadline, after, some_seen, live)) =
      inr (deadline, after, some_seen, e ∙ live)

  pub consume-other :
      (now m : ℕ) (o : ConsumeOptions) (s : S)
      → IsRedis redis seen
      → key ≢ redis_key redis sha256 to_lower o
      → IsCount m s
      → IsCount m (consume redis sha256 to_lower true now o s).1
  unfolding consume
  consume-other now m o s r apart c = elim (consume-cases now o s) [
    | inl (down, refused, same) ↦ subst (IsCount m) (sym same) c
    | inr (n, up, verdict) ↦
        same-IsCount m s _
          (count_request-other (redis_key redis sha256 to_lower o) o.window_seconds now n s _ r
            apart up)
          c
  ]

  pub consume-same :
      (now m : ℕ) (o : ConsumeOptions) (s : S)
      → IsRedis redis seen
      → redis_key redis sha256 to_lower o ≡ key
      → IsWithin now o
      → IsCount m s
      → let (out, s') = consume redis sha256 to_lower true now o s in
        ((is_allowed out ≡ true) × (suc m ≤ limit) × IsCount (suc m) s')
        ⊎ ((is_allowed out ≡ false) × IsCount m s')
        ⊎ ((is_allowed out ≡ false) × (limit < suc m) × IsCount (suc m) s')
  unfolding consume
  consume-same now m o s r same within c = elim (consume-cases now o s) [
    | inl (down, refused, kept) ↦ inr (inl (refused, subst (IsCount m) (sym kept) c))
    | inr (n, up, verdict) ↦
        let (long, same_limit) = within.1 same in
        let (next, counted) = count_request-same o.window_seconds now m n s _ r within.0 long c (
          subst
            (λ k.
              count_request redis sha256 to_lower now k o.window_seconds s
              ≡ some (n, (consume redis sha256 to_lower true now o s).1))
            same up) in
        elim (Bool-cases (ltb o.limit n)) [
          | inl over ↦ inr (inr (verdict ∙ ap not over, omega (arith, ltb→lt), counted))
          | inr free ↦ inl (verdict ∙ ap not free, ground arith, counted)
        ]
  ]
