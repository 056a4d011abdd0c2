-- ===== src/Auth/Families.antt =====
-- The live sessions of a family (backend/src/auth/auth.service.ts), whatever the order in which
-- requests and the parts of refreshes come.
use rolebrief.Common.{
  ℕ, suc, ◌<◌, Bool, true, false, ◌&&◌, some, List, [], ◌∷◌, map, String, ◌==◌, ==_iff, find,
  find-holds, if◌then◌else◌, ◌≡◌, ◌≢◌, refl, sym, ap, ◌∙◌, subst, some-injective, arith, All,
  All-map, All-map_le, All-find, Pairs, Pairs-map, Bool-cases, Option-cases, inl, inr,
}
use rolebrief.Auth.Types.{Session, Tables, is_live}
use rolebrief.Auth.Sessions.{
  AuthConfig, Client, FreshTokens, rotated, check_refresh, rotate_session,
}
use rolebrief.Auth.Requests.{Flights, OtherFamily}

-- No two sessions of one family are live.
abbrev pub Alone : Session → Session → Type 0
Alone a b = a.token_family_id ≡ b.token_family_id → is_live a ≡ true → is_live b ≡ false

abbrev pub Apart : Session → Session → Type 0
Apart a b = a.id ≢ b.id

-- A session that was read is, if it is in the table, of the family that it was read with.
abbrev pub Knows : List Session → Session → Type 0
Knows ss e = All (λ (s : Session). s.id ≡ e.id → s.token_family_id ≡ e.token_family_id) ss

All-both_le :
    (P Q R : Session → Type 0) (xs : List Session)
    → ((x : Session) → P x → Q x → R x)
    → All P xs
    → All Q xs
    → All R xs
All-both_le P Q R [] f h k = tt
All-both_le P Q R (x ∷ xs) f h k = (f x h.0 k.0, All-both_le P Q R xs f h.1 k.1)

-- The session is the only one of its family that may be live.
abbrev pub Only : List Session → Session → Type 0
Only ss e =
    All (λ (s : Session). e.token_family_id ≡ s.token_family_id → is_live s ≡ true → s.id ≡ e.id) ss

-- The table, an identifier above all in it, and the sessions that refreshes in flight have read.
pub record IsAlone (ss : List Session) (next : ℕ) (flights : Flights) : Type 0 where
  pub fresh : All (λ (s : Session). s.id < next) ss
  pub apart : Pairs Apart ss
  pub alone : Pairs Alone ss
  pub known : All (λ e. (e.id < next) × Knows ss e) flights.waiting
  pub only : All (Only ss) flights.checked
  pub parted : Pairs OtherFamily flights.checked

-- An update of rows that makes none of them live and moves none to another family.
pub record Fades (f : Session → Session) : Type 0 where
  pub same_id : (s : Session) → (f s).id ≡ s.id
  pub same_family : (s : Session) → (f s).token_family_id ≡ s.token_family_id
  pub live_before : (s : Session) → is_live (f s) ≡ true → is_live s ≡ true

pub Fades-IsAlone :
    (f : Session → Session) (ss : List Session) (next : ℕ) (flights : Flights)
    → Fades f
    → IsAlone ss next flights
    → IsAlone (map f ss) next flights
Fades-IsAlone f ss next flights fades inv = record {
  fresh =
      All-map (λ (s : Session). s.id < next) (λ (s : Session). s.id < next) f ss
        (λ s h. subst (λ i. i < next) (sym (fades.same_id s)) h) inv.fresh;
  apart =
      Pairs-map Apart Apart f ss (λ a b h same. h (sym (fades.same_id a) ∙ same ∙ fades.same_id b))
        inv.apart;
  alone = Pairs-map Alone Alone f ss alone_still inv.alone;
  known =
      All-map_le _ _ flights.waiting
        (λ (e : Session) h. (h.0, All-map _ _ f ss (known_still e) h.1)) inv.known;
  only =
      All-map_le (Only ss) (Only (map f ss)) flights.checked
        (λ (e : Session) h. All-map _ _ f ss (only_still e) h) inv.only;
  parted = inv.parted;
}
  where
    alone_still : (a b : Session) → Alone a b → Alone (f a) (f b)
    alone_still a b h same live = elim (Bool-cases (is_live (f b))) [
      | inr dead ↦ dead
      | inl still ↦ cc (
        fades.live_before b still,
        h (sym (fades.same_family a) ∙ same ∙ fades.same_family b) (fades.live_before a live),
      )
    ]

    only_still :
        (e s : Session)
        → (e.token_family_id ≡ s.token_family_id → is_live s ≡ true → s.id ≡ e.id)
        → e.token_family_id ≡ (f s).token_family_id
        → is_live (f s) ≡ true
        → (f s).id ≡ e.id
    only_still e s h same live =
        fades.same_id s ∙ h (same ∙ fades.same_family s) (fades.live_before s live)

    known_still :
        (e s : Session)
        → (s.id ≡ e.id → s.token_family_id ≡ e.token_family_id)
        → (f s).id ≡ e.id
        → (f s).token_family_id ≡ e.token_family_id
    known_still e s h same = fades.same_family s ∙ h (sym (fades.same_id s) ∙ same)

pub revoke-Fades :
    (p : Session → Bool) (now : ℕ) (reason : String)
    → Fades (λ s.
      if p s && is_live s
      then record s { revoked_at = some now; revoked_reason = some reason }
      else s)
revoke-Fades p now reason = record {
  same_id = λ s. ground arith;
  same_family = λ s. ground arith;
  live_before = λ s h. ground arith;
}

pub touched-Fades :
    (id now : ℕ)
    → Fades (λ (r : Session). if r.id == id then record r { last_used_at = now } else r)
touched-Fades id now = record {
  same_id = λ s. ground arith;
  same_family = λ s. ground arith;
  live_before = λ s h. ground arith;
}

pub rotated-Fades :
    (hash_token : String → String) (config : AuthConfig) (now id next : ℕ)
    → Fades (rotated hash_token config now id next)
rotated-Fades hash_token config now id next = record {
  same_id = λ s. ground arith;
  same_family = λ s. ground arith;
  live_before = λ s h. ground arith;
}

-- A new session is added where no session of its family is live, and no refresh of its family is
-- about to rotate one.
pub added-IsAlone :
    (s : Session) (ss : List Session) (next : ℕ) (flights : Flights)
    → s.id ≡ next
    → All (λ (r : Session). s.token_family_id ≡ r.token_family_id → is_live r ≡ false) ss
    → All (λ (e : Session). s.token_family_id ≢ e.token_family_id) flights.checked
    → IsAlone ss next flights
    → IsAlone (s ∷ ss) (suc next) flights
added-IsAlone s ss next flights named dead others inv = record {
  fresh = (
    omega (arith, named),
    All-map_le _ _ ss (λ (r : Session) (h : r.id < next). omega (arith, h)) inv.fresh,
  );
  apart = (
    All-map_le _ _ ss
        (λ (r : Session) (h : r.id < next) (same : s.id ≡ r.id). omega (arith, h, same, named))
        inv.fresh,
    inv.apart,
  );
  alone = (All-map_le _ _ ss (λ (r : Session) h. λ same. λ live. h same) dead, inv.alone);
  known =
      All-map_le _ _ flights.waiting
        (λ (e : Session) h.
          (omega (arith, h.0), (λ (same : s.id ≡ e.id). elim (below_next e h.0 same) [ ], h.1)))
        inv.known;
  only =
      All-both_le _ (Only ss) (Only (s ∷ ss)) flights.checked
        (λ (e : Session) other h. ((λ same. λ live. elim (other (sym same)) [ ]), h)) others
        inv.only;
  parted = inv.parted;
}
  where
    below_next : (e : Session) → e.id < next → s.id ≡ e.id → ⊥
    below_next e h same = omega (arith, h, same, named)

-- The session found by its identifier is the only live one of its family.
only_current :
    (id : ℕ) (ss : List Session) (current : Session)
    → Pairs Alone ss
    → find (λ (s : Session). s.id == id) ss ≡ some current
    → is_live current ≡ true
    → All
        (λ (s : Session).
          current.token_family_id ≡ s.token_family_id → is_live s ≡ true → s.id ≡ id)
        ss
only_current id [] current alone e live = tt
only_current id (x ∷ xs) current alone e live = elim (Bool-cases (x.id == id)) [
  | inl hit ↦
      let same : x ≡ current = some-injective x current (rw hit at e) in
      (
        λ family. λ h. (==_iff x.id id).0 hit,
        All-map_le (Alone x) _ xs
            (λ (s : Session) apart. λ family. λ h. cc (
              apart (ap (λ (r : Session). r.token_family_id) same ∙ family)
                  (subst (λ (r : Session). is_live r ≡ true) (sym same) live),
              h,
            ))
            alone.0,
      )
  | inr miss ↦
      let rest : find (λ (s : Session). s.id == id) xs ≡ some current = rw miss at e in
      (
        λ family. λ h.
            cc (
              All-find (Alone x) (λ (s : Session). s.id == id) xs alone.0 rest (sym family) h,
              live,
            ),
        only_current id xs current alone.1 rest live,
      )
]

module _ (hash_token : String → String) (config : AuthConfig) where
  -- Once the session is rotated, no session of the family is live.
  none_left :
      (now id next : ℕ) (family : String) (ss : List Session)
      → All (λ (s : Session). family ≡ s.token_family_id → is_live s ≡ true → s.id ≡ id) ss
      → All
          (λ (s : Session). family ≡ s.token_family_id → is_live s ≡ false)
          (map (rotated hash_token config now id next) ss)
  none_left now id next family ss h =
      All-map _ _ (rotated hash_token config now id next) ss (λ s only. rotated_row s only) h
    where
      rotated_row :
          (s : Session)
          → (family ≡ s.token_family_id → is_live s ≡ true → s.id ≡ id)
          → family ≡ (rotated hash_token config now id next s).token_family_id
          → is_live (rotated hash_token config now id next s) ≡ false
      rotated_row s only same = elim (Bool-cases (s.id == id)) [
        | inl hit ↦ rw hit refl
        | inr miss ↦ elim (Bool-cases (is_live s)) [
          | inr dead ↦ rw miss dead
          | inl live ↦
              let found : s.id ≡ id = only (rw miss at same) live in
              cc ((==_iff s.id id).1 found, miss)
        ]
      ]

  -- A session that the transaction finds unrevoked is the only live one of its family.
  pub checked-Only :
      (existing : Session) (t : Tables)
      → Knows t.sessions existing
      → Pairs Alone t.sessions
      → check_refresh hash_token config existing t ≡ true
      → Only t.sessions existing
  unfolding check_refresh
  checked-Only existing t knows alone passes =
      elim (Option-cases (find (λ (s : Session). s.id == existing.id) t.sessions)) [
        | inl missing ↦ cc (rw (missing, check_refresh) at passes)
        | inr (current, found) ↦
            let held : current.id ≡ existing.id =
              (==_iff current.id existing.id).0
                (find-holds (λ (s : Session). s.id == existing.id) t.sessions found) in
            let family : current.token_family_id ≡ existing.token_family_id =
              All-find
                (λ (s : Session). s.id ≡ existing.id → s.token_family_id ≡ existing.token_family_id)
                (λ (s : Session). s.id == existing.id) t.sessions knows found held in
            subst
              (λ g.
                All (λ (s : Session). g ≡ s.token_family_id → is_live s ≡ true → s.id ≡ existing.id)
                  t.sessions)
              family
              (only_current existing.id t.sessions current alone found
                (rw (found, check_refresh) at passes))
      ]

  pub rotate-IsAlone :
      (now : ℕ) (existing : Session) (tokens : FreshTokens) (client : Client) (t : Tables)
      (flights : Flights)
      → Only t.sessions existing
      → All (OtherFamily existing) flights.checked
      → IsAlone t.sessions t.next_id flights
      → IsAlone
          (rotate_session hash_token config now existing tokens client t).1.sessions
          (rotate_session hash_token config now existing tokens client t).1.next_id
          flights
  unfolding rotate_session
  rotate-IsAlone now existing tokens client t flights only others inv =
      added-IsAlone _ _ t.next_id flights refl
        (none_left now existing.id t.next_id existing.token_family_id t.sessions only) others
        (Fades-IsAlone _ t.sessions t.next_id flights
          (rotated-Fades hash_token config now existing.id t.next_id) inv)
