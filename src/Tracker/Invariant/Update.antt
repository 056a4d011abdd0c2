-- ===== src/Tracker/Invariant/Update.antt =====
-- `update` and `delete` keep the tables consistent.
use rolebrief.Common.{
  ℕ, ◌<◌, true, subst, sym, All-map_le, All-both, ◌&&◌, Option, none, some, List, ◌++◌, ◌≡◌, ◌≢◌,
  arith, ◌==◌, if◌then◌else◌, find, any, All, String, ==_iff, All-find, find-holds, Option-cases,
  Bool-cases, inl, inr, or_else, ap, ◌∙◌,
}
use rolebrief.Tracker.Types.{
  ok-injective, Result-cases, Stage, stage_eq, Application, HistoryRow, Store, UpdateApplication,
  store_after, View, TrackerError, Result, ok, err, ◌>>=◌,
}
use rolebrief.Tracker.Transitions.{validate_transition, validate_transition_refl, stage_eq_iff}
use rolebrief.Tracker.Queries.{find_application, get_by_id}
use rolebrief.Tracker.Update.{
  check_stage, stage_change, update_read, apply_update, is_target, update_rows, updated_store,
  update_commit, read_back, update,
}
use rolebrief.Tracker.Invariant.{newest, IsLegal, IsConsistent, changed-IsConsistent, same_row}

-- What the first half of `update` has established about the row that it returns.
pub record IsRead (user id : ℕ) (dto : UpdateApplication) (s : Store) (a : Application)
    : Type 0 where
  pub found : find_application user id s.applications ≡ some a
  pub same_id : a.id ≡ id
  pub same_user : a.user_id ≡ user
  pub same_revision : a.revision ≡ dto.expected_revision
  pub moves : validate_transition a.stage (or_else dto.stage a.stage) ≡ true

check_stage-ok :
    (b a : Application) (to : Option Stage)
    → check_stage b (stage_change to b.stage) ≡ ok a
    → (b ≡ a) × (validate_transition b.stage (or_else to b.stage) ≡ true)
check_stage-ok b a none e = (ok-injective e, validate_transition_refl b.stage)
check_stage-ok b a (some to) e = elim (Bool-cases (stage_eq to b.stage)) [
  | inl same ↦ (
    ok-injective (rw same at e),
    rw ((stage_eq_iff to b.stage).0 same) (validate_transition_refl b.stage),
  )
  | inr moved ↦ elim (Bool-cases (validate_transition b.stage to)) [
    | inl fine ↦ (ok-injective (rw fine at (rw moved at e)), fine)
    | inr bad ↦ cc (rw bad at (rw moved at e))
  ]
]

not-ok_of_err :
    (a : Application) (m : Result View) (e : View → TrackerError)
    → (m >>= λ v. let r : Result Application = err (e v) in r) ≡ ok a
    → ⊥
not-ok_of_err a (ok v) e h = cc
not-ok_of_err a (err x) e h = cc

module _ (user id : ℕ) (dto : UpdateApplication) (s : Store) where
  checked-IsRead :
      (b : Application)
      → find_application user id s.applications ≡ some b
      → b.revision ≡ dto.expected_revision
      → validate_transition b.stage (or_else dto.stage b.stage) ≡ true
      → IsRead user id dto s b
  unfolding find_application
  checked-IsRead b found fresh moves =
      let keys : (b.id == id && b.user_id == user) ≡ true = find-holds _ s.applications found in
      record {
        found = found;
        same_id = ground arith;
        same_user = ground arith;
        same_revision = fresh;
        moves = moves;
      }

module _ (now user id : ℕ) (dto : UpdateApplication) (s : Store) where
  pub update_read-IsRead :
      (a : Application) → update_read now user id dto s ≡ ok a → IsRead user id dto s a
  unfolding update_read
  update_read-IsRead a e = elim (Option-cases (find_application user id s.applications)) [
    | inl missing ↦ cc (rw (missing, update_read) at e)
    | inr (b, found) ↦ elim (Bool-cases (b.revision == dto.expected_revision)) [
      | inl fresh ↦
          let (same, moves) =
            check_stage-ok b a dto.stage
              (rw (fresh, update_read) at (rw (found, update_read) at e)) in
          subst (IsRead user id dto s) same
            (checked-IsRead user id dto s b found ((==_iff _ _).0 fresh) moves)
      | inr old ↦ absurd (
          not-ok_of_err a (get_by_id now user id s) _
            (rw (old, update_read) at (rw (found, update_read) at e)))
    ]
  ]

module _ (now : ℕ) (dto : UpdateApplication) (a : Application) (rows : List HistoryRow) where
  newest-update_rows_ne :
      (id : ℕ) → a.id ≢ id → newest id (update_rows now dto a ++ rows) ≡ newest id rows
  unfolding update_rows
  newest-update_rows_ne id d = ground arith

  newest-update_rows_self :
      newest a.id rows ≡ some a.stage
      → newest a.id (update_rows now dto a ++ rows) ≡ some (or_else dto.stage a.stage)
  unfolding update_rows
  newest-update_rows_self h = ground (arith, stage_eq_iff (or_else dto.stage a.stage) a.stage)

  update_rows-known : (n : ℕ) → a.id < n → All (λ h. h.application_id < n) (update_rows now dto a)
  unfolding update_rows
  update_rows-known n h = ground arith

  update_rows-IsLegal :
      validate_transition a.stage (or_else dto.stage a.stage) ≡ true
      → All (λ h. IsLegal h.from_stage h.to_stage) (update_rows now dto a)
  unfolding update_rows
  update_rows-IsLegal h = ground arith

module _ (parse_date : String → ℕ) (now user id : ℕ) (dto : UpdateApplication) where
  abbrev pub written : Application → Application
  written b =
      if is_target user id dto.expected_revision b then apply_update parse_date now dto b else b

  pub written_id : (b : Application) → (written b).id ≡ b.id
  unfolding apply_update
  written_id b = ground arith

  written_self :
      (s : Store) (a : Application)
      → IsRead user id dto s a
      → (written a).stage ≡ or_else dto.stage a.stage
  unfolding apply_update
  written_self s a r = ground arith

  written_ne : (b : Application) → b.id ≢ id → written b ≡ b
  written_ne b d = ground arith

  leads :
      (s : Store) (a : Application)
      → IsRead user id dto s a
      → newest a.id s.history ≡ some a.stage
      → (b : Application) → (b.id ≡ a.id → b ≡ a)
      → newest b.id s.history ≡ some b.stage
      → newest b.id (update_rows now dto a ++ s.history) ≡ some (written b).stage
  leads s a r ha b same hb = elim (Bool-cases (b.id == a.id)) [
    | inl e ↦
        rw (same ((==_iff _ _).0 e))
          (newest-update_rows_self now dto a s.history ha ∙ ap some (sym (written_self s a r)))
    | inr d ↦
        let apart : b.id ≢ id = ground arith in
        newest-update_rows_ne now dto a s.history b.id (ground arith)
        ∙ hb
        ∙ ap (λ (c : Application). some c.stage) (sym (written_ne b apart))
  ]

  updated_store-IsConsistent :
      (s : Store) (a : Application)
      → IsRead user id dto s a
      → IsConsistent s
      → IsConsistent (updated_store parse_date now user id dto a s)
  unfolding updated_store apply_update find_application
  updated_store-IsConsistent s a r c =
      let stage : newest a.id s.history ≡ some a.stage =
        All-find (λ b. newest b.id s.history ≡ some b.stage) _ s.applications c.current r.found in
      let number : a.id < s.next_id =
        All-find (λ b. b.id < s.next_id) _ s.applications c.fresh r.found in
      changed-IsConsistent written (update_rows now dto a) s (λ b. ground arith)
        (update_rows-known now dto a s.history s.next_id number)
        (update_rows-IsLegal now dto a s.history r.moves)
        (All-map_le _ _ s.applications
          (λ b (h : (b.id ≡ a.id → b ≡ a) × (newest b.id s.history ≡ some b.stage)).
            leads s a r stage b h.0 h.1)
          (All-both _ _ s.applications (same_row _ s.applications c.apart r.found) c.current))
        c

  read_back-IsConsistent :
      (s t : Store)
      → IsConsistent s
      → IsConsistent t
      → IsConsistent (store_after s (read_back now id t))
  read_back-IsConsistent s t c d = elim (Option-cases (find (λ a. a.id == id) t.applications)) [
    | inl missing ↦ rw (missing, read_back, store_after) c
    | inr (a, found) ↦ rw (found, read_back, store_after) d
  ]

  -- The transaction of `update` keeps the tables consistent, for a row that its first half read.
  update_commit-IsConsistent :
      (s : Store) (a : Application)
      → IsRead user id dto s a
      → IsConsistent s
      → IsConsistent (store_after s (update_commit parse_date now user id dto a s))
  unfolding update_commit
  update_commit-IsConsistent s a r c =
      elim (Bool-cases (any (is_target user id dto.expected_revision) s.applications)) [
        | inl hit ↦
            rw (hit, update_commit, store_after)
              (read_back-IsConsistent s (updated_store parse_date now user id dto a s) c
                (updated_store-IsConsistent s a r c))
        | inr miss ↦ rw (miss, update_commit, store_after) c
      ]

  pub update-IsConsistent :
      (s : Store)
      → IsConsistent s
      → IsConsistent (store_after s (update parse_date now user id dto s))
  unfolding update
  update-IsConsistent s c = elim (Result-cases (update_read now user id dto s)) [
    | inl (e, refused) ↦ rw (refused, update, store_after) c
    | inr (a, read) ↦
        rw (read, update, store_after)
          (update_commit-IsConsistent s a (update_read-IsRead now user id dto s a read) c)
  ]
