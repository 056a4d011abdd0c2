-- ===== src/Tracker/Success.antt =====
-- An update that passes its checks is carried out, and what it leaves; archiving and restoring.
use rolebrief.Common.{
  ℕ, ◌+◌, Bool, true, false, some, List, [], ◌∷◌, map, ◌≡◌, ◌≢◌, refl, arith, ◌==◌, find, any,
  find-map, any_of_find, some-injective, String, Bool-cases, inl, inr, ap, sym, ◌∙◌, subst, Pairs,
  All-find, ==_refl,
}
use rolebrief.Tracker.Types.{
  Application, Lifecycle, active, archived, Store, UpdateApplication, View, ok, store_after,
}
use rolebrief.Tracker.Queries.{view_of, serialize, find_application}
use rolebrief.Tracker.Update.{
  is_target, apply_update, updated_store, update_read, update_commit, update, read_back, archive,
  restore, lifecycle_only,
}
use rolebrief.Tracker.Invariant.{IsConsistent, Apart}
use rolebrief.Tracker.Invariant.Update.{
  IsRead, update_read-IsRead, update-IsConsistent, written, written_id,
}

-- Where identifiers are unique, a row that one query finds is the row that its identifier names,
-- also after a change that keeps the identifiers.
find-map_id :
    (f : Application → Application) (p : Application → Bool) (rows : List Application)
    {a : Application}
    → ((b : Application) → (f b).id ≡ b.id)
    → Pairs Apart rows
    → find p rows ≡ some a
    → find (λ b. b.id == a.id) (map f rows) ≡ some (f a)
find-map_id f p [] keeps apart e = cc
find-map_id f p (x ∷ rows) {a} keeps apart e = elim (Bool-cases (p x)) [
  | inl hit ↦
      let same : x ≡ a = some-injective x a (rw hit at e) in
      let here : ((f x).id == a.id) ≡ true =
        ground (arith, keeps x, ap (λ (b : Application). b.id) same) in
      rw here (ap (λ (b : Application). some (f b)) same)
  | inr miss ↦
      let rest : find p rows ≡ some a = rw miss at e in
      let apart_ids : x.id ≢ a.id = (All-find (Apart x) p rows apart.0 rest).0 in
      let other : ((f x).id == a.id) ≡ false = ground (arith, keeps x) in
      rw other (find-map_id f p rows keeps apart.1 rest)
]

module _ (parse_date : String → ℕ) (now user id : ℕ) (dto : UpdateApplication) (s : Store) where
  is_read :
      (a : Application) → IsRead user id dto s a → is_target user id dto.expected_revision a ≡ true
  is_read a r = ground (arith, r.same_id, r.same_user, r.same_revision)

  row_is_back :
      (a : Application)
      → IsConsistent s
      → IsRead user id dto s a
      → find (λ b. b.id == id) (updated_store parse_date now user id dto a s).applications
        ≡ some (apply_update parse_date now dto a)
  unfolding updated_store find_application
  row_is_back a c r =
      subst
        (λ (k : ℕ).
          find (λ b. b.id == k) (map (written parse_date now user id dto) s.applications)
          ≡ some (apply_update parse_date now dto a))
        r.same_id
        (find-map_id (written parse_date now user id dto) _ s.applications
            (written_id parse_date now user id dto) c.apart r.found
          ∙ rw (is_read a r))

  commit_applies :
      (a : Application)
      → IsConsistent s
      → IsRead user id dto s a
      → update_commit parse_date now user id dto a s
        ≡ ok (
          view_of now
              (updated_store parse_date now user id dto a s)
              (apply_update parse_date now dto a),
          updated_store parse_date now user id dto a s,
        )
  unfolding update_commit find_application
  commit_applies a c r =
      let hit : any (is_target user id dto.expected_revision) s.applications ≡ true =
        any_of_find _ (is_target user id dto.expected_revision) s.applications r.found
          (is_read a r) in
      rw hit (rw (row_is_back a c r, read_back))

  pub update_applies :
      (a : Application)
      → IsConsistent s
      → update_read now user id dto s ≡ ok a
      → update parse_date now user id dto s
        ≡ ok (
          view_of now
              (updated_store parse_date now user id dto a s)
              (apply_update parse_date now dto a),
          updated_store parse_date now user id dto a s,
        )
  unfolding update
  update_applies a c read =
      rw (read, update) (commit_applies a c (update_read-IsRead now user id dto s a read))

abbrev with_lifecycle : ℕ → Lifecycle → Application → Application
with_lifecycle now to a = record a { lifecycle = to; revision = a.revision + 1; updated_at = now }

-- An application as a query of its owner finds it.
abbrev Held : ℕ → ℕ → Application → Store → Type 0
Held user id a s = IsConsistent s × (find_application user id s.applications ≡ some a)

module _ (parse_date : String → ℕ) (now user id : ℕ) (to : Lifecycle) (a : Application)
    (s : Store) where
  abbrev request : UpdateApplication
  request = lifecycle_only a.revision to

  read_current : Held user id a s → update_read now user id request s ≡ ok a
  unfolding update_read
  read_current (c, found) = rw (found, update_read) (rw (==_refl a.revision))

  found_again :
      Held user id a s
      → find_application user id (updated_store parse_date now user id request a s).applications
        ≡ some (with_lifecycle now to a)
  unfolding find_application updated_store apply_update
  found_again (c, found) =
      find-map _ (written parse_date now user id request) s.applications (λ b. ground arith) found
      ∙ rw (
          is_read parse_date now user id request s a
            (update_read-IsRead now user id request s a (read_current (c, found))))

  -- Archiving or restoring at the current revision succeeds, and the owner finds the new row.
  toggles :
      Held user id a s
      → (v : View) × (t : Store) × (update parse_date now user id request s ≡ ok (v, t))
        × (v.application ≡ with_lifecycle now to a)
        × Held user id (with_lifecycle now to a) t
  unfolding view_of serialize apply_update
  toggles (c, found) =
      let done = update_applies parse_date now user id request s a c (read_current (c, found)) in
      (
        _,
        _,
        done,
        refl,
        (
          subst IsConsistent (ap (store_after s) done)
              (update-IsConsistent parse_date now user id request s c),
          found_again (c, found),
        ),
      )

-- Archiving an active application and restoring it at the next revision succeeds, and gives the row
-- back as it was, two revisions later and with the time of the last write.
pub restore_after_archive :
    (parse_date : String → ℕ) (now later user id : ℕ) (a : Application) (s : Store)
    → IsConsistent s
    → find_application user id s.applications ≡ some a
    → a.lifecycle ≡ active
    → (v : View) × (s' : Store) × (w : View) × (t : Store) × (archive parse_date now user id
          a.revision s
        ≡ ok (v, s'))
      × (restore parse_date later user id (a.revision + 1) s' ≡ ok (w, t))
      × (v.application.lifecycle ≡ archived)
      × (w.application ≡ record a { revision = a.revision + 1 + 1; updated_at = later })
unfolding archive restore
restore_after_archive parse_date now later user id a s c found e =
    let (v, s', put_away, row, held) = toggles parse_date now user id archived a s (c, found) in
    let (w, t, taken_out, back, _) =
      toggles parse_date later user id active (with_lifecycle now archived a) s' held in
    (
      v,
      s',
      w,
      t,
      put_away,
      taken_out,
      ap (λ (b : Application). b.lifecycle) row,
      back
          ∙ ap (λ l. record a { lifecycle = l; revision = a.revision + 1 + 1; updated_at = later })
              (sym e),
    )
