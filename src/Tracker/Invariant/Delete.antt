-- ===== src/Tracker/Invariant/Delete.antt =====
-- `delete` keeps the tables consistent.
use rolebrief.Common.{
  ℕ, true, not, ◌&&◌, some, List, [], ◌∷◌, ◌≡◌, ◌≢◌, refl, arith, ◌==◌, any, keep, All-keep,
  All-keep_of, All-map_le, All-both, Pairs-keep, find-holds, Option-cases, Bool-cases, inl, inr,
  subst, ◌∙◌,
}
use rolebrief.Tracker.Types.{
  ok-injective, Result-cases, Application, HistoryRow, Store, store_after, ok,
}
use rolebrief.Tracker.Queries.{find_application}
use rolebrief.Tracker.Update.{is_target, delete_read, deleted_store, delete_commit, delete}
use rolebrief.Tracker.Invariant.{newest, IsConsistent, same_row}

newest-keep :
    (id other : ℕ) (rows : List HistoryRow)
    → other ≢ id
    → newest other (keep (λ h. not (h.application_id == id)) rows) ≡ newest other rows
newest-keep id other [] d = refl
newest-keep id other (h ∷ rows) d = ground (arith, newest-keep id other rows d)

module _ (user id revision : ℕ) (s : Store) where
  -- What the first half of `delete` has established about the row that it read.
  pub delete_read-target :
      (a : Application)
      → delete_read user id revision s ≡ ok a
      → (find_application user id s.applications ≡ some a) × (is_target user id revision a ≡ true)
  unfolding delete_read find_application
  delete_read-target a e = elim (Option-cases (find_application user id s.applications)) [
    | inl missing ↦ cc (rw (missing, delete_read) at e)
    | inr (b, found) ↦
        let keys : (b.id == id && b.user_id == user) ≡ true = find-holds _ s.applications found in
        elim (Bool-cases (b.revision == revision)) [
          | inl fresh ↦
              let same : b ≡ a =
                ok-injective (rw (fresh, delete_read) at (rw (found, delete_read) at e)) in
              subst
                (λ (c : Application).
                  (find_application user id s.applications ≡ some c)
                  × (is_target user id revision c ≡ true))
                same (found, ground arith)
          | inr old ↦ cc (rw (old, delete_read) at (rw (found, delete_read) at e))
        ]
  ]

  deleted_store-IsConsistent :
      (a : Application)
      → find_application user id s.applications ≡ some a
      → is_target user id revision a ≡ true
      → IsConsistent s
      → IsConsistent (deleted_store user id revision s)
  unfolding deleted_store find_application
  deleted_store-IsConsistent a found target c = record {
    fresh = All-keep _ _ s.applications c.fresh;
    known = All-keep _ _ s.history c.known;
    legal = All-keep _ _ s.history c.legal;
    current = All-keep_of _ _ s.applications (
        All-map_le _ _ s.applications
          (λ b (h : (b.id ≡ a.id → b ≡ a) × (newest b.id s.history ≡ some b.stage)) kept.
            newest-keep id b.id s.history (λ e. spared b (h.0 (ground arith)) kept) ∙ h.1)
          (All-both _ _ s.applications (same_row _ s.applications c.apart found) c.current));
    apart = Pairs-keep _ _ s.applications c.apart;
  }
    where
      spared : (b : Application) → b ≡ a → not (is_target user id revision b) ≡ true → ⊥
      spared b e kept = cc (rw target at (rw e at kept))

  delete_commit-IsConsistent :
      (a : Application)
      → find_application user id s.applications ≡ some a
      → is_target user id revision a ≡ true
      → IsConsistent s
      → IsConsistent (store_after s (delete_commit user id revision s))
  unfolding delete_commit
  delete_commit-IsConsistent a found target c =
      elim (Bool-cases (any (is_target user id revision) s.applications)) [
        | inl hit ↦
            rw (hit, delete_commit, store_after) (deleted_store-IsConsistent a found target c)
        | inr miss ↦ rw (miss, delete_commit, store_after) c
      ]

  -- `delete` keeps the tables consistent.
  pub delete-IsConsistent :
      IsConsistent s → IsConsistent (store_after s (delete user id revision s))
  unfolding delete
  delete-IsConsistent c = elim (Result-cases (delete_read user id revision s)) [
    | inl (e, refused) ↦ rw (refused, delete, store_after) c
    | inr (a, read) ↦
        let (found, target) = delete_read-target a read in
        rw (read, delete, store_after) (delete_commit-IsConsistent a found target c)
  ]
