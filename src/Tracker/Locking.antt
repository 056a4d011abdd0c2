-- ===== src/Tracker/Locking.antt =====
-- Optimistic locking: what happens when requests interleave between the read and the write.
use rolebrief.Common.{
  ℕ, false, not, none, ◌≡◌, arith, ◌==◌, find, any, any-map-false, any-keep-false, String,
  Bool-cases, Option-cases, inl, inr, ap, sym,
}
use rolebrief.Tracker.Types.{
  Application, Store, UpdateApplication, View, ok, err, stale, delete_conflict, ok-injective,
}
use rolebrief.Tracker.Update.{
  is_target, apply_update, updated_store, update_commit, read_back, deleted_store, delete_commit,
}

-- A write that succeeds leaves the tables of `updated_store`.
pub update_commit-store :
    (parse_date : String → ℕ) (now user id : ℕ) (dto : UpdateApplication) (a : Application)
    (s s' : Store) (v : View)
    → update_commit parse_date now user id dto a s ≡ ok (v, s')
    → s' ≡ updated_store parse_date now user id dto a s
unfolding update_commit
update_commit-store parse_date now user id dto a s s' v e =
    elim (Bool-cases (any (is_target user id dto.expected_revision) s.applications)) [
      | inr miss ↦ cc (rw (miss, update_commit) at e)
      | inl hit ↦
          let t = updated_store parse_date now user id dto a s in
          let back : read_back now id t ≡ ok (v, s') = rw (hit, update_commit) at e in
          elim (Option-cases (find (λ (b : Application). b.id == id) t.applications)) [
            | inl missing ↦ cc (rw (missing, read_back) at back)
            | inr (b, found) ↦
                ap (λ (p : View × Store). p.1) (sym (ok-injective (rw (found, read_back) at back)))
          ]
    ]

pub delete_commit-store :
    (user id revision : ℕ) (s s' : Store)
    → delete_commit user id revision s ≡ ok (id, s')
    → s' ≡ deleted_store user id revision s
unfolding delete_commit
delete_commit-store user id revision s s' e =
    elim (Bool-cases (any (is_target user id revision) s.applications)) [
      | inl hit ↦ ap (λ (p : ℕ × Store). p.1) (sym (ok-injective (rw (hit, delete_commit) at e)))
      | inr miss ↦ cc (rw (miss, delete_commit) at e)
    ]

module _ (parse_date : String → ℕ) (user id revision : ℕ) where
  no_target_left :
      (now : ℕ) (dto : UpdateApplication) (a : Application) (s : Store)
      → dto.expected_revision ≡ revision
      → any (is_target user id revision) (updated_store parse_date now user id dto a s).applications
        ≡ false
  unfolding updated_store apply_update
  no_target_left now dto a s e = any-map-false _ _ s.applications (λ b. ground arith)

  -- Two updates that expect the same revision: whatever was read, and whatever the second one asks
  -- for, once the first write has succeeded the second is refused as stale.
  pub update_commit_once :
      (now later : ℕ) (first second : UpdateApplication) (a b : Application) (s s' : Store)
      (v : View)
      → first.expected_revision ≡ revision
      → second.expected_revision ≡ revision
      → update_commit parse_date now user id first a s ≡ ok (v, s')
      → update_commit parse_date later user id second b s' ≡ err (stale b.revision none)
  unfolding update_commit
  update_commit_once now later first second a b s s' v e f done =
      rw (update_commit-store parse_date now user id first a s s' v done)
        (rw f (rw (no_target_left now first a s e)))

  delete_commit_after_update :
      (now : ℕ) (dto : UpdateApplication) (a : Application) (s s' : Store) (v : View)
      → dto.expected_revision ≡ revision
      → update_commit parse_date now user id dto a s ≡ ok (v, s')
      → delete_commit user id revision s' ≡ err delete_conflict
  unfolding delete_commit
  delete_commit_after_update now dto a s s' v e done =
      rw (update_commit-store parse_date now user id dto a s s' v done)
        (rw (no_target_left now dto a s e))

  update_commit_after_delete :
      (now : ℕ) (dto : UpdateApplication) (b : Application) (s s' : Store)
      → dto.expected_revision ≡ revision
      → delete_commit user id revision s ≡ ok (id, s')
      → update_commit parse_date now user id dto b s' ≡ err (stale b.revision none)
  unfolding update_commit deleted_store
  update_commit_after_delete now dto b s s' e done =
      rw (delete_commit-store user id revision s s' done) (
        rw e (
          rw (
            any-keep-false (is_target user id revision) (λ c. not (is_target user id revision c))
              s.applications (λ c. ground arith))))

  -- Where an update and a delete that expect the same revision would both succeed, the one that is
  -- carried out first has the other refused: the delete as a conflict, the update as stale.
  pub update_excludes_delete :
      (now : ℕ) (dto : UpdateApplication) (a : Application) (s updated deleted : Store) (v : View)
      → dto.expected_revision ≡ revision
      → update_commit parse_date now user id dto a s ≡ ok (v, updated)
      → delete_commit user id revision s ≡ ok (id, deleted)
      → (delete_commit user id revision updated ≡ err delete_conflict)
        × (update_commit parse_date now user id dto a deleted ≡ err (stale a.revision none))
  update_excludes_delete now dto a s updated deleted v e first second = (
    delete_commit_after_update now dto a s updated v e first,
    update_commit_after_delete now dto a s deleted e second,
  )
