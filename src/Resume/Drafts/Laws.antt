-- ===== src/Resume/Drafts/Laws.antt =====
-- Updates of a draft that are sent again, and updates that are late
-- (backend/src/modules/resumes/review/resume-review.service.ts).
use rolebrief.Common.{
  ℕ, false, Option, none, List, String, any, any-map-false, ◌≡◌, refl, ap, subst, ◌∙◌, inl, inr,
}
use rolebrief.Resume.Review.{Category, Item}
use rolebrief.Resume.Drafts.Types.{
  DraftView, Store, UpdateDraft, review_revision_conflict, answered, failed,
}
use rolebrief.Resume.Drafts.Halves.{
  answered-injective, bind-answered, replay, read-cases, commit-stored, commit-drafts, no_target,
}
use rolebrief.Resume.Drafts.Service.{
  find_mutation, Prepared, update_read, is_target, commit_missed, update_commit, update_draft,
  current_revision,
}

module _ {V : Type 0} (normalize : ℕ → String → String) (fits : Category → V → Option V)
    (request_hash : UpdateDraft V → String) (json_bytes : List (Item V) → ℕ) where
  -- An update that succeeded, sent again at any time as long as nothing else was written, gets the
  -- same answer, and the tables stay as they are.
  pub update_draft_again :
      (now later user document_id : ℕ) (dto : UpdateDraft V) (s s' : Store V) (view : DraftView V)
      → update_draft normalize fits request_hash json_bytes now user document_id dto s
        ≡ answered (view, s')
      → update_draft normalize fits request_hash json_bytes later user document_id dto s'
        ≡ answered (view, s')
  unfolding update_draft
  update_draft_again now later user document_id dto s s' view e =
      let (r, reads, e1) =
        bind-answered
          (update_read normalize fits request_hash json_bytes now user document_id dto s) _ e in
      elim (read-cases normalize fits request_hash json_bytes now user document_id dto s r reads) [
        | inl (m, found, same, is_replay) ↦
            let done = answered-injective (rw is_replay at e1) in
            subst
              (λ (t : DraftView V × Store V).
                update_draft normalize fits request_hash json_bytes later user document_id dto t.1
                ≡ answered t)
              done
              (replay normalize fits request_hash json_bytes later user document_id dto s m found
                same)
        | inr (p, fresh, id, is_prepared) ↦
            let (m, found, same, answer) =
              commit-stored normalize fits request_hash json_bytes now user document_id dto p s s'
                view fresh id (rw is_prepared at e1) in
            replay normalize fits request_hash json_bytes later user document_id dto s' m found same
            ∙ ap (λ v. answered (v, s')) answer
      ]

  -- Once an update of a draft is written, the transaction of every other update of the draft that
  -- expects the same revision is refused, with the revision that the draft has by then, unless its key
  -- has an answer already.
  pub draft_committed_once :
      (now later user document_id : ℕ) (dto dto' : UpdateDraft V) (p p' : Prepared V)
      (s s' : Store V) (view : DraftView V)
      → find_mutation user dto.draft_id dto.idempotency_key s.mutations ≡ none
      → update_commit normalize fits request_hash json_bytes now user document_id dto p s
        ≡ answered (view, s')
      → p'.draft.id ≡ p.draft.id
      → dto'.expected_review_revision ≡ dto.expected_review_revision
      → find_mutation user dto'.draft_id dto'.idempotency_key s'.mutations ≡ none
      → update_commit normalize fits request_hash json_bytes later user document_id dto' p' s'
        ≡ failed (
            review_revision_conflict dto'.expected_review_revision
              (current_revision normalize fits request_hash json_bytes later p'.draft s'))
  unfolding update_commit
  draft_committed_once now later user document_id dto dto' p p' s s' view fresh e id revision
        other =
      let none_left : any
            (is_target normalize fits request_hash json_bytes later user document_id p'.draft.id
              dto'.expected_review_revision)
            s'.drafts
          ≡ false =
        rw
          (commit-drafts normalize fits request_hash json_bytes now user document_id dto p s s' view
            fresh e)
          (rw id (
            rw revision (
              any-map-false _ _ s.drafts (λ d.
                no_target normalize fits request_hash json_bytes now later user document_id dto p
                  d)))) in
      rw (none_left, update_commit) (rw (other, commit_missed) refl)
