-- ===== src/Resume/Drafts/Halves.antt =====
-- What the two halves of an update of a draft answer and leave
-- (backend/src/modules/resumes/review/resume-review.service.ts).
use rolebrief.Common.{
  ℕ, false, not, ◌&&◌, ◌||◌, Option, none, some, List, [], ◌∷◌, String, str_eq, str_eq_refl,
  str_eq_iff, ◌==◌, ==_refl, find, find-holds, any, is_some, if◌then◌else◌, ◌≡◌, refl, ap, sym,
  subst, ◌∙◌, arith, Bool-cases, Option-cases, ◌⊎◌, inl, inr,
}
use rolebrief.Resume.Review.{Category, Item}
use rolebrief.Resume.Drafts.Types.{
  Document, Draft, DraftView, Mutation, Store, UpdateDraft, Answer, answered, failed, ◌>>=◌,
}
use rolebrief.Resume.Drafts.Service.{
  find_mutation, find_draft, first_duplicate, apply_operations, checked_size, Prepared, Read,
  replayed, prepared, load_draft, prepare, update_read, is_target, commit_missed, mutation_of,
  update_commit, update_draft, drafts_after, is_current, reviewed_draft, profile_revision,
  serialize,
}

abbrev payload {ℓ} : {A : Type ℓ} → A → Answer A → A
payload a (answered b) = b
payload a (failed e) = a

pub answered-injective {ℓ} : {A : Type ℓ} {a b : A} → answered a ≡ answered b → a ≡ b
answered-injective {a} e = ap (payload a) e

pub bind-answered {ℓ κ} :
    {A : Type ℓ} {B : Type κ} (m : Answer A) (f : A → Answer B) {b : B}
    → (m >>= f) ≡ answered b
    → (a : A) × (m ≡ answered a) × (f a ≡ answered b)
bind-answered (answered a) f e = (a, refl, e)
bind-answered (failed x) f e = cc

abbrev draft_of : {V : Type 0} → Draft V → Read V → Draft V
draft_of d (replayed view) = d
draft_of d (prepared p) = p.draft

module _ {V : Type 0} (normalize : ℕ → String → String) (fits : Category → V → Option V)
    (request_hash : UpdateDraft V → String) (json_bytes : List (Item V) → ℕ) where
  load_draft-id :
      (user document_id draft_id : ℕ) (s : Store V) (document : Document) (d : Draft V)
      → load_draft user document_id draft_id s ≡ answered (document, d)
      → d.id ≡ draft_id
  load_draft-id user document_id draft_id s document d e =
      elim (Option-cases (
        find (λ r. (r.id == document_id && r.user_id == user) && not (is_some r.deleted_at))
          s.documents)) [
            | inl missing ↦ cc (rw (missing, load_draft) at e)
            | inr (doc, found) ↦
                elim (Bool-cases (not doc.is_ready || not (is_some doc.current_draft_id))) [
                  | inl early ↦ cc (rw (found, load_draft, early) at e)
                  | inr ready ↦
                      elim (Option-cases
                        (find (λ r. r.id == draft_id && r.resume_document_id == doc.id) s.drafts)) [
                          | inl none_left ↦ cc (rw (found, load_draft, ready, none_left) at e)
                          | inr (r, there) ↦
                              elim (Bool-cases (not r.is_ready || not (is_current doc r))) [
                                | inl stale ↦ cc (rw (found, load_draft, ready, there, stale) at e)
                                | inr fine ↦
                                    let same =
                                      ap (λ t. t.1)
                                        (answered-injective
                                          (rw (found, load_draft, ready, there, fine) at e)) in
                                    subst (λ t. t.id ≡ draft_id) same
                                      (ground (
                                        arith,
                                        find-holds
                                            (λ (r : Draft V).
                                              r.id == draft_id && r.resume_document_id == doc.id)
                                            s.drafts there,
                                      ))
                              ]
                        ]
                ]
          ]

  prepare-draft :
      (now : ℕ) (dto : UpdateDraft V) (revision : ℕ) (document : Document) (d : Draft V)
      (p : Prepared V)
      → prepare normalize fits request_hash json_bytes now dto revision document d ≡ answered p
      → p.draft ≡ d
  prepare-draft now dto revision document d p e =
      elim (Bool-cases (not (d.review_revision == dto.expected_review_revision))) [
        | inl late ↦ cc (rw (late, prepare) at e)
        | inr timely ↦ elim (Option-cases (first_duplicate [] dto.operations)) [
          | inr (id, twice) ↦ cc (rw (timely, prepare, twice) at e)
          | inl once ↦
              let (next, applied, e1) =
                bind-answered
                  (apply_operations normalize fits request_hash json_bytes now d.items
                    dto.operations d.items)
                  _ (rw (timely, prepare, once) at e) in
              let (items, fits_in, e2) =
                bind-answered (checked_size normalize fits request_hash json_bytes now next) _ e1 in
              sym (ap (λ (r : Prepared V). r.draft) (answered-injective e2))
        ]
      ]

  -- An update whose key has a stored answer to the same request gets that answer and writes nothing.
  pub replay :
      (now user document_id : ℕ) (dto : UpdateDraft V) (s : Store V) (m : Mutation V)
      → find_mutation user dto.draft_id dto.idempotency_key s.mutations ≡ some m
      → m.request_hash ≡ request_hash dto
      → update_draft normalize fits request_hash json_bytes now user document_id dto s
        ≡ answered (m.response, s)
  unfolding update_draft update_read
  replay now user document_id dto s m found same =
      rw (found, update_draft, update_read) (rw same (rw (str_eq_refl (request_hash dto)) refl))

  -- What the first half of an update answers: a stored answer, or what the transaction is to write.
  pub read-cases :
      (now user document_id : ℕ) (dto : UpdateDraft V) (s : Store V) (r : Read V)
      → update_read normalize fits request_hash json_bytes now user document_id dto s ≡ answered r
      → ((m : Mutation V) × (find_mutation user dto.draft_id dto.idempotency_key s.mutations
            ≡ some m)
          × (m.request_hash ≡ request_hash dto)
          × (r ≡ replayed m.response))
        ⊎ ((p : Prepared V) × (find_mutation user dto.draft_id dto.idempotency_key s.mutations
              ≡ none)
            × (p.draft.id ≡ dto.draft_id)
            × (r ≡ prepared p))
  unfolding update_read
  read-cases now user document_id dto s r e =
      elim (Option-cases (find_mutation user dto.draft_id dto.idempotency_key s.mutations)) [
        | inr (m, found) ↦ elim (Bool-cases (str_eq m.request_hash (request_hash dto))) [
          | inl same ↦ inl (
            m,
            found,
            (str_eq_iff m.request_hash (request_hash dto)).0 same,
            sym (answered-injective (rw (found, update_read, same) at e)),
          )
          | inr reused ↦ cc (rw (found, update_read, reused) at e)
        ]
        | inl fresh ↦
            let e0 = rw (fresh, update_read) at e in
            let (loaded, loads, e1) =
              bind-answered (load_draft user document_id dto.draft_id s) _ e0 in
            let (p, prepares, e2) =
              bind-answered
                (prepare normalize fits request_hash json_bytes now dto
                  (profile_revision user s.profiles) loaded.0 loaded.1)
                _ e1 in
            inr (
              p,
              fresh,
              ap (λ d. d.id)
                    (prepare-draft now dto (profile_revision user s.profiles) loaded.0 loaded.1 p
                      prepares)
                  ∙ load_draft-id user document_id dto.draft_id s loaded.0 loaded.1 loads,
              sym (answered-injective e2),
            )
      ]

  -- The transaction stores its answer under the key of the request.
  pub commit-stored :
      (now user document_id : ℕ) (dto : UpdateDraft V) (p : Prepared V) (s s' : Store V)
      (view : DraftView V)
      → find_mutation user dto.draft_id dto.idempotency_key s.mutations ≡ none
      → p.draft.id ≡ dto.draft_id
      → update_commit normalize fits request_hash json_bytes now user document_id dto p s
        ≡ answered (view, s')
      → (m : Mutation V) × (find_mutation user dto.draft_id dto.idempotency_key s'.mutations
          ≡ some m)
        × (m.request_hash ≡ request_hash dto)
        × (m.response ≡ view)
  unfolding update_commit
  commit-stored now user document_id dto p s s' view fresh same e =
      elim (Bool-cases (
        any
          (is_target normalize fits request_hash json_bytes now user document_id p.draft.id
            dto.expected_review_revision)
          s.drafts)) [
            | inr missed ↦ cc (rw (missed, update_commit, commit_missed, fresh) at e)
            | inl hit ↦
                elim (Option-cases (
                  find_draft p.draft.id (
                    drafts_after normalize fits request_hash json_bytes now user document_id dto p
                      s))) [
                        | inl gone ↦ cc (rw (hit, update_commit, gone) at e)
                        | inr (updated, found) ↦
                            let done = answered-injective (rw (hit, update_commit, found) at e) in
                            let shown = serialize p.document updated p.profile_revision in
                            let m =
                              mutation_of normalize fits request_hash json_bytes now user
                                document_id dto p shown in
                            let stored : find_mutation user dto.draft_id dto.idempotency_key
                                  (m ∷ s.mutations)
                                ≡ some m =
                              rw (==_refl user) (
                                rw same (
                                  rw (==_refl dto.draft_id)
                                    (rw (str_eq_refl dto.idempotency_key) refl))) in
                            (
                              m,
                              subst
                                  (λ t.
                                    find_mutation user dto.draft_id dto.idempotency_key
                                      t.1.mutations
                                    ≡ some m)
                                  done stored,
                              refl,
                              ap (λ t. t.0) done,
                            )
                      ]
          ]

  -- What a transaction that succeeds leaves of the drafts.
  pub commit-drafts :
      (now user document_id : ℕ) (dto : UpdateDraft V) (p : Prepared V) (s s' : Store V)
      (view : DraftView V)
      → find_mutation user dto.draft_id dto.idempotency_key s.mutations ≡ none
      → update_commit normalize fits request_hash json_bytes now user document_id dto p s
        ≡ answered (view, s')
      → s'.drafts ≡ drafts_after normalize fits request_hash json_bytes now user document_id dto p s
  unfolding update_commit
  commit-drafts now user document_id dto p s s' view fresh e =
      elim (Bool-cases (
        any
          (is_target normalize fits request_hash json_bytes now user document_id p.draft.id
            dto.expected_review_revision)
          s.drafts)) [
            | inr missed ↦ cc (rw (missed, update_commit, commit_missed, fresh) at e)
            | inl hit ↦
                elim (Option-cases (
                  find_draft p.draft.id (
                    drafts_after normalize fits request_hash json_bytes now user document_id dto p
                      s))) [
                        | inl gone ↦ cc (rw (hit, update_commit, gone) at e)
                        | inr (updated, found) ↦ sym (
                            ap (λ (t : DraftView V × Store V). t.1.drafts)
                              (answered-injective (rw (hit, update_commit, found) at e)))
                      ]
          ]

  pub no_target :
      (now later user document_id : ℕ) (dto : UpdateDraft V) (p : Prepared V) (d : Draft V)
      → is_target normalize fits request_hash json_bytes later user document_id p.draft.id
          dto.expected_review_revision
          (if is_target normalize fits request_hash json_bytes now user document_id p.draft.id
              dto.expected_review_revision d
            then reviewed_draft normalize fits request_hash json_bytes now p.next_items d
            else d)
        ≡ false
  no_target now later user document_id dto p d = ground arith
