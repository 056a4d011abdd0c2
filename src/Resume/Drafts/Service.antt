-- ===== src/Resume/Drafts/Service.antt =====
-- `updateDraft` of backend/src/modules/resumes/review/resume-review.service.ts, without the two rate
-- limits in front of it. The hash of a request, the size of the stored JSON and the policy's schemas
-- are parameters.
use rolebrief.Common.{
  ℕ, zero, suc, ◌+◌, ◌*◌, Bool, false, not, ◌&&◌, ◌||◌, Option, none, some, List, [], ◌∷◌, map,
  String, str_eq, ltb, ◌==◌, find, any, or_else, is_some, if◌then◌else◌,
}
use rolebrief.Resume.Review.{
  Category, Item, Operation, reviewed, refused, apply_review_operation, review_summary,
}
use rolebrief.Resume.Drafts.Types.{
  Document, Draft, DraftView, Mutation, ProfileRow, Store, UpdateDraft, idempotency_key_reused,
  draft_not_found, not_ready_for_review, json_too_large, review_revision_conflict,
  duplicate_review_item, unknown_review_item, operation_refused, Answer, answered, failed, ◌>>=◌,
}

-- `validateOperations`: the first operation on an item that an earlier one names is refused.
abbrev pub first_duplicate : {V : Type 0} → List String → List (Operation V) → Option String
first_duplicate seen [] = none
first_duplicate seen (op ∷ ops) =
    let rest = first_duplicate (op.item_id ∷ seen) ops in
    if any (λ s. str_eq s op.item_id) seen then some op.item_id else rest

-- The entry of `byId`: the last item with the identifier, and where it stands.
abbrev pub entry_of : {V : Type 0} → String → ℕ → List (Item V) → Option (Item V × ℕ)
entry_of id i [] = none
entry_of id i (item ∷ items) = elim (entry_of id (suc i) items) [
  | some later ↦ some later
  | none ↦ if str_eq item.id id then some (item, i) else none
]

-- `items[i] = item`
abbrev pub set_at {ℓ} : {A : Type ℓ} → ℕ → A → List A → List A
set_at i a [] = []
set_at zero a (x ∷ xs) = a ∷ xs
set_at (suc i) a (x ∷ xs) = x ∷ set_at i a xs

-- `findUnique({ where: { userId_draftId_idempotencyKey } })`
abbrev pub find_mutation : {V : Type 0} → ℕ → ℕ → String → List (Mutation V) → Option (Mutation V)
find_mutation user draft key rows =
    find (λ m. (m.user_id == user && m.draft_id == draft) && str_eq m.idempotency_key key) rows

abbrev pub find_draft : {V : Type 0} → ℕ → List (Draft V) → Option (Draft V)
find_draft id rows = find (λ d. d.id == id) rows

abbrev pub is_current : {V : Type 0} → Document → Draft V → Bool
is_current document d = elim document.current_draft_id [ none ↦ false | some id ↦ d.id == id ]

abbrev pub profile_revision : ℕ → List ProfileRow → ℕ
profile_revision user rows = elim (find (λ p. p.user_id == user) rows) [
  | none ↦ 0
  | some p ↦ p.revision
]

-- What the first half of an update hands to its transaction.
pub record Prepared (V : Type 0) : Type 0 where
  pub document : Document
  pub draft : Draft V
  pub profile_revision : ℕ
  pub next_items : List (Item V)

pub data Read (V : Type 0) : Type 0 where
  replayed : DraftView V → Read V
  prepared : Prepared V → Read V

abbrev pub serialize : {V : Type 0} → Document → Draft V → ℕ → DraftView V
serialize document d current =
    let at_extraction = or_else d.target_profile_revision 0 in
    record {
      resume_document_id = document.id;
      is_ready = document.is_ready;
      draft_id = d.id;
      review_revision = d.review_revision;
      profile_revision_at_extraction = at_extraction;
      current_profile_revision = current;
      profile_changed_since_extraction = not (at_extraction == current);
      items = d.items;
      summary = review_summary d.items;
      updated_at = d.updated_at;
    }

-- `loadReviewableDraft`, for a draft that the request names.
abbrev pub load_draft : {V : Type 0} → ℕ → ℕ → ℕ → Store V → Answer (Document × Draft V)
load_draft user document_id draft_id s =
    elim (find (λ d. (d.id == document_id && d.user_id == user) && not (is_some d.deleted_at))
      s.documents) [
        | none ↦ failed draft_not_found
        | some document ↦
            if not document.is_ready || not (is_some document.current_draft_id)
            then failed not_ready_for_review
            else elim (find (λ d. d.id == draft_id && d.resume_document_id == document.id)
                s.drafts) [
                  | none ↦ failed draft_not_found
                  | some d ↦
                      if not d.is_ready || not (is_current document d)
                      then failed draft_not_found
                      else answered (document, d)
                ]
      ]

module _ {V : Type 0} (normalize : ℕ → String → String) (fits : Category → V → Option V)
    (request_hash : UpdateDraft V → String) (json_bytes : List (Item V) → ℕ) (now : ℕ) where
  -- The loop over the operations: each is applied to the item as it was stored.
  abbrev pub apply_operations :
      List (Item V) → List (Operation V) → List (Item V) → Answer (List (Item V))
  apply_operations items [] next = answered next
  apply_operations items (op ∷ ops) next = elim (entry_of op.item_id 0 items) [
    | none ↦ failed (unknown_review_item op.item_id)
    | some (item, i) ↦ elim (apply_review_operation normalize fits now item op) [
      | refused e ↦ failed (operation_refused e)
      | reviewed changed ↦ apply_operations items ops (set_at i changed next)
    ]
  ]

  abbrev pub checked_size : List (Item V) → Answer (List (Item V))
  checked_size items =
      if ltb 1500000 (json_bytes items) then failed json_too_large else answered items

  abbrev pub prepare : UpdateDraft V → ℕ → Document → Draft V → Answer (Prepared V)
  prepare dto revision document d =
      if not (d.review_revision == dto.expected_review_revision)
      then failed (review_revision_conflict dto.expected_review_revision d.review_revision)
      else elim (first_duplicate [] dto.operations) [
        | some id ↦ failed (duplicate_review_item id)
        | none ↦ do
          next ← apply_operations d.items dto.operations d.items
          items ← checked_size next
          answered (record {
            document = document;
            draft = d;
            profile_revision = revision;
            next_items = items;
          })
      ]

  -- `updateDraft` up to its transaction: a replay, or what the transaction writes.
  unfoldable pub update_read : ℕ → ℕ → UpdateDraft V → Store V → Answer (Read V)
  update_read user document_id dto s =
      elim (find_mutation user dto.draft_id dto.idempotency_key s.mutations) [
        | some m ↦
            if str_eq m.request_hash (request_hash dto)
            then answered (replayed m.response)
            else failed idempotency_key_reused
        | none ↦ do
          loaded ← load_draft user document_id dto.draft_id s
          p ← prepare dto (profile_revision user s.profiles) loaded.0 loaded.1
          answered (prepared p)
      ]

  -- `updateMany({ where: { id, userId, resumeDocumentId, status, reviewRevision } })`
  abbrev pub is_target : ℕ → ℕ → ℕ → ℕ → Draft V → Bool
  is_target user document_id id revision d =
      ((d.id == id && d.user_id == user) && (d.resume_document_id == document_id && d.is_ready))
      && d.review_revision == revision

  abbrev pub reviewed_draft : List (Item V) → Draft V → Draft V
  reviewed_draft items d =
      let summary = review_summary items in
      record d {
        items = items;
        review = some summary;
        review_revision = suc d.review_revision;
        reviewed_at = if summary.review_complete then some now else none;
        updated_at = now;
      }

  abbrev pub mutation_of : ℕ → ℕ → UpdateDraft V → Prepared V → DraftView V → Mutation V
  mutation_of user document_id dto p view = record {
    user_id = user;
    resume_document_id = document_id;
    draft_id = p.draft.id;
    idempotency_key = dto.idempotency_key;
    request_hash = request_hash dto;
    response = view;
    expires_at = now + 7 * 24 * 60 * 60 * 1000;
  }

  abbrev pub current_revision : Draft V → Store V → ℕ
  current_revision d s = elim (find_draft d.id s.drafts) [
    | none ↦ d.review_revision
    | some fresh ↦ fresh.review_revision
  ]

  -- The transaction found no draft at the expected revision.
  abbrev pub commit_missed :
      ℕ → UpdateDraft V → Prepared V → Store V → Answer (DraftView V × Store V)
  commit_missed user dto p s =
      let conflict : Answer (DraftView V × Store V) =
        failed
          (review_revision_conflict dto.expected_review_revision (current_revision p.draft s)) in
      elim (find_mutation user dto.draft_id dto.idempotency_key s.mutations) [
        | none ↦ conflict
        | some m ↦
            if str_eq m.request_hash (request_hash dto) then answered (m.response, s) else conflict
      ]

  abbrev pub drafts_after : ℕ → ℕ → UpdateDraft V → Prepared V → Store V → List (Draft V)
  drafts_after user document_id dto p s =
      map
        (λ d.
          if is_target user document_id p.draft.id dto.expected_review_revision d
          then reviewed_draft p.next_items d
          else d)
        s.drafts

  -- The transaction of `updateDraft`.
  unfoldable pub update_commit :
      ℕ → ℕ → UpdateDraft V → Prepared V → Store V → Answer (DraftView V × Store V)
  update_commit user document_id dto p s =
      if any (is_target user document_id p.draft.id dto.expected_review_revision) s.drafts
      then (elim (find_draft p.draft.id (drafts_after user document_id dto p s)) [
        | none ↦ failed draft_not_found
        | some updated ↦
            let view = serialize p.document updated p.profile_revision in
            answered (
              view,
              record s {
                drafts = drafts_after user document_id dto p s;
                mutations = mutation_of user document_id dto p view ∷ s.mutations;
              },
            )
      ])
      else commit_missed user dto p s

  -- `updateDraft`, with no other request between its halves.
  unfoldable pub update_draft : ℕ → ℕ → UpdateDraft V → Store V → Answer (DraftView V × Store V)
  update_draft user document_id dto s = do
    read ← update_read user document_id dto s
    elim read [
      | replayed view ↦ answered (view, s)
      | prepared p ↦ update_commit user document_id dto p s
    ]
