-- ===== src/Resume/Drafts/Tests.antt =====
-- Updates of a draft with one item.
use rolebrief.Common.{ℕ, true, Option, none, some, List, [], ◌∷◌, String, ◌≡◌, refl, length}
use rolebrief.Resume.Review.{
  Category, skill, Item, extracted_confidently, pending, accepted, decided_accept, Operation,
  accept, reject, apply_review_operation, canonical_category,
}
use rolebrief.Resume.Drafts.Types.{
  Document, Draft, DraftView, Store, UpdateDraft, review_revision_conflict, duplicate_review_item,
  answered, failed,
}
use rolebrief.Resume.Drafts.Service.{
  update_draft, update_commit, current_revision, Prepared, update_read, reviewed_draft, serialize,
  mutation_of,
}
use rolebrief.Resume.Drafts.Laws.{update_draft_again, draft_committed_once}

abbrev keep_text : ℕ → String → String
keep_text max s = s

abbrev any_value : Category → String → Option String
any_value c v = some v

abbrev key_hash : UpdateDraft String → String
key_hash dto = dto.idempotency_key

abbrev item_count : List (Item String) → ℕ
item_count items = length items

abbrev found_skill : Item String
found_skill = record {
  id = "a";
  category = "skills";
  classification = extracted_confidently;
  suggested_value = some "Haskell";
  review_state = pending;
  review_decision = none;
}

abbrev resume : Document
resume = record {
  id = 1;
  user_id = 7;
  deleted_at = none;
  is_ready = true;
  current_draft_id = some 3;
}

abbrev draft : Draft String
draft = record {
  id = 3;
  user_id = 7;
  resume_document_id = 1;
  is_ready = true;
  review_revision = 0;
  target_profile_revision = none;
  items = found_skill ∷ [];
  review = none;
  reviewed_at = none;
  updated_at = 2;
}

abbrev tables : Store String
tables = record { documents = resume ∷ []; drafts = draft ∷ []; mutations = []; profiles = [] }

abbrev take_it : Operation String
take_it = record {
  item_id = "a";
  action = accept;
  target_category = none;
  edited_value = none;
  custom_label = none;
  note = none;
}

abbrev accepting_update : UpdateDraft String
accepting_update = record {
  draft_id = 3;
  expected_review_revision = 0;
  idempotency_key = "k";
  operations = take_it ∷ [];
}

abbrev rejecting_update : UpdateDraft String
rejecting_update = record accepting_update {
  idempotency_key = "l";
  operations = record take_it { action = reject } ∷ [];
}

abbrev taken_skill : Item String
taken_skill = record found_skill {
  review_state = accepted;
  review_decision = some (decided_accept skill "Haskell" none 5);
}

abbrev to_write : Prepared String
to_write = record {
  document = resume;
  draft = draft;
  profile_revision = 0;
  next_items = taken_skill ∷ [];
}

abbrev draft_after : Draft String
draft_after = reviewed_draft keep_text any_value key_hash item_count 5 (taken_skill ∷ []) draft

abbrev view : DraftView String
view = serialize resume draft_after 0

abbrev tables_after : Store String
tables_after = record tables {
  drafts = draft_after ∷ [];
  mutations =
      mutation_of keep_text any_value key_hash item_count 5 7 1 accepting_update to_write view ∷ [];
}

accepts :
    update_draft keep_text any_value key_hash item_count 5 7 1 accepting_update tables
    ≡ answered (view, tables_after)
unfolding update_draft update_read update_commit apply_review_operation canonical_category
accepts = refl

update_draft_again_example :
    update_draft keep_text any_value key_hash item_count 9 7 1 accepting_update tables_after
    ≡ answered (view, tables_after)
update_draft_again_example =
    update_draft_again keep_text any_value key_hash item_count 5 9 7 1 accepting_update tables
      tables_after view accepts

commits :
    update_commit keep_text any_value key_hash item_count 5 7 1 accepting_update to_write tables
    ≡ answered (view, tables_after)
unfolding update_commit
commits = refl

draft_committed_once_example :
    update_commit keep_text any_value key_hash item_count 9 7 1 rejecting_update to_write
      tables_after
    ≡ failed (
        review_revision_conflict 0
          (current_revision keep_text any_value key_hash item_count 9 draft tables_after))
draft_committed_once_example =
    draft_committed_once keep_text any_value key_hash item_count 5 9 7 1 accepting_update
      rejecting_update to_write to_write tables tables_after view refl commits refl refl refl

-- An item may be named once in an update.
twice_test :
    update_draft keep_text any_value key_hash item_count 5 7 1
      (record accepting_update { operations = take_it ∷ take_it ∷ [] })
      tables
    ≡ failed (duplicate_review_item "a")
unfolding update_draft update_read
twice_test = refl
