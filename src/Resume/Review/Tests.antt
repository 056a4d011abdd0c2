-- ===== src/Resume/Review/Tests.antt =====
-- A review of three items; the values are texts.
use rolebrief.Common.{ℕ, true, false, ◌||◌, Option, none, some, List, [], ◌∷◌, String, ◌≡◌, refl}
use rolebrief.Resume.Review.{
  extracted_confidently, sensitive_excluded, pending, accepted, edited_accepted, accept, skill,
  Category, decided_accept, Item, Operation, reviewed, refused, sensitive_item_not_acceptable,
  canonical_category, is_state, is_reviewable, apply_review_operation,
}
use rolebrief.Resume.Review.Laws.{apply_review_operation-guards}

abbrev same_text : ℕ → String → String
same_text max s = s

abbrev any_value : Category → String → Option String
any_value category v = some v

abbrev found_skill : Item String
found_skill = record {
  id = "a";
  category = "skills";
  classification = extracted_confidently;
  suggested_value = some "Go";
  review_state = pending;
  review_decision = none;
}

abbrev birth_date : Item String
birth_date = record found_skill { id = "b"; classification = sensitive_excluded }

abbrev take_it : Operation String
take_it = record {
  item_id = "a";
  action = accept;
  target_category = none;
  edited_value = none;
  custom_label = none;
  note = none;
}

abbrev taken_skill : Item String
taken_skill = record found_skill {
  review_state = accepted;
  review_decision = some (decided_accept skill "Go" none 7);
}

takes : apply_review_operation same_text any_value 7 found_skill take_it ≡ reviewed taken_skill
unfolding apply_review_operation canonical_category
takes = refl

stays_out :
    apply_review_operation same_text any_value 7 birth_date take_it
    ≡ refused sensitive_item_not_acceptable
unfolding apply_review_operation
stays_out = refl

apply_review_operation-guards_example :
    ((is_state taken_skill.review_state accepted
          || is_state taken_skill.review_state edited_accepted)
        ≡ true
      → is_reviewable found_skill ≡ true)
    × (is_state taken_skill.review_state pending ≡ false)
    × (taken_skill.id ≡ found_skill.id)
    × (taken_skill.classification ≡ found_skill.classification)
    × (taken_skill.suggested_value ≡ found_skill.suggested_value)
apply_review_operation-guards_example =
    apply_review_operation-guards same_text any_value 7 found_skill taken_skill take_it takes

abbrev items : List (Item String)
items = taken_skill ∷ birth_date ∷ found_skill ∷ []
