-- ===== src/Resume/Review.antt =====
-- backend/src/modules/resumes/review/review-policy.ts and review-summary.ts: what a candidate may do
-- with an item that was found in the resume. The values are those of JSON; the schemas that an edited
-- value must fit (zod, `validateEditedValue`) and `normalizeOptionalText` are parameters.
use rolebrief.Common.{
  ℕ, Bool, true, false, not, ◌&&◌, ◌||◌, Option, none, some, List, String, str_eq, length, keep,
  ◌==◌, if◌then◌else◌, or_else,
}
pub mod Laws
mod Tests

pub data Classification : Type 0 where
  extracted_confidently needs_confirmation other_information_found : Classification
  unsupported_or_unreadable sensitive_excluded : Classification

pub data ReviewState : Type 0 where
  pending accepted edited_accepted rejected categorized : ReviewState

pub data Action : Type 0 where
  accept edit_and_accept reject categorize : Action

pub data Category : Type 0 where
  identity contact summary employment education skill project certification licence : Category
  language award publication volunteering membership research patent portfolio_link : Category
  reference additional_information custom_section unsupported sensitive : Category

abbrev pub is_sensitive_category : Category → Bool
is_sensitive_category sensitive = true
is_sensitive_category _ = false

abbrev pub is_unsupported_category : Category → Bool
is_unsupported_category unsupported = true
is_unsupported_category _ = false

abbrev pub is_sensitive : Classification → Bool
is_sensitive sensitive_excluded = true
is_sensitive _ = false

abbrev pub is_unsupported : Classification → Bool
is_unsupported unsupported_or_unreadable = true
is_unsupported _ = false

abbrev pub needs_confirming : Classification → Bool
needs_confirming needs_confirmation = true
needs_confirming _ = false

abbrev pub is_accepting : Action → Bool
is_accepting accept = true
is_accepting edit_and_accept = true
is_accepting _ = false

pub data Decision (V : Type 0) : Type 0 where
  decided_accept : Category → V → Option String → ℕ → Decision V
  decided_edit : Category → V → Option String → ℕ → Decision V
  decided_reject : Option String → ℕ → Decision V
  decided_category : Category → Option String → Option String → ℕ → Decision V

-- The fields of a draft item that a review reads or writes.
pub record Item (V : Type 0) : Type 0 where
  pub id : String
  pub category : String
  pub classification : Classification
  pub suggested_value : Option V
  pub review_state : ReviewState
  pub review_decision : Option (Decision V)

pub record Operation (V : Type 0) : Type 0 where
  pub item_id : String
  pub action : Action
  pub target_category : Option Category
  pub edited_value : Option V
  pub custom_label : Option String
  pub note : Option String

pub data ReviewError : Type 0 where
  sensitive_item_not_acceptable unsupported_item_not_acceptable : ReviewError
  item_has_no_suggested_value target_category_required : ReviewError
  sensitive_category_locked unsupported_category_locked : ReviewError
  category_not_editable edited_value_refused : ReviewError

pub data Reviewed (V : Type 0) : Type 0 where
  reviewed : Item V → Reviewed V
  refused : ReviewError → Reviewed V

-- `categoryByMapperCategory`, and CUSTOM_SECTION for any other name.
abbrev mapped_category : String → Category
mapped_category c =
    if str_eq c "contact"
    then contact
    else if str_eq c "summary"
    then summary
    else if str_eq c "experience"
    then employment
    else if str_eq c "education"
    then education
    else if str_eq c "skills"
    then skill
    else if str_eq c "projects"
    then project
    else if str_eq c "certifications"
    then certification
    else if str_eq c "languages"
    then language
    else if str_eq c "awards"
    then award
    else if str_eq c "publications"
    then publication
    else if str_eq c "volunteering"
    then volunteering
    else if str_eq c "memberships"
    then membership
    else if str_eq c "research"
    then research
    else if str_eq c "patents"
    then patent
    else if str_eq c "links"
    then portfolio_link
    else if str_eq c "references"
    then reference
    else custom_section

unfoldable pub canonical_category : Classification → String → Category
canonical_category sensitive_excluded c = sensitive
canonical_category unsupported_or_unreadable c = unsupported
canonical_category _ c = mapped_category c

module _ {V : Type 0} (normalize : ℕ → String → String) (fits : Category → V → Option V)
    (now : ℕ) where
  abbrev normalized : ℕ → Option String → Option String
  normalized max none = none
  normalized max (some t) = some (normalize max t)

  abbrev decide : Item V → ReviewState → Decision V → Reviewed V
  decide item state decision =
      reviewed (record item { review_state = state; review_decision = some decision })

  abbrev accepting : Item V → Option String → Reviewed V
  accepting item note = elim item.suggested_value [
    | none ↦ refused item_has_no_suggested_value
    | some v ↦
        decide item accepted
          (decided_accept (canonical_category item.classification item.category) v note now)
  ]

  -- A category without a schema cannot be edited; a value that is left out fits no schema.
  abbrev editing_as : Item V → Category → Option V → Option String → Reviewed V
  editing_as item category none text =
      if is_sensitive_category category || is_unsupported_category category
      then refused category_not_editable
      else refused edited_value_refused
  editing_as item category (some v) text =
      if is_sensitive_category category || is_unsupported_category category
      then refused category_not_editable
      else elim (fits category v) [
        | none ↦ refused edited_value_refused
        | some w ↦ decide item edited_accepted (decided_edit category w text now)
      ]

  abbrev editing : Item V → Operation V → Option String → Reviewed V
  editing item operation note =
      editing_as item
        (or_else operation.target_category (canonical_category item.classification item.category))
        operation.edited_value note

  abbrev categorizing : Item V → Operation V → Option String → Reviewed V
  categorizing item operation note = elim operation.target_category [
    | none ↦ refused target_category_required
    | some category ↦
        if is_sensitive item.classification && not (is_sensitive_category category)
        then refused sensitive_category_locked
        else if is_unsupported item.classification && not (is_unsupported_category category)
        then refused unsupported_category_locked
        else decide item categorized
            (decided_category category (normalized 80 operation.custom_label) note now)
  ]

  unfoldable pub apply_review_operation : Item V → Operation V → Reviewed V
  apply_review_operation item operation =
      let note = normalized 500 operation.note in
      if is_sensitive item.classification && is_accepting operation.action
      then refused sensitive_item_not_acceptable
      else if is_unsupported item.classification && is_accepting operation.action
      then refused unsupported_item_not_acceptable
      else elim operation.action [
        | accept ↦ accepting item note
        | edit_and_accept ↦ editing item operation note
        | reject ↦ decide item rejected (decided_reject note now)
        | categorize ↦ categorizing item operation note
      ]

abbrev pub is_state : ReviewState → ReviewState → Bool
is_state pending pending = true
is_state accepted accepted = true
is_state edited_accepted edited_accepted = true
is_state rejected rejected = true
is_state categorized categorized = true
is_state _ _ = false

abbrev pub is_reviewable : {V : Type 0} → Item V → Bool
is_reviewable item =
    not (is_sensitive item.classification) && not (is_unsupported item.classification)

pub record ReviewSummary : Type 0 where
  pub total_items : ℕ
  pub pending : ℕ
  pub accepted : ℕ
  pub edited : ℕ
  pub rejected : ℕ
  pub categorized : ℕ
  pub needs_confirmation : ℕ
  pub sensitive_excluded : ℕ
  pub unsupported : ℕ
  pub review_complete : Bool

-- `items.filter(p).length`
abbrev pub count : {V : Type 0} → (Item V → Bool) → List (Item V) → ℕ
count p items = length (keep p items)

unfoldable pub review_summary : {V : Type 0} → List (Item V) → ReviewSummary
review_summary items =
    let waiting =
      count (λ a. is_reviewable a && is_state a.review_state ReviewState.pending) items in
    record {
      total_items = length items;
      pending = waiting;
      accepted = count (λ a. is_state a.review_state ReviewState.accepted) items;
      edited = count (λ a. is_state a.review_state edited_accepted) items;
      rejected = count (λ a. is_state a.review_state ReviewState.rejected) items;
      categorized = count (λ a. is_state a.review_state ReviewState.categorized) items;
      needs_confirmation =
          count
            (λ a. needs_confirming a.classification && is_state a.review_state ReviewState.pending)
            items;
      sensitive_excluded = count (λ a. is_sensitive a.classification) items;
      unsupported = count (λ a. is_unsupported a.classification) items;
      review_complete = waiting == 0;
    }
