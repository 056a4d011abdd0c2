-- ===== src/Resume/Review/Laws.antt =====
-- What a review can and cannot do.
use rolebrief.Common.{
  ℕ, suc, ◌+◌, Bool, true, false, not, ◌&&◌, ◌||◌, Option, List, [], ◌∷◌, String, All, ◌==◌, ◌≡◌,
  ◌↔◌, refl, sym, ◌∙◌, arith, Bool-cases, inl, inr,
}
use rolebrief.Resume.Review.{
  Category, pending, accepted, edited_accepted, Item, Operation, reviewed, is_state, is_reviewable,
  apply_review_operation, count, review_summary,
}

-- Where an operation is carried out, an item that it accepts, edited or not, is one that may be
-- reviewed; and the item keeps its identifier, its classification and its suggested value, and is no
-- longer pending.
pub apply_review_operation-guards :
    {V : Type 0} (normalize : ℕ → String → String) (fits : Category → V → Option V) (now : ℕ)
    (item after : Item V) (operation : Operation V)
    → apply_review_operation normalize fits now item operation ≡ reviewed after
    → ((is_state after.review_state accepted || is_state after.review_state edited_accepted) ≡ true
        → is_reviewable item ≡ true)
      × (is_state after.review_state pending ≡ false)
      × (after.id ≡ item.id)
      × (after.classification ≡ item.classification)
      × (after.suggested_value ≡ item.suggested_value)
unfolding apply_review_operation
apply_review_operation-guards normalize fits now item after operation h = ground arith

suc_ne_zero : (n : ℕ) → (suc n == 0) ≡ false
suc_ne_zero n = ground arith

-- A count is zero exactly when no entry passes.
count-zero_iff :
    {V : Type 0} (p q : Item V → Bool) (items : List (Item V))
    → ((count (λ a. p a && q a) items == 0) ≡ true) ↔ All (λ a. p a ≡ true → q a ≡ false) items
count-zero_iff p q [] = ((λ _. tt), λ _. refl)
count-zero_iff p q (a ∷ items) =
    let (zero_all, all_zero) = count-zero_iff p q items in
    elim (Bool-cases (p a)) [
      | inl holds ↦ elim (Bool-cases (q a)) [
        | inl both ↦ (
          (λ h. cc (sym (suc_ne_zero _) ∙ (rw (holds, both) at h))),
          λ h. cc (sym both ∙ h.0 holds),
        )
        | inr out ↦
            (rw (holds, out) (λ h. ((λ _. refl), zero_all h)), λ h. rw (holds, out) (all_zero h.1))
      ]
      | inr fails ↦ (rw fails (λ h. ((λ e. cc), zero_all h)), λ h. rw fails (all_zero h.1))
    ]

review_summary-complete_iff :
    {V : Type 0} (items : List (Item V))
    → ((review_summary items).review_complete ≡ true)
      ↔ All (λ a. is_reviewable a ≡ true → is_state a.review_state pending ≡ false) items
unfolding review_summary
review_summary-complete_iff items =
    count-zero_iff is_reviewable (λ a. is_state a.review_state pending) items

review_summary-partition :
    {V : Type 0} (items : List (Item V))
    → let s = review_summary items in
      s.total_items
      ≡ s.pending
        + s.accepted
        + s.edited
        + s.rejected
        + s.categorized
        + count (λ a. not (is_reviewable a) && is_state a.review_state pending) items
unfolding review_summary
review_summary-partition [] = refl
review_summary-partition (a ∷ items) = ground (arith, review_summary-partition items)

-- A review is reported as complete exactly when no item that may be reviewed is pending; and the counts
-- of a summary cover the items: every item is accepted, edited, rejected, categorized, pending, or
-- pending and not to be reviewed.
pub review_summary_lem :
    {V : Type 0} (items : List (Item V))
    → let s = review_summary items in
      ((s.review_complete ≡ true)
        ↔ All (λ a. is_reviewable a ≡ true → is_state a.review_state pending ≡ false) items)
      × (s.total_items
          ≡ s.pending
            + s.accepted
            + s.edited
            + s.rejected
            + s.categorized
            + count (λ a. not (is_reviewable a) && is_state a.review_state pending) items)
review_summary_lem items = (review_summary-complete_iff items, review_summary-partition items)
