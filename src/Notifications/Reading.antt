-- ===== src/Notifications/Reading.antt =====
-- Reading notifications: `markAsRead`, `markAllAsRead` and `getUnreadCount` of
-- backend/src/modules/notifications/notifications.service.ts.
use rolebrief.Common.{
  ℕ, true, List, [], ◌∷◌, map, ◌==◌, keep, keep-map, All-intro, length, if◌then◌else◌, ◌≡◌, ◌≢◌,
  refl, ap, arith, Bool-cases, inl, inr,
}
use rolebrief.Notifications.Service.{
  Notification, is_unread_of, get_unread_count, set_read, mark_all_as_read,
}

none_unread :
    (now user : ℕ) (rows : List Notification)
    → keep (is_unread_of user) (map (λ n. if is_unread_of user n then set_read now n else n) rows)
      ≡ []
none_unread now user [] = refl
none_unread now user (n ∷ rows) = elim (Bool-cases (is_unread_of user n)) [
  | inl unread ↦ rw unread (ground (arith, none_unread now user rows))
  | inr was_read ↦ rw (was_read, is_unread_of) (rw was_read (none_unread now user rows))
]

untouched :
    (now user other : ℕ) (n : Notification)
    → other ≢ user
    → (((if is_unread_of user n then set_read now n else n).user_id == other)
        ≡ (n.user_id == other))
      × ((n.user_id == other) ≡ true → (if is_unread_of user n then set_read now n else n) ≡ n)
untouched now user other n apart = ground arith

untouched_unread :
    (now user other : ℕ) (n : Notification)
    → other ≢ user
    → (is_unread_of other (if is_unread_of user n then set_read now n else n)
        ≡ is_unread_of other n)
      × (is_unread_of other n ≡ true → (if is_unread_of user n then set_read now n else n) ≡ n)
untouched_unread now user other n apart = ground arith

-- Marking all of a user's notifications as read reports how many were unread, leaves none of the
-- user's unread, and leaves every other user's notifications and count as they were.
pub mark_all_as_read_lem :
    (now user other : ℕ) (rows : List Notification)
    → other ≢ user
    → let (count, left) = mark_all_as_read now user rows in
      (count ≡ get_unread_count user rows)
      × (get_unread_count user left ≡ 0)
      × (keep (λ n. n.user_id == other) left ≡ keep (λ n. n.user_id == other) rows)
      × (get_unread_count other left ≡ get_unread_count other rows)
unfolding mark_all_as_read get_unread_count
mark_all_as_read_lem now user other rows apart = (
  refl,
  ap length (none_unread now user rows),
  keep-map _ _ rows (All-intro _ rows (λ n. untouched now user other n apart)),
  ap length (keep-map _ _ rows (All-intro _ rows (λ n. untouched_unread now user other n apart))),
)
