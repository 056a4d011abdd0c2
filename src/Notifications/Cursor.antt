-- ===== src/Notifications/Cursor.antt =====
-- backend/src/modules/notifications/notification-cursor.util.ts.
use rolebrief.Common.{
  ℕ, Bool, true, not, ◌||◌, Option, none, some, String, ◌≡◌, refl, ◌==◌, ==_refl, if◌then◌else◌,
}
use rolebrief.Cursors.{
  Codec, IsCodec, invalid_structure, Checked, accepted, refused, ◌>>=◌, encode, verify, read_body,
  verify-encode,
}

pub record NotificationCursorPayload : Type 0 where
  pub user_id : ℕ
  pub id : ℕ
  pub created_at : String

pub record ParsedNotificationCursor : Type 0 where
  pub is_version_1 : Bool
  pub user_id : Option ℕ
  pub id : Option ℕ
  pub created_at : Option String

-- `{ v: 1, ... }` as it is read back.
abbrev pub parsed_of : NotificationCursorPayload → ParsedNotificationCursor
parsed_of p = record {
  is_version_1 = true;
  user_id = some p.user_id;
  id = some p.id;
  created_at = some p.created_at;
}

-- The check of the structure and of the user, which report the same exception.
abbrev pub checked_structure : ℕ → ParsedNotificationCursor → Checked NotificationCursorPayload
checked_structure expected q = elim q.user_id [
  | none ↦ refused invalid_structure
  | some user ↦ elim q.id [
    | none ↦ refused invalid_structure
    | some id ↦ elim q.created_at [
      | none ↦ refused invalid_structure
      | some created ↦
          if not q.is_version_1 || not (user == expected)
          then refused invalid_structure
          else accepted (record { user_id = user; id = id; created_at = created })
    ]
  ]
]

module _ (codec : Codec NotificationCursorPayload ParsedNotificationCursor) where
  unfoldable pub encode_notification_cursor : NotificationCursorPayload → String → Checked String
  encode_notification_cursor payload secret = encode codec secret payload

  unfoldable pub decode_notification_cursor :
      String → String → ℕ → Checked NotificationCursorPayload
  decode_notification_cursor cursor secret user = do
    body ← verify codec secret cursor
    q ← read_body codec body
    checked_structure user q

  pub decode_notification_cursor-encode :
      (p : NotificationCursorPayload) (secret token : String)
      → IsCodec codec parsed_of
      → encode_notification_cursor p secret ≡ accepted token
      → decode_notification_cursor token secret p.user_id ≡ accepted p
  unfolding encode_notification_cursor decode_notification_cursor
  decode_notification_cursor-encode p secret token c e =
      let (signed, parsed) = verify-encode codec parsed_of secret p token c e in
      rw (signed, decode_notification_cursor) (rw parsed (rw (==_refl p.user_id) refl))
