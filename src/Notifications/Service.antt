-- ===== src/Notifications/Service.antt =====
-- backend/src/modules/notifications/notifications.service.ts on the table of the notifications.
-- Instants stay numbers where the source prints them by `toISOString`; the type and the metadata of a
-- notification are passed on as they are.
use rolebrief.Common.{
  ℕ, Bool, true, false, not, ◌&&◌, Option, none, some, List, String, ◌==◌, keep, find, map, truthy,
  length, or_else, is_some, if◌then◌else◌,
}
use rolebrief.Common.Paging.{has_next, page_of}
use rolebrief.Common.Paging.Keyset
use rolebrief.Cursors.{Codec, Checked, accepted, ◌>>=◌}
use rolebrief.Notifications.Cursor.{
  NotificationCursorPayload, ParsedNotificationCursor, encode_notification_cursor,
  decode_notification_cursor,
}

pub record Notification : Type 0 where
  pub id : ℕ
  pub user_id : ℕ
  pub kind : String
  pub title : String
  pub body : String
  pub link_url : Option String
  pub metadata : Option String
  pub read_at : Option ℕ
  pub created_at : ℕ

pub record SerializedNotification : Type 0 where
  pub id : ℕ
  pub kind : String
  pub title : String
  pub body : String
  pub link_url : Option String
  pub read_at : Option ℕ
  pub created_at : ℕ
  pub metadata : Option String

pub record NotificationsQuery : Type 0 where
  pub cursor : Option String
  pub limit : Option ℕ
  pub unread_only : Bool

pub record PaginatedNotifications : Type 0 where
  pub items : List SerializedNotification
  pub next_cursor : Option String
  pub has_more : Bool
  pub unread_count : ℕ

abbrev pub serialized : Notification → SerializedNotification
serialized n = record {
  id = n.id;
  kind = n.kind;
  title = n.title;
  body = n.body;
  link_url = n.link_url;
  read_at = n.read_at;
  created_at = n.created_at;
  metadata = n.metadata;
}

-- `{ userId, readAt: null }`
abbrev pub is_unread_of : ℕ → Notification → Bool
is_unread_of user n = n.user_id == user && not (is_some n.read_at)

-- `where`, before the boundary of a cursor: all of the user's, or the unread ones.
abbrev pub is_listed : ℕ → Bool → Notification → Bool
is_listed user unread_only n = if unread_only then is_unread_of user n else n.user_id == user

abbrev pub created_at : Notification → ℕ
created_at n = n.created_at

abbrev pub id_of : Notification → ℕ
id_of n = n.id

unfoldable pub get_unread_count : ℕ → List Notification → ℕ
get_unread_count user rows = length (keep (is_unread_of user) rows)

module _ (parse_date : String → ℕ) (to_iso : ℕ → String)
    (codec : Codec NotificationCursorPayload ParsedNotificationCursor) (secret : String) where
  unfoldable pub cursor_boundary : ℕ → Option String → Checked (Notification → Bool)
  cursor_boundary user cursor = elim cursor [
    | none ↦ accepted (λ n. true)
    | some token ↦ elim (truthy token) [
      | false ↦ accepted (λ n. true)
      | true ↦ do
        p ← decode_notification_cursor codec token secret user
        accepted (Keyset.is_behind created_at id_of (parse_date p.created_at) p.id)
    ]
  ]

  abbrev pub payload_of : ℕ → Notification → NotificationCursorPayload
  payload_of user n = record { user_id = user; id = n.id; created_at = to_iso n.created_at }

  unfoldable pub next_cursor : ℕ → Option Notification → Checked (Option String)
  next_cursor user last = elim last [
    | none ↦ accepted none
    | some n ↦ do
      token ← encode_notification_cursor codec (payload_of user n) secret
      accepted (some token)
  ]

  unfoldable pub list_notifications :
      ℕ → NotificationsQuery → List Notification → Checked PaginatedNotifications
  list_notifications user q table = do
    let limit = or_else q.limit 20
    let matches = is_listed user q.unread_only
    boundary ← cursor_boundary user q.cursor
    let rows = Keyset.find_many created_at id_of (λ n. matches n && boundary n) table
    let page = page_of serialized limit rows
    next ← next_cursor user page.1
    accepted (record {
      items = page.0;
      next_cursor = next;
      has_more = has_next serialized limit rows;
      unread_count = get_unread_count user table;
    })

-- `update({ where: { id }, data: { readAt } })`
abbrev pub set_read : ℕ → Notification → Notification
set_read now n = record n { read_at = some now }

-- `markAsRead`: no answer where the source reports that there is no such notification. The first
-- reading of a notification counts.
unfoldable pub mark_as_read :
    ℕ → ℕ → ℕ → List Notification → Option (SerializedNotification × List Notification)
mark_as_read now user id rows = elim (find (λ n. n.id == id && n.user_id == user) rows) [
  | none ↦ none
  | some existing ↦ elim existing.read_at [
    | some at ↦ some (serialized existing, rows)
    | none ↦ some (
      serialized (set_read now existing),
      map (λ n. if n.id == id then set_read now n else n) rows,
    )
  ]
]

-- `markAllAsRead`: the number of notifications that it marks.
unfoldable pub mark_all_as_read : ℕ → ℕ → List Notification → ℕ × List Notification
mark_all_as_read now user rows = (
  length (keep (is_unread_of user) rows),
  map (λ n. if is_unread_of user n then set_read now n else n) rows,
)
