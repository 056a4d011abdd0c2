-- ===== src/Notifications/Walk.antt =====
-- A client of `listNotifications` (backend/src/modules/notifications/notifications.service.ts) that
-- follows the cursors.
use mathlib.Core.List.{Perm}
use mathlib.Core.Option
use rolebrief.Common.{
  ℕ, ◌≤◌, ◌<◌, Bool, true, ◌&&◌, Option, none, some, List, map, String, keep, Pairs, keep-and,
  keep-true, length, ◌≡◌, ◌≢◌, refl, ap, ◌∙◌, arith, utf16_length, or_else,
}
use rolebrief.Common.Sort.{sort, IsInOrder}
use rolebrief.Common.Paging.{follow, follow-pages, page_of, with_cursor}
use rolebrief.Common.Paging.Keyset
use rolebrief.Cursors.{Codec, IsCodec, accepted, refused, encode-long, token_of, token_of-truthy}
use rolebrief.Notifications.Cursor.{
  NotificationCursorPayload, ParsedNotificationCursor, parsed_of, encode_notification_cursor,
  decode_notification_cursor-encode,
}
use rolebrief.Notifications.Service.{
  Notification, SerializedNotification, NotificationsQuery, serialized, is_listed, created_at,
  id_of, cursor_boundary, payload_of, next_cursor, list_notifications,
}

module _ (parse_date : String → ℕ) (to_iso : ℕ → String)
    (codec : Codec NotificationCursorPayload ParsedNotificationCursor) (secret : String) (user : ℕ)
    (q : NotificationsQuery) (table : List Notification) where
  -- What a client learns from the answer to a cursor.
  unfoldable pub fetch : Option String → Option (List SerializedNotification × Option String)
  fetch c =
      elim (list_notifications parse_date to_iso codec secret user (record q { cursor = c })
        table) [ refused e ↦ none | accepted r ↦ some (r.items, r.next_cursor) ]

  abbrev matches : Notification → Bool
  matches = is_listed user q.unread_only

  abbrev limit : ℕ
  limit = or_else q.limit 20

  abbrev pub rows : List Notification
  rows = Keyset.find_many created_at id_of matches table

  abbrev token : Notification → String
  token n = token_of codec secret (payload_of parse_date to_iso codec secret user n)

  next_cursor-long :
      (last : Option Notification)
      → 16 ≤ utf16_length secret
      → next_cursor parse_date to_iso codec secret user last ≡ accepted (Option.map token last)
  unfolding next_cursor encode_notification_cursor
  next_cursor-long none h = refl
  next_cursor-long (some n) h =
      rw
        (
          encode-long codec parsed_of secret (payload_of parse_date to_iso codec secret user n) h,
          next_cursor,
        )
        refl

  fetch-boundary :
      (c : Option String) (boundary : Notification → Bool)
      → 16 ≤ utf16_length secret
      → cursor_boundary parse_date to_iso codec secret user c ≡ accepted boundary
      → fetch c ≡ some (with_cursor token (page_of serialized limit (keep boundary rows)))
  unfolding fetch list_notifications
  fetch-boundary c boundary h e =
      let page =
        page_of serialized limit
          (Keyset.find_many created_at id_of (λ n. matches n && boundary n) table) in
      rw (e, fetch, list_notifications, next_cursor-long page.1 h)
        (ap (λ rs. some (with_cursor token (page_of serialized limit rs)))
          (keep-and matches boundary (sort (Keyset.newest_first created_at id_of) table)))

  boundary-token :
      (l : Notification)
      → ((t : ℕ) → parse_date (to_iso t) ≡ t)
      → IsCodec codec parsed_of
      → 16 ≤ utf16_length secret
      → cursor_boundary parse_date to_iso codec secret user (some (token l))
        ≡ accepted (Keyset.stands_behind created_at id_of l)
  unfolding cursor_boundary encode_notification_cursor
  boundary-token l dates c h =
      let p = payload_of parse_date to_iso codec secret user l in
      rw (token_of-truthy codec parsed_of secret p c, cursor_boundary)
        (rw
          (decode_notification_cursor-encode codec p secret (token l) c
            (encode-long codec parsed_of secret p h))
          (rw (dates l.created_at) refl))

  fetch-first :
      16 ≤ utf16_length secret
      → fetch none ≡ some (with_cursor token (page_of serialized limit rows))
  unfolding cursor_boundary
  fetch-first h =
      fetch-boundary none (λ n. true) h refl
      ∙ ap (λ rs. some (with_cursor token (page_of serialized limit rs))) (keep-true rows)

  -- The pages of a user's notifications, followed from the first one by the cursors that the answers
  -- carry, show each of them once, or each unread one where only those are asked for, and the newest
  -- first, as long as the table stays the same; one request more than the table has notifications is
  -- always enough. The identifiers of the notifications must be distinct, the limit positive, as the
  -- query's validation asks, the secret must have 16 characters, and dates and payloads be read back
  -- as printed.
  pub follow-list_notifications :
      (fuel : ℕ)
      → 0 < limit
      → ((t : ℕ) → parse_date (to_iso t) ≡ t)
      → IsCodec codec parsed_of
      → 16 ≤ utf16_length secret
      → Pairs (λ a b. id_of a ≢ id_of b) table
      → length table < fuel
      → (follow fetch fuel none ≡ some (map serialized rows))
        × IsInOrder (Keyset.newest_first created_at id_of) rows
        × Perm rows (keep matches table)
  follow-list_notifications fuel p dates c h apart enough = (
    follow-pages serialized token limit (Keyset.stands_behind created_at id_of) fetch rows fuel p
        (Keyset.behind_self created_at id_of)
        (Keyset.find_many-IsChain created_at id_of matches table apart)
        (
          fetch-first h,
          λ l.
              fetch-boundary (some (token l)) (Keyset.stands_behind created_at id_of l) h
                (boundary-token l dates c h),
        )
        (omega (arith, Keyset.length-find_many created_at id_of matches table)),
    Keyset.find_many-IsInOrder created_at id_of matches table,
    Keyset.find_many-perm created_at id_of matches table,
  )
