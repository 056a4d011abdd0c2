-- ===== src/Notifications/Tests.antt =====
-- Notifications of two users, with a sample notation for payloads and dates.
use mathlib.Core.List.{Perm}
use rolebrief.Common.{
  ℕ, true, false, Option, none, some, List, [], ◌∷◌, map, keep, ◌≡◌, refl, arith,
}
use rolebrief.Common.Sort.{IsInOrder}
use rolebrief.Common.Paging.{follow}
use rolebrief.Common.Paging.Keyset
use rolebrief.Cursors.{Codec, IsCodec, cut_at_dot}
use rolebrief.Cursors.Samples.{
  write_number, write_text, read_number, read_text, read_number-write_number, read_text-write_text,
  cut_at_dot-write_number, cut_at_dot-write_text, write_number-truthy, sample_iso, sample_date,
  sample_dates, sample_hmac,
}
use rolebrief.Notifications.Cursor.{NotificationCursorPayload, ParsedNotificationCursor, parsed_of}
use rolebrief.Notifications.Service.{
  Notification, NotificationsQuery, serialized, is_listed, created_at, id_of, mark_as_read,
}
use rolebrief.Notifications.Walk.{fetch, rows, follow-list_notifications}

abbrev sample_codec : Codec NotificationCursorPayload ParsedNotificationCursor
sample_codec = record {
  body_of = λ p. write_number p.user_id (write_number p.id (write_text p.created_at ""));
  parse_body = λ s.
      let user = read_number s in
      let id = read_number user.1 in
      some (record {
        is_version_1 = true;
        user_id = some user.0;
        id = some id.0;
        created_at = some (read_text false id.1).0;
      });
  hmac = sample_hmac;
}

no_dot : (p : NotificationCursorPayload) → cut_at_dot (sample_codec.body_of p) ≡ none
unfolding cut_at_dot
no_dot p =
    cut_at_dot-write_number p.user_id _
      (cut_at_dot-write_number p.id _ (cut_at_dot-write_text p.created_at "" refl))

reads_back :
    (p : NotificationCursorPayload)
    → sample_codec.parse_body (sample_codec.body_of p) ≡ some (parsed_of p)
reads_back p =
    let t = write_text p.created_at "" in
    rw (read_number-write_number p.user_id (write_number p.id t))
      (rw (read_number-write_number p.id t) (rw (read_text-write_text p.created_at "") refl))

sample-IsCodec : IsCodec sample_codec parsed_of
sample-IsCodec = record {
  no_dot = no_dot;
  body = λ p. write_number-truthy p.user_id _;
  signature = λ secret text. refl;
  parses = reads_back;
}

abbrev notified : ℕ → ℕ → ℕ → Option ℕ → Notification
notified id user created read = record {
  id = id;
  user_id = user;
  kind = "JOB_ALERT";
  title = "New jobs";
  body = "";
  link_url = none;
  metadata = none;
  read_at = read;
  created_at = created;
}

-- Three of user 1, two of them of the same instant, and one of user 2.
abbrev table : List Notification
table =
    notified 1 1 5 none ∷ notified 2 1 5 (some 6) ∷ notified 3 2 6 none ∷ notified 4 1 7 none ∷ []

abbrev two_each : NotificationsQuery
two_each = record { cursor = none; limit = some 2; unread_only = false }

follow-list_notifications_example :
    (follow (fetch sample_date sample_iso sample_codec "0123456789abcdef" 1 two_each table) 5 none
      ≡ some (
          map serialized
            (rows sample_date sample_iso sample_codec "0123456789abcdef" 1 two_each table)))
    × IsInOrder
        (Keyset.newest_first created_at id_of)
        (rows sample_date sample_iso sample_codec "0123456789abcdef" 1 two_each table)
    × Perm
        (rows sample_date sample_iso sample_codec "0123456789abcdef" 1 two_each table)
        (keep (is_listed 1 false) table)
follow-list_notifications_example =
    follow-list_notifications sample_date sample_iso sample_codec "0123456789abcdef" 1 two_each
      table 5 (omega arith) sample_dates sample-IsCodec (omega arith) (ground arith) (omega arith)

-- The first reading of a notification counts.
mark_as_read_test : mark_as_read 9 1 2 table ≡ some (serialized (notified 2 1 5 (some 6)), table)
unfolding mark_as_read
mark_as_read_test = refl

-- Nobody reads another user's notification.
mark_as_read_other_test : mark_as_read 9 1 3 table ≡ none
unfolding mark_as_read
mark_as_read_other_test = refl
