-- ===== src/Tracker/Walk.antt =====
-- A client of `list` (backend/src/modules/tracker/tracker.service.ts) that follows the cursors.
use mathlib.Core.List.{Perm}
use mathlib.Core.Option
use rolebrief.Common.{
  ℕ, ◌≤◌, ◌<◌, Bool, true, ◌&&◌, Option, none, some, List, map, String, keep, Pairs-map_le,
  keep-and, keep-true, length, ◌≡◌, refl, ap, ◌∙◌, arith, utf16_length, or_else,
}
use rolebrief.Common.Sort.{sort, IsInOrder}
use rolebrief.Common.Paging.{follow, follow-pages, page_of, with_cursor}
use rolebrief.Common.Paging.Keyset
use rolebrief.Cursors.{Codec, IsCodec, accepted, refused, encode-long, token_of, token_of-truthy}
use rolebrief.Tracker.Types.{Lifecycle, active, Application, Store, View}
use rolebrief.Tracker.Cursor.{
  TrackerCursorPayload, ParsedCursor, parsed_of, encode_tracker_cursor,
  decode_tracker_cursor-encode,
}
use rolebrief.Tracker.Listing.{
  TrackerQuery, page_limit, is_listed, newest_first, find_many, listed_view, list, next_cursor,
  cursor_boundary, payload_of,
}
use rolebrief.Tracker.Invariant.{IsConsistent, Apart}

abbrev updated_at : Application → ℕ
updated_at a = a.updated_at

abbrev id_of : Application → ℕ
id_of a = a.id

abbrev stands_behind : Application → Application → Bool
stands_behind = Keyset.stands_behind updated_at id_of

module _ (parse_date : String → ℕ) (to_iso : ℕ → String)
    (codec : Codec TrackerCursorPayload ParsedCursor) (secret : String) (now user : ℕ)
    (q : TrackerQuery) (s : Store) where
  -- What a client learns from the answer to a cursor: the applications shown, and the next cursor.
  unfoldable pub fetch : Option String → Option (List View × Option String)
  fetch c = elim (list parse_date to_iso codec secret now user (record q { cursor = c }) s) [
    | refused e ↦ none
    | accepted r ↦ some (r.page_data, r.next_cursor)
  ]

  abbrev lifecycle : Lifecycle
  lifecycle = or_else q.lifecycle active

  abbrev matches : Application → Bool
  matches = is_listed user lifecycle q.stage

  abbrev pub rows : List Application
  rows = find_many matches s.applications

  abbrev token : Application → String
  token a =
      token_of codec secret (payload_of parse_date to_iso codec secret user q.stage lifecycle a)

  next_cursor-long :
      (last : Option Application)
      → 16 ≤ utf16_length secret
      → next_cursor parse_date to_iso codec secret user q.stage lifecycle last
        ≡ accepted (Option.map token last)
  unfolding next_cursor encode_tracker_cursor
  next_cursor-long none h = refl
  next_cursor-long (some a) h =
      rw
        (
          encode-long codec parsed_of secret
              (payload_of parse_date to_iso codec secret user q.stage lifecycle a) h,
          next_cursor,
        )
        refl

  fetch-boundary :
      (c : Option String) (boundary : Application → Bool)
      → 16 ≤ utf16_length secret
      → cursor_boundary parse_date to_iso codec secret user (record q { cursor = c })
        ≡ accepted boundary
      → fetch c
        ≡ some (
            with_cursor token
              (page_of (listed_view now s) (page_limit q.limit) (keep boundary rows)))
  unfolding fetch list
  fetch-boundary c boundary h e =
      let page =
        page_of (listed_view now s) (page_limit q.limit)
          (find_many (λ a. matches a && boundary a) s.applications) in
      rw (e, fetch, list, next_cursor-long page.1 h)
        (ap (λ rs. some (with_cursor token (page_of (listed_view now s) (page_limit q.limit) rs)))
          (keep-and matches boundary (sort newest_first s.applications)))

  fetch-first :
      16 ≤ utf16_length secret
      → fetch none
        ≡ some (with_cursor token (page_of (listed_view now s) (page_limit q.limit) rows))
  unfolding cursor_boundary
  fetch-first h =
      fetch-boundary none (λ a. true) h refl
      ∙ ap (λ rs. some (with_cursor token (page_of (listed_view now s) (page_limit q.limit) rs)))
          (keep-true rows)

  boundary-token :
      (l : Application)
      → ((t : ℕ) → parse_date (to_iso t) ≡ t)
      → IsCodec codec parsed_of
      → 16 ≤ utf16_length secret
      → cursor_boundary parse_date to_iso codec secret user (record q { cursor = some (token l) })
        ≡ accepted (stands_behind l)
  unfolding cursor_boundary encode_tracker_cursor
  boundary-token l dates c h =
      let p = payload_of parse_date to_iso codec secret user q.stage lifecycle l in
      rw (token_of-truthy codec parsed_of secret p c, cursor_boundary)
        (rw
          (decode_tracker_cursor-encode codec p secret (token l) c
            (encode-long codec parsed_of secret p h))
          (rw (dates l.updated_at) refl))

  page_limit-pos : 0 < page_limit q.limit
  page_limit-pos = ground arith

  -- The pages of the list, followed from the first one by the cursors that the answers carry, show
  -- every application of the user in the lifecycle and the stage asked for, each once and the newest
  -- first, as long as the tables stay the same; one request more than the table has applications is
  -- always enough. The tables must be consistent (`IsConsistent`), the secret have 16 characters, and
  -- dates and payloads be read back as printed.
  pub follow-list :
      (fuel : ℕ)
      → ((t : ℕ) → parse_date (to_iso t) ≡ t)
      → IsCodec codec parsed_of
      → 16 ≤ utf16_length secret
      → IsConsistent s
      → length s.applications < fuel
      → (follow fetch fuel none ≡ some (map (listed_view now s) rows))
        × IsInOrder newest_first rows
        × Perm rows (keep matches s.applications)
  follow-list fuel dates c h consistent enough = (
    follow-pages (listed_view now s) token (page_limit q.limit) stands_behind fetch rows fuel
        page_limit-pos (Keyset.behind_self updated_at id_of)
        (Keyset.find_many-IsChain updated_at id_of matches s.applications
          (Pairs-map_le Apart _ s.applications (λ a b h. h.0) consistent.apart))
        (
          fetch-first h,
          λ l. fetch-boundary (some (token l)) (stands_behind l) h (boundary-token l dates c h),
        )
        (omega (arith, Keyset.length-find_many updated_at id_of matches s.applications)),
    Keyset.find_many-IsInOrder updated_at id_of matches s.applications,
    Keyset.find_many-perm updated_at id_of matches s.applications,
  )
