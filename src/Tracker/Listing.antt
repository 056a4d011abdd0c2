-- ===== src/Tracker/Listing.antt =====
-- `list` of backend/src/modules/tracker/tracker.service.ts, with the query of dto/tracker.dto.ts: the
-- pages of a user's applications, newest first.
use rolebrief.Common.{
  ℕ, min, max, Bool, true, false, ◌&&◌, Option, none, some, List, String, ◌==◌, keep, take, truthy,
  length, or_else,
}
use rolebrief.Common.Int.{ℤ}
use rolebrief.Common.Paging.{has_next, page_of}
use rolebrief.Common.Paging.Keyset
use rolebrief.Cursors.{Codec, Checked, accepted, ◌>>=◌}
use rolebrief.Tracker.Types.{
  Stage, saved, applied, interviewing, offer, rejected, withdrawn, stage_eq, Lifecycle, active,
  archived, lifecycle_eq, Application, Store, View,
}
use rolebrief.Tracker.Queries.{view_of}
use rolebrief.Tracker.Cursor.{
  TrackerCursorPayload, ParsedCursor, encode_tracker_cursor, decode_tracker_cursor,
}

pub record TrackerQuery : Type 0 where
  pub stage : Option Stage
  pub lifecycle : Option Lifecycle
  pub cursor : Option String
  pub limit : Option ℕ

pub record StageCounts : Type 0 where
  pub saved : ℕ
  pub applied : ℕ
  pub interviewing : ℕ
  pub offer : ℕ
  pub rejected : ℕ
  pub withdrawn : ℕ

pub record Listed : Type 0 where
  pub page_data : List View
  pub stage_counts : StageCounts
  pub next_cursor : Option String
  pub has_next_page : Bool
  pub total_count : ℕ

abbrev pub page_limit : Option ℕ → ℕ
page_limit limit = min (max (or_else limit 20) 1) 50

abbrev pub stage_name : Stage → String
stage_name saved = "SAVED"
stage_name applied = "APPLIED"
stage_name interviewing = "INTERVIEWING"
stage_name offer = "OFFER"
stage_name rejected = "REJECTED"
stage_name withdrawn = "WITHDRAWN"

-- `stage || ""`
abbrev pub stage_filter : Option Stage → String
stage_filter none = ""
stage_filter (some stage) = stage_name stage

abbrev pub lifecycle_name : Lifecycle → String
lifecycle_name active = "ACTIVE"
lifecycle_name archived = "ARCHIVED"

abbrev pub has_stage : Option Stage → Stage → Bool
has_stage none stage = true
has_stage (some asked) stage = stage_eq stage asked

-- `{ userId, lifecycle, ...(stage ? { stage } : {}) }`
abbrev pub is_listed : ℕ → Lifecycle → Option Stage → Application → Bool
is_listed user lifecycle stage a =
    (a.user_id == user && lifecycle_eq a.lifecycle lifecycle) && has_stage stage a.stage

-- `groupBy` the stage, over all active applications of the user.
abbrev pub stage_counts : ℕ → List Application → StageCounts
stage_counts user rows =
    let count = λ (stage : Stage). length (keep (is_listed user active (some stage)) rows) in
    record {
      saved = count saved;
      applied = count applied;
      interviewing = count interviewing;
      offer = count offer;
      rejected = count rejected;
      withdrawn = count withdrawn;
    }

-- `orderBy: [{ updatedAt: "desc" }, { id: "desc" }]`
abbrev pub newest_first : Application → Application → ℤ
newest_first = Keyset.newest_first (λ (a : Application). a.updated_at) (λ (a : Application). a.id)

-- The boundary of a cursor: an older row, or one as old with a smaller identifier.
abbrev pub is_behind : ℕ → ℕ → Application → Bool
is_behind = Keyset.is_behind (λ (a : Application). a.updated_at) (λ (a : Application). a.id)

-- `findMany`
abbrev pub find_many : (Application → Bool) → List Application → List Application
find_many = Keyset.find_many (λ (a : Application). a.updated_at) (λ (a : Application). a.id)

-- An application as the list shows it, with at most five history rows.
abbrev pub listed_view : ℕ → Store → Application → View
listed_view now s a = let view = view_of now s a in record view { history = take 5 view.history }

module _ (parse_date : String → ℕ) (to_iso : ℕ → String)
    (codec : Codec TrackerCursorPayload ParsedCursor) (secret : String) where
  -- The boundary that the cursor of a query stands for; an empty cursor is none.
  unfoldable pub cursor_boundary : ℕ → TrackerQuery → Checked (Application → Bool)
  cursor_boundary user q = elim q.cursor [
    | none ↦ accepted (λ a. true)
    | some cursor ↦ elim (truthy cursor) [
      | false ↦ accepted (λ a. true)
      | true ↦ do
        p ←
            decode_tracker_cursor codec cursor secret user (some (stage_filter q.stage))
              (some (lifecycle_name (or_else q.lifecycle active)))
        accepted (is_behind (parse_date p.updated_at) p.id)
    ]
  ]

  abbrev pub payload_of : ℕ → Option Stage → Lifecycle → Application → TrackerCursorPayload
  payload_of user stage lifecycle last = record {
    user_id = user;
    stage_filter = stage_filter stage;
    lifecycle_filter = some (lifecycle_name lifecycle);
    updated_at = to_iso last.updated_at;
    id = last.id;
  }

  unfoldable pub next_cursor :
      ℕ → Option Stage → Lifecycle → Option Application → Checked (Option String)
  next_cursor user stage lifecycle last = elim last [
    | none ↦ accepted none
    | some a ↦ do
      token ← encode_tracker_cursor codec (payload_of user stage lifecycle a) secret
      accepted (some token)
  ]

  unfoldable pub list : ℕ → ℕ → TrackerQuery → Store → Checked Listed
  list now user q s = do
    let limit = page_limit q.limit
    let lifecycle = or_else q.lifecycle active
    let matches = is_listed user lifecycle q.stage
    boundary ← cursor_boundary user q
    let rows = find_many (λ a. matches a && boundary a) s.applications
    let page = page_of (listed_view now s) limit rows
    next ← next_cursor user q.stage lifecycle page.1
    accepted (record {
      page_data = page.0;
      stage_counts = stage_counts user s.applications;
      next_cursor = next;
      has_next_page = has_next (listed_view now s) limit rows;
      total_count = length (keep matches s.applications);
    })
