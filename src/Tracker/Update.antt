-- ===== src/Tracker/Update.antt =====
-- `update`, `archive`, `restore` and `delete` of backend/src/modules/tracker/tracker.service.ts.
-- `update` and `delete` read the row first and write it by a conditional query later; the two halves
-- are separate functions, so that other requests can come between.
use rolebrief.Common.{
  ℕ, ◌+◌, Bool, ◌&&◌, not, Option, none, some, List, [], ◌∷◌, ◌++◌, map, String, ◌==◌,
  if◌then◌else◌, or_else, find, any, keep, truthy, non_empty, trim,
}
use Prim.Native.String.{◌++◌ as append}
use rolebrief.Tracker.Types.{
  Stage, saved, applied, interviewing, offer, rejected, withdrawn, Lifecycle, active, archived,
  stage_eq, lifecycle_eq, Application, HistoryRow, Store, Field, absent, cleared, given,
  UpdateApplication, View, application_not_found, stale, invalid_transition, delete_conflict,
  Result, ok, err, ◌>>=◌,
}
use rolebrief.Tracker.Transitions.{validate_transition}
use rolebrief.Tracker.Queries.{find_application, get_by_id, view_of}
use rolebrief.Tracker.Create.{date_or_null}

abbrev pub stage_name : Stage → String
stage_name saved = "SAVED"
stage_name applied = "APPLIED"
stage_name interviewing = "INTERVIEWING"
stage_name offer = "OFFER"
stage_name rejected = "REJECTED"
stage_name withdrawn = "WITHDRAWN"

-- `dto.stage && dto.stage !== current.stage`: the new stage, if there is one.
abbrev pub stage_change : Option Stage → Stage → Option Stage
stage_change none current = none
stage_change (some to) current = if stage_eq to current then none else some to

abbrev pub lifecycle_change : Option Lifecycle → Lifecycle → Option Lifecycle
lifecycle_change none current = none
lifecycle_change (some to) current = if lifecycle_eq to current then none else some to

abbrev pub check_stage : Application → Option Stage → Result Application
check_stage current none = ok current
check_stage current (some to) =
    if validate_transition current.stage to
    then ok current
    else err (invalid_transition current.stage to)

-- The first half of `update`: read the row, compare the revision, check the transition.
unfoldable pub update_read : ℕ → ℕ → ℕ → UpdateApplication → Store → Result Application
update_read now user id dto s = elim (find_application user id s.applications) [
  | none ↦ err application_not_found
  | some current ↦
      if current.revision == dto.expected_revision
      then check_stage current (stage_change dto.stage current.stage)
      else do latest ← get_by_id now user id s; err (stale current.revision (some latest))
]

-- A text column that is trimmed; `null` and the empty text clear it.
abbrev trimmed : Field String → Option String → Option String
trimmed absent old = old
trimmed cleared old = none
trimmed (given t) old = if truthy t then some (trim t) else none

abbrev plain : Field String → Option String → Option String
plain absent old = old
plain cleared old = none
plain (given t) old = some t

abbrev dated : (String → ℕ) → Field String → Option ℕ → Option ℕ
dated parse_date absent old = old
dated parse_date cleared old = none
dated parse_date (given t) old = date_or_null parse_date (some t)

abbrev company : Option String → Option String → Option String
company none old = old
company (some t) old = if truthy t then some (trim t) else none

abbrev title : Option String → String → String
title none old = old
title (some t) old = trim t

-- `updateData`, applied to a row.
unfoldable pub apply_update : (String → ℕ) → ℕ → UpdateApplication → Application → Application
apply_update parse_date now dto a = record a {
  role_title = title dto.role_title a.role_title;
  company_name = company dto.company_name a.company_name;
  application_url = plain dto.application_url a.application_url;
  source_url = plain dto.source_url a.source_url;
  source_label = plain dto.source_label a.source_label;
  contact_name = plain dto.contact_name a.contact_name;
  contact_email = plain dto.contact_email a.contact_email;
  stage = or_else dto.stage a.stage;
  lifecycle = or_else dto.lifecycle a.lifecycle;
  next_action = trimmed dto.next_action a.next_action;
  next_action_at = dated parse_date dto.next_action_at a.next_action_at;
  notes = trimmed dto.notes a.notes;
  applied_at = dated parse_date dto.applied_at a.applied_at;
  reminder_at = dated parse_date dto.reminder_at a.reminder_at;
  interview_at = dated parse_date dto.interview_at a.interview_at;
  revision = a.revision + 1;
  updated_at = now;
}

-- `where: { id, userId, revision }`
abbrev pub is_target : ℕ → ℕ → ℕ → Application → Bool
is_target user id revision a = a.id == id && a.user_id == user && a.revision == revision

abbrev stage_rows : ℕ → UpdateApplication → Application → Option Stage → List HistoryRow
stage_rows now dto current none = []
stage_rows now dto current (some to) =
    record {
      application_id = current.id;
      from_stage = some current.stage;
      to_stage = to;
      note = some (
          or_else (non_empty dto.stage_change_note) (
            append "Moved from "
              (append (stage_name current.stage) (append " to " (stage_name to)))));
      occurred_at = now;
    }
    ∷ []

abbrev lifecycle_note : Lifecycle → String
lifecycle_note archived = "Archived application"
lifecycle_note active = "Restored application to active"

abbrev lifecycle_rows : ℕ → UpdateApplication → Application → Option Lifecycle → List HistoryRow
lifecycle_rows now dto current none = []
lifecycle_rows now dto current (some to) =
    record {
      application_id = current.id;
      from_stage = some current.stage;
      to_stage = or_else dto.stage current.stage;
      note = some (lifecycle_note to);
      occurred_at = now;
    }
    ∷ []

-- The history rows of the transaction, the newest first.
unfoldable pub update_rows : ℕ → UpdateApplication → Application → List HistoryRow
update_rows now dto current =
    lifecycle_rows now dto current (lifecycle_change dto.lifecycle current.lifecycle)
    ++ stage_rows now dto current (stage_change dto.stage current.stage)

-- The tables after a transaction whose conditional update found its row.
unfoldable pub updated_store :
    (String → ℕ) → ℕ → ℕ → ℕ → UpdateApplication → Application → Store → Store
updated_store parse_date now user id dto current s = record s {
  applications =
      map
        (λ a.
          if is_target user id dto.expected_revision a
          then apply_update parse_date now dto a
          else a)
        s.applications;
  history = update_rows now dto current ++ s.history;
}

abbrev pub read_back : ℕ → ℕ → Store → Result (View × Store)
read_back now id s = elim (find (λ a. a.id == id) s.applications) [
  | none ↦ err application_not_found
  | some a ↦ ok (view_of now s a, s)
]

-- The second half of `update`: the transaction, for the row that the first half read.
unfoldable pub update_commit :
    (String → ℕ) → ℕ → ℕ → ℕ → UpdateApplication → Application → Store → Result (View × Store)
update_commit parse_date now user id dto current s =
    if any (is_target user id dto.expected_revision) s.applications
    then read_back now id (updated_store parse_date now user id dto current s)
    else err (stale current.revision none)

-- `update`, with no other request between its halves.
unfoldable pub update : (String → ℕ) → ℕ → ℕ → ℕ → UpdateApplication → Store → Result (View × Store)
update parse_date now user id dto s = do
  current ← update_read now user id dto s
  update_commit parse_date now user id dto current s

abbrev pub lifecycle_only : ℕ → Lifecycle → UpdateApplication
lifecycle_only revision to = record {
  expected_revision = revision;
  stage = none;
  lifecycle = some to;
  role_title = none;
  company_name = none;
  applied_at = absent;
  next_action = absent;
  next_action_at = absent;
  notes = absent;
  reminder_at = absent;
  interview_at = absent;
  application_url = absent;
  source_url = absent;
  source_label = absent;
  contact_name = absent;
  contact_email = absent;
  stage_change_note = none;
}

unfoldable pub archive : (String → ℕ) → ℕ → ℕ → ℕ → ℕ → Store → Result (View × Store)
archive parse_date now user id revision s =
    update parse_date now user id (lifecycle_only revision archived) s

unfoldable pub restore : (String → ℕ) → ℕ → ℕ → ℕ → ℕ → Store → Result (View × Store)
restore parse_date now user id revision s =
    update parse_date now user id (lifecycle_only revision active) s

-- The first half of `delete`.
unfoldable pub delete_read : ℕ → ℕ → ℕ → Store → Result Application
delete_read user id revision s = elim (find_application user id s.applications) [
  | none ↦ err application_not_found
  | some current ↦
      if current.revision == revision then ok current else err (stale current.revision none)
]

-- The history rows go with their application (`onDelete: Cascade`).
unfoldable pub deleted_store : ℕ → ℕ → ℕ → Store → Store
deleted_store user id revision s = record s {
  applications = keep (λ a. not (is_target user id revision a)) s.applications;
  history = keep (λ h. not (h.application_id == id)) s.history;
}

-- The second half of `delete`.
unfoldable pub delete_commit : ℕ → ℕ → ℕ → Store → Result (ℕ × Store)
delete_commit user id revision s =
    if any (is_target user id revision) s.applications
    then ok (id, deleted_store user id revision s)
    else err delete_conflict

unfoldable pub delete : ℕ → ℕ → ℕ → Store → Result (ℕ × Store)
delete user id revision s = do _ ← delete_read user id revision s; delete_commit user id revision s
