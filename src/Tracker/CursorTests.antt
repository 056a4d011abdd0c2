-- ===== src/Tracker/CursorTests.antt =====
-- The list of applications on a small table, with a sample notation for payloads and dates.
use Prim.Native.String.{String, ◌++◌}
use mathlib.Core.List.{Perm}
use rolebrief.Common.{
  ℕ, zero, suc, ◌<◌, length, true, false, Option, none, some, List, [], ◌∷◌, map, keep, ◌≡◌, refl,
  arith, or_else,
}
use rolebrief.Common.Sort.{IsInOrder}
use rolebrief.Common.Paging.{follow}
use rolebrief.Cursors.{Codec, IsCodec, accepted, encode, token_of, cut_at_dot}
use rolebrief.Cursors.Samples.{
  write_number, write_text, read_number, read_text, read_number-write_number, read_text-write_text,
  cut_at_dot-write_number, cut_at_dot-write_text, write_number-truthy, sample_iso, sample_date,
  sample_dates, sample_hmac,
}
use rolebrief.Tracker.Types.{Store, active, CreateApplication}
use rolebrief.Tracker.Create.{create, insert_application, inserted_store}
use rolebrief.Tracker.Requests.{Request, step, creates, run, run-IsConsistent}
use rolebrief.Tracker.Invariant.{no_applications}
use rolebrief.Tracker.Cursor.{
  TrackerCursorPayload, ParsedCursor, parsed_of, decode_tracker_cursor, encode_tracker_cursor,
  decode_tracker_cursor-encode, decode_tracker_cursor-authentic, lifecycle_differs,
}
use rolebrief.Tracker.Listing.{TrackerQuery, is_listed, newest_first, listed_view}
use rolebrief.Tracker.Walk.{fetch, rows, follow-list}

abbrev write_option : Option String → String
write_option none = write_number 0 ""
write_option (some s) = write_number 1 (write_text s "")

abbrev read_option : String → Option String
read_option s =
    let (n, rest) = read_number s in elim n [ zero ↦ none | suc m ↦ some (read_text false rest).0 ]

abbrev sample_codec : Codec TrackerCursorPayload ParsedCursor
sample_codec = record {
  body_of = λ p. write_number p.user_id (
      write_number p.id
        (write_text p.stage_filter (write_text p.updated_at (write_option p.lifecycle_filter))));
  parse_body = λ s.
      let user = read_number s in
      let id = read_number user.1 in
      let stage = read_text false id.1 in
      let updated = read_text false stage.1 in
      some (record {
        is_version_1 = true;
        id = some id.0;
        user_id = some user.0;
        updated_at = some updated.0;
        stage_filter = some stage.0;
        lifecycle_filter = read_option updated.1;
      });
  hmac = sample_hmac;
}

read_option-write_option : (o : Option String) → read_option (write_option o) ≡ o
read_option-write_option none = refl
read_option-write_option (some s) = rw (read_text-write_text s "") refl

write_option-no_dot : (o : Option String) → cut_at_dot (write_option o) ≡ none
unfolding cut_at_dot
write_option-no_dot none = refl
write_option-no_dot (some s) =
    cut_at_dot-write_number 1 (write_text s "") (cut_at_dot-write_text s "" refl)

reads_back :
    (p : TrackerCursorPayload)
    → sample_codec.parse_body (sample_codec.body_of p) ≡ some (parsed_of p)
reads_back p =
    let l = write_option p.lifecycle_filter in
    let u = write_text p.updated_at l in
    let t = write_text p.stage_filter u in
    rw (read_number-write_number p.user_id (write_number p.id t)) (
      rw (read_number-write_number p.id t) (
        rw (read_text-write_text p.stage_filter u) (
          rw (read_text-write_text p.updated_at l)
            (rw (read_option-write_option p.lifecycle_filter) refl))))

sample-IsCodec : IsCodec sample_codec parsed_of
sample-IsCodec = record {
  no_dot = λ p. cut_at_dot-write_number p.user_id _ (
      cut_at_dot-write_number p.id _ (
        cut_at_dot-write_text p.stage_filter _
          (cut_at_dot-write_text p.updated_at _ (write_option-no_dot p.lifecycle_filter))));
  body = λ p. write_number-truthy p.user_id _;
  signature = λ secret text. refl;
  parses = reads_back;
}

abbrev shown : TrackerCursorPayload
shown = record {
  user_id = 1;
  stage_filter = "SAVED";
  lifecycle_filter = some "ACTIVE";
  updated_at = "2026.05";
  id = 4;
}

abbrev secret : String
secret = "0123456789abcdef"

abbrev shown_token : String
shown_token = token_of sample_codec secret shown

made : encode_tracker_cursor sample_codec shown secret ≡ accepted shown_token
unfolding encode_tracker_cursor encode
made = refl

decode_tracker_cursor-encode_example :
    decode_tracker_cursor sample_codec shown_token secret 1 (some "SAVED") (some "ACTIVE")
    ≡ accepted shown
decode_tracker_cursor-encode_example =
    decode_tracker_cursor-encode sample_codec shown secret shown_token sample-IsCodec made

decode_tracker_cursor-authentic_example :
    (shown.user_id ≡ 1)
    × (shown.stage_filter ≡ or_else (some "SAVED") "")
    × (lifecycle_differs (some "ACTIVE") (some "ACTIVE") ≡ false)
    × ((body : String) × (shown_token ≡ body ++ ("." ++ sample_hmac secret body)))
decode_tracker_cursor-authentic_example =
    decode_tracker_cursor-authentic sample_codec shown_token secret 1 (some "SAVED") (some "ACTIVE")
      shown decode_tracker_cursor-encode_example

abbrev titled : String → CreateApplication
titled title = record {
  job_slug = none;
  role_title = some title;
  company_name = none;
  stage = none;
  applied_at = none;
  next_action = none;
  next_action_at = none;
  notes = none;
  reminder_at = none;
  interview_at = none;
  application_url = none;
  source_url = none;
  source_label = none;
  contact_name = none;
  contact_email = none;
}

-- Three applications, the last two of the same instant.
abbrev requests : List (ℕ × Request)
requests =
    (5, creates 1 (titled "A")) ∷ (6, creates 1 (titled "B")) ∷ (6, creates 1 (titled "C")) ∷ []

abbrev three : Store
three = run sample_date requests (no_applications [])

abbrev two_each : TrackerQuery
two_each = record { stage = none; lifecycle = none; cursor = none; limit = some 2 }

three-length : length three.applications < 4
unfolding run step create insert_application inserted_store
three-length = ground arith

follow-list_example :
    (follow (fetch sample_date sample_iso sample_codec secret 9 1 two_each three) 4 none
      ≡ some (
          map
            (listed_view 9 three)
            (rows sample_date sample_iso sample_codec secret 9 1 two_each three)))
    × IsInOrder newest_first (rows sample_date sample_iso sample_codec secret 9 1 two_each three)
    × Perm
        (rows sample_date sample_iso sample_codec secret 9 1 two_each three)
        (keep (is_listed 1 active none) three.applications)
follow-list_example =
    follow-list sample_date sample_iso sample_codec secret 9 1 two_each three 4 sample_dates
      sample-IsCodec (omega arith) (run-IsConsistent sample_date [] requests) three-length
