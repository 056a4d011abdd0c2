-- ===== src/Tracker/Cursor.antt =====
-- backend/src/modules/tracker/tracker-cursor.util.ts: the cursor of the list of applications.
use Prim.Native.String.{◌++◌}
use rolebrief.Common.{
  ℕ, Bool, true, false, not, Option, none, some, String, ◌≡◌, refl, subst, arith, ◌==◌, str_eq,
  str_eq_refl, str_eq_iff, ==_refl, ==_iff, or_else, if◌then◌else◌,
}
use rolebrief.Cursors.{
  Codec, IsCodec, CursorError, other_user, filter_mismatch, lifecycle_mismatch, invalid_structure,
  Checked, accepted, refused, ◌>>=◌, ◌>>◌, refuse_if, encode, verify, read_body, verify-encode,
  verify-authentic, bind-accepted, accepted-injective,
}

pub record TrackerCursorPayload : Type 0 where
  pub user_id : ℕ
  pub stage_filter : String
  pub lifecycle_filter : Option String
  pub updated_at : String
  pub id : ℕ

-- What `JSON.parse` gives: each field, if it is there with the type that the code asks for. A value
-- that is not an object has no field.
pub record ParsedCursor : Type 0 where
  pub is_version_1 : Bool
  pub id : Option ℕ
  pub user_id : Option ℕ
  pub updated_at : Option String
  pub stage_filter : Option String
  pub lifecycle_filter : Option String

-- `{ v: 1, ... }` as it is read back.
abbrev pub parsed_of : TrackerCursorPayload → ParsedCursor
parsed_of p = record {
  is_version_1 = true;
  id = some p.id;
  user_id = some p.user_id;
  updated_at = some p.updated_at;
  stage_filter = some p.stage_filter;
  lifecycle_filter = p.lifecycle_filter;
}

-- The check of the structure, and the payload that `decode` returns.
abbrev pub checked_structure : ParsedCursor → Checked TrackerCursorPayload
checked_structure q = if not q.is_version_1 then refused invalid_structure else elim q.id [
  | none ↦ refused invalid_structure
  | some id ↦ elim q.user_id [
    | none ↦ refused invalid_structure
    | some user ↦ elim q.updated_at [
      | none ↦ refused invalid_structure
      | some updated ↦ accepted (record {
        user_id = user;
        stage_filter = or_else q.stage_filter "";
        lifecycle_filter = q.lifecycle_filter;
        updated_at = updated;
        id = id;
      })
    ]
  ]
]

-- The filter of the lifecycle is compared only if one is expected.
abbrev pub lifecycle_differs : Option String → Option String → Bool
lifecycle_differs none parsed = false
lifecycle_differs (some expected) parsed = not (str_eq (or_else parsed "") expected)

all_passed :
    (b c d : Bool) (x y z : CursorError) (p r : TrackerCursorPayload)
    → (refuse_if b x >> (refuse_if c y >> (refuse_if d z >> accepted p))) ≡ accepted r
    → (b ≡ false) × (c ≡ false) × (d ≡ false) × (p ≡ r)
all_passed true c d x y z p r e = cc
all_passed false true d x y z p r e = cc
all_passed false false true x y z p r e = cc
all_passed false false false x y z p r e = (refl, refl, refl, accepted-injective e)

not-false : {b : Bool} → not b ≡ false → b ≡ true
not-false {b} h = ground arith

module _ (codec : Codec TrackerCursorPayload ParsedCursor) where
  unfoldable pub encode_tracker_cursor : TrackerCursorPayload → String → Checked String
  encode_tracker_cursor payload secret = encode codec secret payload

  unfoldable pub decode_tracker_cursor :
      String → String → ℕ → Option String → Option String → Checked TrackerCursorPayload
  decode_tracker_cursor cursor secret user stage lifecycle = do
    body ← verify codec secret cursor
    q ← read_body codec body
    p ← checked_structure q
    refuse_if (not (p.user_id == user)) other_user
    refuse_if (not (str_eq p.stage_filter (or_else stage ""))) filter_mismatch
    refuse_if (lifecycle_differs lifecycle p.lifecycle_filter) lifecycle_mismatch
    accepted p

  -- A cursor that was made for a user and filters is read back, for that user and those filters.
  pub decode_tracker_cursor-encode :
      (p : TrackerCursorPayload) (secret token : String)
      → IsCodec codec parsed_of
      → encode_tracker_cursor p secret ≡ accepted token
      → decode_tracker_cursor token secret p.user_id (some p.stage_filter) p.lifecycle_filter
        ≡ accepted p
  unfolding encode_tracker_cursor decode_tracker_cursor
  decode_tracker_cursor-encode p secret token c e =
      let (signed, parsed) = verify-encode codec parsed_of secret p token c e in
      rw (signed, decode_tracker_cursor)
        (rw parsed (
          rw (==_refl p.user_id, str_eq_refl p.stage_filter)
            (rw (same_lifecycle p.lifecycle_filter) refl)))
    where
      same_lifecycle : (o : Option String) → lifecycle_differs o o ≡ false
      same_lifecycle none = refl
      same_lifecycle (some s) = rw (str_eq_refl s) refl

  -- A cursor that is accepted carries a signature by the secret, and belongs to the user and the
  -- stage that are asked for.
  pub decode_tracker_cursor-authentic :
      (cursor secret : String) (user : ℕ) (stage lifecycle : Option String)
      (p : TrackerCursorPayload)
      → decode_tracker_cursor cursor secret user stage lifecycle ≡ accepted p
      → (p.user_id ≡ user)
        × (p.stage_filter ≡ or_else stage "")
        × (lifecycle_differs lifecycle p.lifecycle_filter ≡ false)
        × ((body : String) × (cursor ≡ body ++ ("." ++ codec.hmac secret body)))
  unfolding decode_tracker_cursor
  decode_tracker_cursor-authentic cursor secret user stage lifecycle p e =
      let (body, signed, e1) = bind-accepted (verify codec secret cursor) _ e in
      let (q, parsed, e2) = bind-accepted (read_body codec body) _ e1 in
      let (p', structured, e3) = bind-accepted (checked_structure q) _ e2 in
      let (own, same_stage, same_lifecycle, same) =
        all_passed (not (p'.user_id == user)) (not (str_eq p'.stage_filter (or_else stage "")))
          (lifecycle_differs lifecycle p'.lifecycle_filter) other_user filter_mismatch
          lifecycle_mismatch p' p e3 in
      subst
        (λ r.
          (r.user_id ≡ user)
          × (r.stage_filter ≡ or_else stage "")
          × (lifecycle_differs lifecycle r.lifecycle_filter ≡ false)
          × ((body : String) × (cursor ≡ body ++ ("." ++ codec.hmac secret body))))
        same
        (
          (==_iff p'.user_id user).0 (not-false own),
          (str_eq_iff p'.stage_filter (or_else stage "")).0 (not-false same_stage),
          same_lifecycle,
          (body, verify-authentic codec parsed_of secret cursor body signed),
        )
