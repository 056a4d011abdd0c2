-- ===== src/Eligibility/Timezone.antt =====
-- backend/src/modules/eligibility/timezone-resolver.service.ts. What the time zone database of the
-- platform says of a zone is a parameter: `offset_at zone date` is `getOffsetMinutes`, null for a
-- zone that it does not know.
use rolebrief.Common.{
  ℕ, zero, suc, ◌/◌, ◌%◌, Bool, ◌||◌, Option, none, some, List, [], ◌∷◌, map, String, ltb, ◌==◌,
  if◌then◌else◌, any, is_empty, non_empty, join, ◌≡◌, refl,
}
use Prim.Native.String.{◌++◌}
use rolebrief.Common.Int.{ℤ, pos, negsuc, int_eq, int_leb, abs}
use rolebrief.Eligibility.Types.{
  DimensionStatus, satisfied, insufficient_data, ReasonCode, tz_no_declared_restriction,
  tz_within_declared_offset, tz_outside_declared_offset, tz_candidate_unspecified,
}

pub record TimezoneResult : Type 0 where
  pub status : DimensionStatus
  pub reason_code : ReasonCode
  pub candidate_current_offset : Option ℤ
  pub candidate_seasonal_offsets : List ℤ
  pub declared_offsets : List ℤ
  pub headline : String
  pub details : String

abbrev digit : ℕ → String
digit n =
    if n == 0
    then "0"
    else if n == 1
    then "1"
    else if n == 2
    then "2"
    else if n == 3
    then "3"
    else if n == 4
    then "4"
    else if n == 5
    then "5"
    else if n == 6
    then "6"
    else if n == 7
    then "7"
    else if n == 8
    then "8"
    else "9"

-- `String(n)`; a number has fewer digits than its own value and one.
decimal_with : ℕ → ℕ → String
decimal_with zero n = ""
decimal_with (suc fuel) n =
    let rest = decimal_with fuel (n / 10) ++ digit (n % 10) in if ltb n 10 then digit n else rest

unfoldable pub decimal : ℕ → String
unfolding decimal_with
decimal n = decimal_with (suc n) n

-- `String(n).padStart(2, "0")`: only a number of one digit is padded.
two_digits : ℕ → String
unfolding decimal
two_digits n = if ltb n 10 then "0" ++ decimal n else decimal n

unfoldable pub format_offset : ℤ → String
unfolding two_digits
format_offset minutes =
    "UTC"
    ++ ((if int_leb (pos 0) minutes then "+" else "-")
        ++ (two_digits (abs minutes / 60) ++ (":" ++ two_digits (abs minutes % 60))))

format_offset_west : format_offset (negsuc 299) ≡ "UTC-05:00"
unfolding format_offset
format_offset_west = refl

format_offset_east : format_offset (pos 330) ≡ "UTC+05:30"
unfolding format_offset
format_offset_east = refl

-- `offsets.includes(o)`
abbrev pub has_offset : List ℤ → ℤ → Bool
has_offset offsets o = any (int_eq o) offsets

-- The sort of at most two offsets.
abbrev pub in_order : Option ℤ → Option ℤ → List ℤ
in_order none none = []
in_order (some w) none = w ∷ []
in_order none (some s) = s ∷ []
in_order (some w) (some s) =
    if int_eq s w then w ∷ [] else if int_leb w s then w ∷ s ∷ [] else s ∷ w ∷ []

module _ (offset_at : String → ℕ → Option ℤ) (now winter summer : ℕ) where
  -- `winter` and `summer` are 15 January and 15 July of the current year.
  unfoldable pub get_seasonal_offsets : String → List ℤ
  get_seasonal_offsets zone = in_order (offset_at zone winter) (offset_at zone summer)

  -- The answer for a zone whose current offset is known.
  abbrev pub compared : String → ℤ → List ℤ → TimezoneResult
  compared zone current declared =
      let seasonal = get_seasonal_offsets zone in
      let band = join ", " (map format_offset declared) in
      let mine = format_offset current in
      if has_offset declared current || any (has_offset declared) seasonal
      then record {
        status = satisfied;
        reason_code = tz_within_declared_offset;
        candidate_current_offset = some current;
        candidate_seasonal_offsets = seasonal;
        declared_offsets = declared;
        headline = "Timezone aligned (" ++ (mine ++ ")");
        details =
            "Candidate timezone ("
            ++ (mine ++ (") aligns with employer's declared timezone band (" ++ (band ++ ").")));
      }
      else record {
        status = insufficient_data;
        reason_code = tz_outside_declared_offset;
        candidate_current_offset = some current;
        candidate_seasonal_offsets = seasonal;
        declared_offsets = declared;
        headline = "Timezone offset check required";
        details =
            "Candidate timezone ("
            ++ (mine
                ++ (") is outside employer's declared band ("
                    ++ (band ++ "); check employer flexibility.")));
      }

  abbrev unspecified : List ℤ → String → String → TimezoneResult
  unspecified declared headline details = record {
    status = insufficient_data;
    reason_code = tz_candidate_unspecified;
    candidate_current_offset = none;
    candidate_seasonal_offsets = [];
    declared_offsets = declared;
    headline = headline;
    details = details;
  }

  abbrev unrestricted : Option String → List ℤ → TimezoneResult
  unrestricted zone declared = record {
    status = satisfied;
    reason_code = tz_no_declared_restriction;
    candidate_current_offset = elim zone [ none ↦ none | some z ↦ offset_at z now ];
    candidate_seasonal_offsets = elim zone [ none ↦ [] | some z ↦ get_seasonal_offsets z ];
    declared_offsets = declared;
    headline = "No timezone constraints";
    details = "No timezone constraints declared by employer.";
  }

  -- The answer where the job declares offsets.
  abbrev pub restricted : Option String → List ℤ → TimezoneResult
  restricted zone declared = elim zone [
    | none ↦
        unspecified declared "Timezone unspecified"
          "Candidate profile does not state a timezone; check required."
    | some z ↦ elim (offset_at z now) [
      | none ↦
          unspecified declared "Unrecognized timezone"
            ("Candidate timezone \"" ++ (z ++ "\" could not be parsed; check required."))
      | some current ↦ compared z current declared
    ]
  ]

  unfoldable pub evaluate : Option String → List ℤ → TimezoneResult
  evaluate zone declared =
      if is_empty declared
      then unrestricted (non_empty zone) declared
      else restricted (non_empty zone) declared
