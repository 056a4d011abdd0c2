-- ===== src/Eligibility/TimezoneLaws.antt =====
-- When a time zone fits the offsets that a job declares.
use rolebrief.Common.{
  ℕ, Bool, true, false, ◌||◌, Option, none, some, some-injective, List, [], ◌∷◌, String, any,
  is_empty, non_empty, ◌≡◌, ◌↔◌, ◌⊎◌, inl, inr, refl, arith, Option-cases, sym, ap, ◌∙◌, subst,
}
use rolebrief.Common.Int.{ℤ, int_eq_iff}
use rolebrief.Eligibility.Types.{satisfied}
use rolebrief.Eligibility.Timezone
use rolebrief.Eligibility.Timezone.{
  has_offset, in_order, get_seasonal_offsets, compared, restricted,
}

-- The offset, if there is one, is declared.
abbrev pub declares : List ℤ → Option ℤ → Bool
declares declared none = false
declares declared (some o) = has_offset declared o

-- Sorting two offsets and dropping a repeated one loses no offset.
any-in_order :
    (declared : List ℤ) (w s : Option ℤ)
    → any (has_offset declared) (in_order w s) ≡ (declares declared w || declares declared s)
any-in_order declared none none = refl
any-in_order declared none (some s) = ground arith
any-in_order declared (some w) none = ground arith
any-in_order declared (some w) (some s) = ground (arith, int_eq_iff s w)

module _ (offset_at : String → ℕ → Option ℤ) (now winter summer : ℕ) where
  -- The zone's offset now, in winter or in summer is declared.
  abbrev pub Fits : List ℤ → String → ℤ → Type 0
  Fits declared z current =
      (has_offset declared current ≡ true)
      ⊎ (declares declared (offset_at z winter) ≡ true)
      ⊎ (declares declared (offset_at z summer) ≡ true)

  any-get_seasonal_offsets :
      (declared : List ℤ) (z : String)
      → any (has_offset declared) (get_seasonal_offsets offset_at now winter summer z)
        ≡ (declares declared (offset_at z winter) || declares declared (offset_at z summer))
  unfolding get_seasonal_offsets
  any-get_seasonal_offsets declared z =
      any-in_order declared (offset_at z winter) (offset_at z summer)

  compared-satisfied_iff :
      (z : String) (current : ℤ) (declared : List ℤ)
      → ((compared offset_at now winter summer z current declared).status ≡ satisfied)
        ↔ Fits declared z current
  compared-satisfied_iff z current declared = ground (arith, any-get_seasonal_offsets declared z)

  restricted-satisfied_iff :
      (zone : Option String) (declared : List ℤ)
      → ((restricted offset_at now winter summer zone declared).status ≡ satisfied) ↔ (
          (z : String) × (current : ℤ) × (zone ≡ some z)
          × (offset_at z now ≡ some current)
          × Fits declared z current)
  restricted-satisfied_iff none declared = ground arith
  restricted-satisfied_iff (some z) declared = elim (Option-cases (offset_at z now)) [
    | inl unknown ↦ (
      (λ h. cc (rw (unknown, restricted) at h)),
      λ (y, current, e, known, fits).
          cc (sym unknown ∙ ap (λ x. offset_at x now) (some-injective z y e) ∙ known),
    )
    | inr (current, known) ↦
        let fit = compared-satisfied_iff z current declared in
        (
          (λ h. (z, current, refl, known, fit.0 (rw (known, restricted) at h))),
          λ (y, other, e, at_y, fits).
              let same_zone = some-injective z y e in
              let same_offset =
                some-injective current other
                  (sym known ∙ ap (λ x. offset_at x now) same_zone ∙ at_y) in
              rw (known, restricted)
                (fit.1 (
                  subst (λ x. Fits declared x current) (sym same_zone)
                    (subst (λ x. Fits declared y x) (sym same_offset) fits))),
        )
  ]

  -- Time zones are satisfied exactly when the job declares no offsets, or the candidate's zone is
  -- known and its offset now, in winter or in summer is one of the declared offsets.
  pub evaluate-satisfied_iff :
      (zone : Option String) (declared : List ℤ)
      → ((Timezone.evaluate offset_at now winter summer zone declared).status ≡ satisfied) ↔ (
          (is_empty declared ≡ true)
          ⊎ ((z : String) × (current : ℤ) × (non_empty zone ≡ some z)
              × (offset_at z now ≡ some current)
              × Fits declared z current))
  unfolding Timezone.evaluate
  evaluate-satisfied_iff tz [] = ground arith
  evaluate-satisfied_iff tz (o ∷ declared) =
      let r = restricted-satisfied_iff (non_empty tz) (o ∷ declared) in
      ((λ h. inr (r.0 h)), λ h. elim h [ inl e ↦ cc | inr found ↦ r.1 found ])
