-- ===== src/Cursors/Samples.antt =====
-- A notation for numbers and texts that has no dot, for sample codecs: a number is a run of `x` with
-- `z` at the end; a text has `x` before each character, `y` for a dot, and `z` at the end.
use Prim.Native.Char.{code}
use Prim.Native.String.{String, ◌++◌}
use rolebrief.Common.{
  ℕ, zero, suc, Bool, true, false, none, ◌≡◌, refl, ap, sym, ◌==◌, ==_iff, if◌then◌else◌, truthy,
  Bool-cases, inl, inr,
}
use text.Mathlib.TextEquality.{Char-path}
use rolebrief.Cursors.{cut_at_dot}

abbrev pub write_number : ℕ → String → String
write_number zero rest = String.◌∷◌ "z" rest
write_number (suc n) rest = String.◌∷◌ "x" (write_number n rest)

abbrev pub write_text : String → String → String
write_text String.[] rest = String.◌∷◌ "z" rest
write_text (String.◌∷◌ c s) rest =
    let tail = write_text s rest in
    if code c == 46 then String.◌∷◌ "y" tail else String.◌∷◌ "x" (String.◌∷◌ c tail)

abbrev pub read_number : String → ℕ × String
read_number String.[] = (0, "")
read_number (String.◌∷◌ c s) =
    let next = read_number s in if code c == 120 then (suc next.0, next.1) else (0, s)

-- `true` where the next character is one of the text.
abbrev pub read_text : Bool → String → String × String
read_text inside String.[] = ("", "")
read_text true (String.◌∷◌ c s) = let next = read_text false s in (String.◌∷◌ c next.0, next.1)
read_text false (String.◌∷◌ c s) =
    let next = read_text false s in
    let marked = read_text true s in
    if code c == 122
    then ("", s)
    else if code c == 121
    then (String.◌∷◌ "." next.0, next.1)
    else marked

pub read_number-write_number :
    (n : ℕ) (rest : String) → read_number (write_number n rest) ≡ (n, rest)
read_number-write_number zero rest = refl
read_number-write_number (suc n) rest = ap (λ p. (suc p.0, p.1)) (read_number-write_number n rest)

pub cut_at_dot-write_number :
    (n : ℕ) (rest : String) → cut_at_dot rest ≡ none → cut_at_dot (write_number n rest) ≡ none
unfolding cut_at_dot
cut_at_dot-write_number zero rest h = rw (h, cut_at_dot) refl
cut_at_dot-write_number (suc n) rest h = rw (cut_at_dot-write_number n rest h, cut_at_dot) refl

pub cut_at_dot-write_text :
    (s rest : String) → cut_at_dot rest ≡ none → cut_at_dot (write_text s rest) ≡ none
unfolding cut_at_dot
cut_at_dot-write_text String.[] rest h = rw (h, cut_at_dot) refl
cut_at_dot-write_text (String.◌∷◌ c s) rest h = elim (Bool-cases (code c == 46)) [
  | inl dot ↦ rw (dot, cut_at_dot) (rw (cut_at_dot-write_text s rest h, cut_at_dot) refl)
  | inr other ↦
      rw (other, cut_at_dot)
        (rw (other, cut_at_dot) (rw (cut_at_dot-write_text s rest h, cut_at_dot) refl))
]

pub read_text-write_text : (s rest : String) → read_text false (write_text s rest) ≡ (s, rest)
read_text-write_text String.[] rest = refl
read_text-write_text (String.◌∷◌ c s) rest = elim (Bool-cases (code c == 46)) [
  | inl dot ↦ rw dot (
      rw (read_text-write_text s rest)
        (ap (λ d. (String.◌∷◌ d s, rest)) (sym (Char-path c "." ((==_iff (code c) 46).0 dot)))))
  | inr other ↦ rw other (rw (read_text-write_text s rest) refl)
]

pub write_number-truthy : (n : ℕ) (rest : String) → truthy (write_number n rest) ≡ true
write_number-truthy zero rest = refl
write_number-truthy (suc n) rest = refl

abbrev pub sample_iso : ℕ → String
sample_iso t = write_number t ""

abbrev pub sample_date : String → ℕ
sample_date s = (read_number s).0

pub sample_dates : (t : ℕ) → sample_date (sample_iso t) ≡ t
sample_dates t = ap (λ p. p.0) (read_number-write_number t "")

abbrev pub sample_hmac : String → String → String
sample_hmac secret text = String.◌∷◌ "s" (secret ++ text)
