-- ===== src/Cursors.antt =====
-- The signed cursors of backend/src/modules: tracker/tracker-cursor.util.ts,
-- saved/saved-cursor.util.ts and notifications/notification-cursor.util.ts. The three begin alike:
-- a token is the payload as JSON in base64url, a dot, and the HMAC of that text. What Node computes,
-- JSON, base64url and the HMAC, is a `Codec`.
pub mod Samples
use Prim.Native.Char.{Char, code}
use Prim.Native.String.{String, ◌++◌}
use text.Mathlib.TextEquality.{Char-path}
use Prim.Native.String.append
use mathlib.Core.Option
use rolebrief.Common.{
  ℕ, ◌≤◌, Bool, true, false, ◌||◌, not, Option, none, some, ◌≡◌, ◌⊎◌, inl, inr, refl, ap, ◌∙◌,
  arith, ltb, ◌==◌, str_eq, str_eq_refl, str_eq_iff, sym, ==_iff, truthy, utf16_length,
  if◌then◌else◌, Bool-cases, Option-cases, some-injective,
}

-- `P` is the payload, `Q` what `JSON.parse` gives of a token's body: no answer where it throws.
pub record Codec (P Q : Type 0) : Type 0 where
  pub body_of : P → String
  pub parse_body : String → Option Q
  pub hmac : String → String → String

-- The exceptions of the three files.
pub data CursorError : Type 0 where
  no_secret invalid_format malformed_format invalid_signature malformed_payload invalid_structure :
      CursorError
  other_user filter_mismatch lifecycle_mismatch : CursorError

pub data Checked {ℓ} (A : Type ℓ) : Type ℓ where
  accepted : A → Checked A
  refused : CursorError → Checked A

infixl 5 ◌>>=◌
abbrev pub ◌>>=◌ {ℓ κ} : {A : Type ℓ} {B : Type κ} → Checked A → (A → Checked B) → Checked B
accepted a >>= f = f a
refused e >>= f = refused e

infixl 5 ◌>>◌
abbrev pub ◌>>◌ {ℓ κ} : {A : Type ℓ} {B : Type κ} → Checked A → Checked B → Checked B
accepted a >> m = m
refused e >> m = refused e

abbrev answer {ℓ} : {A : Type ℓ} → A → Checked A → A
answer a (accepted b) = b
answer a (refused e) = a

pub accepted-injective {ℓ} : {A : Type ℓ} {a b : A} → accepted a ≡ accepted b → a ≡ b
accepted-injective {a} e = ap (answer a) e

-- `if (failed) throw e`
abbrev pub refuse_if : Bool → CursorError → Checked {0} Unit
refuse_if true e = refused e
refuse_if false e = accepted tt

-- What is accepted after a step was accepted by the step.
pub bind-accepted {ℓ κ} :
    {A : Type ℓ} {B : Type κ} (m : Checked A) (f : A → Checked B) {b : B}
    → (m >>= f) ≡ accepted b
    → (a : A) × (m ≡ accepted a) × (f a ≡ accepted b)
bind-accepted (accepted a) f e = (a, refl, e)
bind-accepted (refused x) f e = cc

-- A text cut at its first dot: `indexOf`, and the two `slice`s.
unfoldable pub cut_at_dot : String → Option (String × String)
cut_at_dot String.[] = none
cut_at_dot (String.◌∷◌ c s) =
    let rest = cut_at_dot s in
    if code c == 46 then some ("", s) else Option.map (λ p. (String.◌∷◌ c p.0, p.1)) rest

module _ {P Q : Type 0} (codec : Codec P Q) where
  -- `${payloadBase64}.${signature}`
  abbrev pub token_of : String → P → String
  token_of secret p = codec.body_of p ++ ("." ++ codec.hmac secret (codec.body_of p))

  unfoldable pub encode : String → P → Checked String
  encode secret p =
      if ltb (utf16_length secret) 16 then refused no_secret else accepted (token_of secret p)

  -- The body of a token whose signature is right.
  unfoldable pub verify : String → String → Checked String
  verify secret cursor = elim (truthy cursor) [
    | false ↦ refused invalid_format
    | true ↦ elim (cut_at_dot cursor) [
      | none ↦ refused malformed_format
      | some (body, signature) ↦
          if not (truthy body) || not (truthy signature)
          then refused malformed_format
          else if str_eq signature (codec.hmac secret body)
          then accepted body
          else refused invalid_signature
    ]
  ]

  unfoldable pub read_body : String → Checked Q
  read_body body = elim (codec.parse_body body) [
    | none ↦ refused malformed_payload
    | some q ↦ accepted q
  ]

-- What the documentation of base64url, JSON and HMAC promises: base64url has no dot, neither it nor
-- the signature is empty, and a payload is read back.
pub record IsCodec {P Q : Type 0} (codec : Codec P Q) (read : P → Q) : Type 0 where
  pub no_dot : (p : P) → cut_at_dot (codec.body_of p) ≡ none
  pub body : (p : P) → truthy (codec.body_of p) ≡ true
  pub signature : (secret text : String) → truthy (codec.hmac secret text) ≡ true
  pub parses : (p : P) → codec.parse_body (codec.body_of p) ≡ some (read p)

dot_append : (rest : String) → "." ++ rest ≡ String.◌∷◌ "." rest
dot_append rest = append.cons "." "" rest ∙ ap (λ t. String.◌∷◌ "." t) (append.nil rest)

cut_at_dot-append :
    (body rest : String)
    → cut_at_dot body ≡ none
    → cut_at_dot (body ++ ("." ++ rest)) ≡ some (body, rest)
unfolding cut_at_dot
cut_at_dot-append String.[] rest h = rw (append.nil ("." ++ rest)) (rw (dot_append rest) refl)
cut_at_dot-append (String.◌∷◌ c body) rest h = elim (Bool-cases (code c == 46)) [
  | inl dot ↦ cc (rw dot at h)
  | inr other ↦ elim (Option-cases (cut_at_dot body)) [
    | inl end ↦
        rw (append.cons c body ("." ++ rest)) (rw (other, cut_at_dot-append body rest end) refl)
    | inr (p, found) ↦ cc (rw (other, found) at h)
  ]
]

cut_at_dot-some :
    (text body rest : String) → cut_at_dot text ≡ some (body, rest) → text ≡ body ++ ("." ++ rest)
unfolding cut_at_dot
cut_at_dot-some String.[] body rest h = cc
cut_at_dot-some (String.◌∷◌ c s) body rest h = elim (Bool-cases (code c == 46)) [
  | inl dot ↦
      let e = some-injective _ _ (rw (dot, cut_at_dot) at h) in
      ap (λ d. String.◌∷◌ d s) (Char-path c "." ((==_iff (code c) 46).0 dot))
      ∙ sym (dot_append s)
      ∙ sym (append.nil ("." ++ s))
      ∙ ap (λ p. p.0 ++ ("." ++ p.1)) e
  | inr other ↦ elim (Option-cases (cut_at_dot s)) [
    | inl end ↦ cc (rw (other, end) at h)
    | inr ((b, r), found) ↦
        let e = some-injective _ _ (rw (other, found) at h) in
        ap (λ t. String.◌∷◌ c t) (cut_at_dot-some s b r found)
        ∙ sym (append.cons c b ("." ++ r))
        ∙ ap (λ p. p.0 ++ ("." ++ p.1)) e
  ]
]

truthy-append : (a b : String) → truthy a ≡ true → truthy (a ++ b) ≡ true
truthy-append String.[] b h = cc
truthy-append (String.◌∷◌ c a) b h = rw (append.cons c a b) refl

only_accepted :
    (bad same : Bool) (x y : CursorError) (b body : String)
    → (if bad then refused x else if same then accepted b else refused y) ≡ accepted body
    → (same ≡ true) × (b ≡ body)
only_accepted true same x y b body e = cc
only_accepted false true x y b body e = (refl, accepted-injective e)
only_accepted false false x y b body e = cc

module _ {P Q : Type 0} (codec : Codec P Q) (read : P → Q) where
  -- A token that `encode` made passes the check of its signature, and its body is read back.
  pub verify-encode :
      (secret : String) (p : P) (token : String)
      → IsCodec codec read
      → encode codec secret p ≡ accepted token
      → (verify codec secret token ≡ accepted (codec.body_of p))
        × (read_body codec (codec.body_of p) ≡ accepted (read p))
  unfolding encode verify read_body
  verify-encode secret p token c e = elim (Bool-cases (ltb (utf16_length secret) 16)) [
    | inl short ↦ ground arith
    | inr long ↦
        let body = codec.body_of p in
        let made : token ≡ body ++ ("." ++ codec.hmac secret body) =
          sym (accepted-injective (rw (long, encode) at e)) in
        (
          rw made (
              rw
                (
                  verify,
                  truthy-append body ("." ++ codec.hmac secret body) (c.body p),
                  cut_at_dot-append body (codec.hmac secret body) (c.no_dot p),
                  c.body p,
                  c.signature secret body,
                  str_eq_refl (codec.hmac secret body),
                )
                refl),
          rw (c.parses p, read_body) refl,
        )
  ]

  pub encode-long :
      (secret : String) (p : P)
      → 16 ≤ utf16_length secret
      → encode codec secret p ≡ accepted (token_of codec secret p)
  unfolding encode
  encode-long secret p h = ground arith

  pub token_of-truthy :
      (secret : String) (p : P) → IsCodec codec read → truthy (token_of codec secret p) ≡ true
  token_of-truthy secret p c =
      truthy-append (codec.body_of p) ("." ++ codec.hmac secret (codec.body_of p)) (c.body p)

  -- A token that passes the check is a body with its own signature.
  pub verify-authentic :
      (secret token body : String)
      → verify codec secret token ≡ accepted body
      → token ≡ body ++ ("." ++ codec.hmac secret body)
  unfolding verify
  verify-authentic secret token body e = elim (Bool-cases (truthy token)) [
    | inr blank ↦ cc (rw (blank, verify) at e)
    | inl text ↦ elim (Option-cases (cut_at_dot token)) [
      | inl whole ↦ cc (rw (text, whole, verify) at e)
      | inr ((b, signature), cut) ↦
          let (same, b_body) = only_accepted _ _ _ _ b body (rw (text, cut, verify) at e) in
          let signed = (str_eq_iff signature (codec.hmac secret b)).0 same in
          cut_at_dot-some token b signature cut
          ∙ ap (λ t. b ++ ("." ++ t)) signed
          ∙ ap (λ t. t ++ ("." ++ codec.hmac secret t)) b_body
    ]
  ]
