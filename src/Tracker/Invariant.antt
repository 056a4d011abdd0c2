-- ===== src/Tracker/Invariant.antt =====
-- What holds of the tracker's tables between two requests.
pub mod Create
pub mod Update
pub mod Delete
use rolebrief.Common.{
  ◌++◌, map, Bool, find, Bool-cases, inl, inr, some-injective, subst, All-find, All-map_le, ℕ, ◌<◌,
  true, Option, none, some, List, [], ◌∷◌, ◌≡◌, ◌≢◌, arith, ◌==◌, if◌then◌else◌, All, Pairs,
  ==_refl, All-map, All-append, Pairs-map, sym, ◌∙◌,
}
use rolebrief.Tracker.Types.{Stage, Application, HistoryRow, JobRow, Store}
use rolebrief.Tracker.Transitions.{validate_transition}

-- The stage that the newest history row of an application leads to.
abbrev pub newest : ℕ → List HistoryRow → Option Stage
newest id [] = none
newest id (h ∷ rest) = if h.application_id == id then some h.to_stage else newest id rest

-- A first row, or a move that `validateTransition` accepts.
abbrev pub IsLegal : Option Stage → Stage → Type 0
IsLegal none to = Unit
IsLegal (some from) to = validate_transition from to ≡ true

-- Two rows have different identifiers, and are not the same user's for the same job.
abbrev pub Apart : Application → Application → Type 0
Apart a b =
    (a.id ≢ b.id) × ((j : ℕ) → a.user_id ≡ b.user_id → a.job_id ≡ some j → b.job_id ≢ some j)

pub record IsConsistent (s : Store) : Type 0 where
  pub fresh : All (λ a. a.id < s.next_id) s.applications
  pub known : All (λ h. h.application_id < s.next_id) s.history
  pub legal : All (λ h. IsLegal h.from_stage h.to_stage) s.history
  pub current : All (λ a. newest a.id s.history ≡ some a.stage) s.applications
  pub apart : Pairs Apart s.applications

abbrev pub no_applications : List JobRow → Store
no_applications jobs = record { applications = []; history = []; jobs = jobs; next_id = 0 }

pub no_applications-IsConsistent : (jobs : List JobRow) → IsConsistent (no_applications jobs)
no_applications-IsConsistent jobs = record {
  fresh = tt;
  known = tt;
  legal = tt;
  current = tt;
  apart = tt;
}

pub newest-cons_ne :
    (id : ℕ) (h : HistoryRow) (rows : List HistoryRow)
    → h.application_id ≢ id
    → newest id (h ∷ rows) ≡ newest id rows
newest-cons_ne id h rows d = ground arith

pub newest-cons_self :
    (h : HistoryRow) (rows : List HistoryRow) → newest h.application_id (h ∷ rows) ≡ some h.to_stage
newest-cons_self h rows = rw (==_refl h.application_id)

-- A change that leaves the columns alone by which rows are told apart.
abbrev pub KeepsKeys : (Application → Application) → Type 0
KeepsKeys f =
    (a : Application) → ((f a).id ≡ a.id) × ((f a).user_id ≡ a.user_id) × ((f a).job_id ≡ a.job_id)

-- What a write has to show: its history rows are legal and of known applications, and lead to the
-- stages that the write leaves.
pub changed-IsConsistent :
    (f : Application → Application) (rows : List HistoryRow) (s : Store)
    → KeepsKeys f
    → All (λ h. h.application_id < s.next_id) rows
    → All (λ h. IsLegal h.from_stage h.to_stage) rows
    → All (λ a. newest a.id (rows ++ s.history) ≡ some (f a).stage) s.applications
    → IsConsistent s
    → IsConsistent (record s { applications = map f s.applications; history = rows ++ s.history })
changed-IsConsistent f rows s keys known legal leads c = record {
  fresh = All-map _ _ f s.applications (λ a (h : a.id < s.next_id). rw (keys a).0 h) c.fresh;
  known = All-append _ rows s.history known c.known;
  legal = All-append _ rows s.history legal c.legal;
  current =
      All-map _ _ f s.applications
        (λ a (h : newest a.id (rows ++ s.history) ≡ some (f a).stage). rw (keys a).0 h) leads;
  apart =
      Pairs-map _ _ f s.applications
        (λ a b (h : Apart a b). (
          (λ e. h.0 (sym (keys a).0 ∙ e ∙ (keys b).0)),
          λ j same left right.
              h.1 j (sym (keys a).1 ∙ same ∙ (keys b).1) (sym (keys a).2 ∙ left)
                (sym (keys b).2 ∙ right),
        ))
        c.apart;
}

-- An identifier names one row.
pub same_row :
    (p : Application → Bool) (rows : List Application) {a : Application}
    → Pairs Apart rows
    → find p rows ≡ some a
    → All (λ b. b.id ≡ a.id → b ≡ a) rows
same_row p [] apart e = tt
same_row p (x ∷ rows) {a} apart e = elim (Bool-cases (p x)) [
  | inl hit ↦
      let first : x ≡ a = some-injective x a (rw hit at e) in
      ((λ _. first), subst (λ y. All (λ b. b.id ≡ y.id → b ≡ y) rows) first (others x rows apart.0))
  | inr miss ↦
      let rest : find p rows ≡ some a = rw miss at e in
      (
        (λ same. absurd ((All-find (Apart x) p rows apart.0 rest).0 same)),
        same_row p rows apart.1 rest,
      )
]
  where
    others :
        (x : Application) (rows : List Application)
        → All (Apart x) rows
        → All (λ b. b.id ≡ x.id → b ≡ x) rows
    others x rows h = All-map_le _ _ rows (λ b (d : Apart x b) same. absurd (d.0 (sym same))) h
