-- ===== src/Auth/OneLive.antt =====
-- A family never has two live sessions
-- (backend/src/auth/auth.service.ts).
use rolebrief.Common.{
  ◌<◌, Bool, List, [], ◌∷◌, ◌++◌, String, sym, subst, All, All-append, All-right, Pairs, Bool-cases,
  inl, inr,
}
use rolebrief.Auth.Types.{Session, Tables}
use rolebrief.Auth.Sessions.{AuthConfig, check_refresh}
use rolebrief.Auth.Families.{Knows, Only, IsAlone, checked-Only, rotate-IsAlone}
use rolebrief.Auth.Requests.{
  World, OtherFamily, Step, Steps, stops, goes, logs_in, begins_refresh, checks_refresh, rotates,
  rolls_back, logs_out, passes_guard, revokes_session, revokes_others, logs_out_all,
  changes_password, resets_password, administers, elsewhere,
}
use rolebrief.Auth.Keeping.{IsOrderly, later-IsAlone, login-Keeps, begin-Keeps}
use rolebrief.Auth.Others.{
  logout-Keeps, guard-Keeps, revoke_session-Keeps, revoke_others-Keeps, change_password-Keeps,
  reset_password-Keeps, logout_all-Keeps, admin-Keeps,
}

All-left : (P : Session → Type 0) (xs ys : List Session) → All P (xs ++ ys) → All P xs
All-left P [] ys h = tt
All-left P (x ∷ xs) ys h = (h.0, All-left P xs ys h.1)

All-without :
    (P : Session → Type 0) (y : Session) (xs ys : List Session)
    → All P (xs ++ (y ∷ ys))
    → All P (xs ++ ys)
All-without P y xs ys h =
    All-append P xs ys (All-left P xs (y ∷ ys) h) (All-right P xs (y ∷ ys) h).1

Pairs-without :
    (y : Session) (xs ys : List Session)
    → Pairs OtherFamily (xs ++ (y ∷ ys))
    → All (OtherFamily y) (xs ++ ys) × Pairs OtherFamily (xs ++ ys)
Pairs-without y [] ys h = h
Pairs-without y (x ∷ xs) ys h =
    let (others, rest) = Pairs-without y xs ys h.1 in
    (
      ((λ same. (All-right (OtherFamily x) xs (y ∷ ys) h.0).0 (sym same)), others),
      (All-without (OtherFamily x) y xs ys h.0, rest),
    )

-- A refresh that waited leaves.
started :
    (existing : Session) (earlier later checked : List Session) (t : Tables)
    → IsAlone t.sessions t.next_id
        (record { waiting = earlier ++ (existing ∷ later); checked = checked })
    → IsAlone t.sessions t.next_id (record { waiting = earlier ++ later; checked = checked })
started existing earlier later checked t inv = record {
  fresh = inv.fresh;
  apart = inv.apart;
  alone = inv.alone;
  known = All-without _ existing earlier later inv.known;
  only = inv.only;
  parted = inv.parted;
}

-- A refresh that waited has checked its session.
begun :
    (existing : Session) (earlier later checked : List Session) (t : Tables)
    → All (OtherFamily existing) checked
    → Only t.sessions existing
    → IsAlone t.sessions t.next_id
        (record { waiting = earlier ++ (existing ∷ later); checked = checked })
    → IsAlone t.sessions t.next_id
        (record { waiting = earlier ++ later; checked = existing ∷ checked })
begun existing earlier later checked t others only inv = record {
  fresh = inv.fresh;
  apart = inv.apart;
  alone = inv.alone;
  known = All-without _ existing earlier later inv.known;
  only = (only, inv.only);
  parted = (others, inv.parted);
}

-- A transaction is over.
ended :
    (existing : Session) (waiting earlier later : List Session) (t : Tables)
    → IsAlone t.sessions t.next_id
        (record { waiting = waiting; checked = earlier ++ (existing ∷ later) })
    → IsAlone t.sessions t.next_id (record { waiting = waiting; checked = earlier ++ later })
ended existing waiting earlier later t inv = record {
  fresh = inv.fresh;
  apart = inv.apart;
  alone = inv.alone;
  known = inv.known;
  only = All-without _ existing earlier later inv.only;
  parted = (Pairs-without existing earlier later inv.parted).1;
}

module _ (hash_token to_lower : String → String) (verify : String → String → Bool)
    (hash_password public_id : String → String) (config : AuthConfig) where
  abbrev Stepping : World → World → Type 0
  Stepping = Step hash_token to_lower verify hash_password public_id config

  step-IsOrderly : (w x : World) → Stepping w x → IsOrderly w → IsOrderly x
  step-IsOrderly w x (logs_in admitted now email password family tokens client _ new others) inv =
      login-Keeps hash_token to_lower verify hash_password public_id config admitted now email
        password family tokens client w.tables new w.flights others inv
  step-IsOrderly w x (begins_refresh admitted now token _) inv =
      begin-Keeps hash_token to_lower verify hash_password public_id config admitted now token w inv
  step-IsOrderly w x (checks_refresh existing earlier later checked t others) inv =
      elim (Bool-cases (check_refresh hash_token config existing t)) [
        | inr revoked ↦ rw revoked (started existing earlier later checked t inv)
        | inl passes ↦ rw passes (
            begun existing earlier later checked t others
              (checked-Only hash_token config existing t
                (All-right (λ (e : Session). (e.id < t.next_id) × Knows t.sessions e) earlier
                  (existing ∷ later) inv.known).0.1
                inv.alone passes)
              inv)
      ]
  step-IsOrderly w x (rotates now existing waiting earlier later tokens client t) inv =
      let (others, left) = Pairs-without existing earlier later inv.parted in
      rotate-IsAlone hash_token config now existing tokens client t
        (record { waiting = waiting; checked = earlier ++ later })
        (All-right (Only t.sessions) earlier (existing ∷ later) inv.only).0 others
        (ended existing waiting earlier later t inv)
  step-IsOrderly w x (rolls_back existing waiting earlier later t) inv =
      ended existing waiting earlier later t inv
  step-IsOrderly w x (logs_out now access refresh_token _) inv =
      logout-Keeps hash_token to_lower verify hash_password public_id config now access
        refresh_token w.tables w.flights inv
  step-IsOrderly w x (passes_guard now access _) inv =
      guard-Keeps hash_token to_lower verify hash_password public_id config now access w.tables
        w.flights inv
  step-IsOrderly w x (revokes_session now user_id session_id public_session_id _) inv =
      revoke_session-Keeps hash_token to_lower verify hash_password public_id config now user_id
        session_id public_session_id w.tables w.flights inv
  step-IsOrderly w x (revokes_others now user_id session_id _) inv =
      revoke_others-Keeps hash_token to_lower verify hash_password public_id config now user_id
        session_id w.tables w.flights inv
  step-IsOrderly w x (logs_out_all now user_id _) inv =
      logout_all-Keeps hash_token to_lower verify hash_password public_id config now user_id
        w.tables w.flights inv
  step-IsOrderly w x (changes_password now user_id session_id old_password new_password _) inv =
      change_password-Keeps hash_token to_lower verify hash_password public_id config now user_id
        session_id old_password new_password w.tables w.flights inv
  step-IsOrderly w x (resets_password admitted now token password _) inv =
      reset_password-Keeps hash_token to_lower verify hash_password public_id config admitted now
        token password w.tables w.flights inv
  step-IsOrderly w x (administers r _) inv =
      admin-Keeps hash_token to_lower verify hash_password public_id config r w.tables w.flights inv
  step-IsOrderly w x (elsewhere _ t same le) inv =
      subst (λ ss. IsAlone ss t.next_id w.flights) (sym same)
        (later-IsAlone w.tables.sessions w.tables.next_id t.next_id w.flights le inv)

  -- Whatever requests come, of users or of administrators, in any order and with the parts of
  -- refreshes between one another, no family ever has two live sessions, as long as no two refresh
  -- transactions of one family overlap, if none had at first and every login gets a new family.
  pub Steps-IsOrderly :
      (w x : World)
      → Steps hash_token to_lower verify hash_password public_id config w x
      → IsOrderly w
      → IsOrderly x
  Steps-IsOrderly w x (stops _) inv = inv
  Steps-IsOrderly w x (goes _ y _ first rest) inv =
      Steps-IsOrderly y x rest (step-IsOrderly w y first inv)
