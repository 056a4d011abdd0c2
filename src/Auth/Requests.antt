-- ===== src/Auth/Requests.antt =====
-- The steps of the requests on sessions (backend/src/auth/auth.service.ts and auth.guard.ts), in any
-- order; a refresh takes three: what comes before its transaction, the read of the transaction, and
-- its writes. Others may come between them. Also the updates of accounts by administrators.
use rolebrief.Common.{ℕ, ◌≤◌, Bool, if◌then◌else◌, Option, List, ◌∷◌, ◌++◌, String, ◌≡◌, ◌≢◌, All}
use rolebrief.Auth.Types.{Session, Tables, Reply, grants, denies}
use rolebrief.Auth.Sessions.{
  AuthConfig, Client, FreshTokens, begin_refresh, check_refresh, rotate_session, logout,
  can_activate,
}
use rolebrief.Auth.Sessions.Revocation.{
  change_password, revoke_session, revoke_other_sessions, logout_all,
}
use rolebrief.Auth.Login.{login}
use rolebrief.Auth.Recovery.{reset_password}
use rolebrief.Auth.Admins.{AdminRequest, handle}

-- The sessions that refreshes have read: those that wait for their transaction, and those that the
-- transaction has found unrevoked and not replaced yet.
pub record Flights : Type 0 where
  pub waiting : List Session
  pub checked : List Session

pub record World : Type 0 where
  pub tables : Tables
  pub flights : Flights

-- The sessions are of two families.
abbrev pub OtherFamily : Session → Session → Type 0
OtherFamily a b = a.token_family_id ≢ b.token_family_id

abbrev pub after_read : World → Reply Session × Tables → World
after_read w (grants existing, t) = record {
  tables = t;
  flights = record w.flights { waiting = existing ∷ w.flights.waiting };
}
after_read w (denies e, t) = record w { tables = t }

abbrev pub at : World → Tables → World
at w t = record w { tables = t }

module _ (hash_token to_lower : String → String) (verify : String → String → Bool)
    (hash_password public_id : String → String) (config : AuthConfig) where
  pub data Step : World → World → Type 0 where
    logs_in :
        (admitted : Bool) (now : ℕ) (email password family : String) (tokens : FreshTokens)
        (client : Client) (w : World)
        → All (λ (s : Session). family ≢ s.token_family_id) w.tables.sessions
        → All (λ (s : Session). family ≢ s.token_family_id) w.flights.checked
        → Step w (
            at w
              (login hash_token to_lower verify config admitted now email password family tokens
                client w.tables).1)
    begins_refresh :
        (admitted : Bool) (now : ℕ) (token : Option String) (w : World)
        → Step w (after_read w (begin_refresh hash_token config admitted now token w.tables))
    -- No two transactions of one family overlap.
    checks_refresh :
        (existing : Session) (earlier later checked : List Session) (t : Tables)
        → All (OtherFamily existing) checked
        → Step
            (record {
              tables = t;
              flights = record { waiting = earlier ++ (existing ∷ later); checked = checked };
            })
            (record {
              tables = t;
              flights = record {
                waiting = earlier ++ later;
                checked =
                    if check_refresh hash_token config existing t
                    then existing ∷ checked
                    else checked;
              };
            })
    rotates :
        (now : ℕ) (existing : Session) (waiting earlier later : List Session) (tokens : FreshTokens)
        (client : Client) (t : Tables)
        → Step
            (record {
              tables = t;
              flights = record { waiting = waiting; checked = earlier ++ (existing ∷ later) };
            })
            (record {
              tables = (rotate_session hash_token config now existing tokens client t).1;
              flights = record { waiting = waiting; checked = earlier ++ later };
            })
    -- The transaction fails.
    rolls_back :
        (existing : Session) (waiting earlier later : List Session) (t : Tables)
        → Step
            (record {
              tables = t;
              flights = record { waiting = waiting; checked = earlier ++ (existing ∷ later) };
            })
            (record {
              tables = t;
              flights = record { waiting = waiting; checked = earlier ++ later };
            })
    logs_out :
        (now : ℕ) (access refresh_token : Option String) (w : World)
        → Step w (at w (logout hash_token config now access refresh_token w.tables))
    passes_guard :
        (now : ℕ) (access : Option String) (w : World)
        → Step w (at w (can_activate hash_token config now access w.tables).1)
    revokes_session :
        (now user_id session_id : ℕ) (public_session_id : String) (w : World)
        → Step w
            (at w (revoke_session public_id now user_id session_id public_session_id w.tables).1)
    revokes_others :
        (now user_id session_id : ℕ) (w : World)
        → Step w (at w (revoke_other_sessions now user_id session_id w.tables).1)
    logs_out_all : (now user_id : ℕ) (w : World) → Step w (at w (logout_all now user_id w.tables))
    changes_password :
        (now user_id session_id : ℕ) (current_password new_password : String) (w : World)
        → Step w (
            at w
              (change_password verify hash_password now user_id session_id current_password
                new_password w.tables).1)
    resets_password :
        (admitted : Bool) (now : ℕ) (token password : String) (w : World)
        → Step w (
            at w
              (reset_password hash_token to_lower hash_password admitted now token password
                w.tables).1)
    administers : (r : AdminRequest) (w : World) → Step w (at w (handle r w.tables))
    -- A transaction on other tables, which may use up identifiers.
    elsewhere :
        (w : World) (t : Tables)
        → t.sessions ≡ w.tables.sessions
        → w.tables.next_id ≤ t.next_id
        → Step w (at w t)

  -- Any number of steps.
  pub data Steps : World → World → Type 0 where
    stops : (w : World) → Steps w w
    goes : (v w x : World) → Step v w → Steps w x → Steps v x
