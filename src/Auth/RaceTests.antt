-- ===== src/Auth/RaceTests.antt =====
-- Examples of two refreshes at once, and of administrators (backend/src/auth/auth.service.ts and
-- backend/src/admin/admin.controller.ts).
use rolebrief.Common.{
  true, some, List, [], ◌∷◌, length, keep, ◌&&◌, String, str_eq, str_eq_iff, ◌≡◌, ◌≢◌, refl, arith,
}
use rolebrief.Auth.Types.{user, admin, disabled, Tables, denies, in_family, is_live}
use rolebrief.Auth.Sessions.{required, begin_refresh, check_refresh, rotate_session, finish_refresh}
use rolebrief.Auth.Requests.{
  Flights, World, Steps, stops, goes, begins_refresh, checks_refresh, rotates, administers,
}
use rolebrief.Auth.Keeping.{IsOrderly}
use rolebrief.Auth.OneLive.{Steps-IsOrderly}
use rolebrief.Auth.Admins.{
  AdminRequest, sets_status, sets_role, handle, handle_all, update_status, update_role,
  ensure_can_remove_final_admin,
}
use rolebrief.Auth.Admins.Remaining.{IsManned, handle_all-IsManned}
use rolebrief.Auth.Tests.{plain, account, laptop, tables, config, client, tokens}

abbrev none_yet : Flights
none_yet = record { waiting = []; checked = [] }

-- Two refreshes read the session, then the first replaces it and the second checks it.
abbrev start : World
start = record { tables = tables; flights = none_yet }

abbrev first_read : World
first_read = record { tables = tables; flights = record { waiting = laptop ∷ []; checked = [] } }

abbrev both_read : World
both_read = record {
  tables = tables;
  flights = record { waiting = laptop ∷ laptop ∷ []; checked = [] };
}

abbrev first_checked : World
first_checked = record {
  tables = tables;
  flights = record { waiting = laptop ∷ []; checked = laptop ∷ [] };
}

abbrev once : Tables
once = (rotate_session plain config 10 laptop tokens client tables).1

abbrev first_done : World
first_done = record { tables = once; flights = record { waiting = laptop ∷ []; checked = [] } }

abbrev disabled_then : Tables
disabled_then = handle (sets_status 11 2 1 disabled) once

abbrev finish : World
finish = record { tables = disabled_then; flights = none_yet }

-- Only the first of them gets a session.
second_refused : (finish_refresh plain config 10 laptop tokens client once).0 ≡ denies required
unfolding finish_refresh check_refresh rotate_session
second_refused = refl

-- Where both transactions read the session before either writes, both replace it, and the family
-- has two live sessions.
abbrev twice : Tables
twice = (rotate_session plain config 10 laptop tokens client once).1

both_rotate :
    (check_refresh plain config laptop tables ≡ true)
    × (length (keep (λ s. in_family "laptop" s && is_live s) tables.sessions) ≡ 1)
    × (length (keep (λ s. in_family "laptop" s && is_live s) twice.sessions) ≡ 2)
unfolding check_refresh rotate_session
both_rotate = (refl, refl, refl)

abbrev PlainSteps : World → World → Type 0
PlainSteps = Steps plain plain str_eq plain plain config

start-goes-finish : PlainSteps start finish
unfolding begin_refresh check_refresh rotate_session update_status
start-goes-finish = goes start first_read finish (begins_refresh true 10 (some "new") start) (
    goes first_read both_read finish (begins_refresh true 10 (some "new") first_read) (
      goes both_read first_checked finish (checks_refresh laptop [] (laptop ∷ []) [] tables tt) (
        goes first_checked first_done finish
          (rotates 10 laptop (laptop ∷ []) [] [] tokens client tables)
          (goes first_done (record { tables = once; flights = none_yet }) finish
            (checks_refresh laptop [] [] [] once tt)
            (goes (record { tables = once; flights = none_yet }) finish finish
              (administers (sets_status 11 2 1 disabled)
                (record { tables = once; flights = none_yet }))
              (stops finish))))))

other_families : ◌≢◌ {A = String} "laptop" "phone"
other_families h = cc ((str_eq_iff "laptop" "phone").1 h)

start-IsOrderly : IsOrderly start
start-IsOrderly = record {
  fresh = (omega arith, (omega arith, (omega arith, tt)));
  apart = ((omega arith, (omega arith, tt)), ((omega arith, tt), (tt, tt)));
  alone = (
    ((λ same live. cc), ((λ same live. cc), tt)),
    (((λ same live. elim (other_families same) [ ]), tt), (tt, tt)),
  );
  known = tt;
  only = tt;
  parted = tt;
}

Steps-IsOrderly_example : IsOrderly finish
Steps-IsOrderly_example =
    Steps-IsOrderly plain plain str_eq plain plain config start finish start-goes-finish
      start-IsOrderly

-- One administrator disables the other, and then tries to become a user.
abbrev admins : Tables
admins = record tables { users = account 1 admin ∷ account 2 admin ∷ [] }

abbrev requests : List AdminRequest
requests = sets_status 10 1 2 disabled ∷ sets_role 11 1 1 user ∷ []

final_kept : handle_all requests admins ≡ (update_status 10 1 2 disabled admins).1
unfolding handle_all update_status update_role ensure_can_remove_final_admin
final_kept = refl

handle_all-IsManned_example : IsManned (handle_all requests admins).users
handle_all-IsManned_example =
    handle_all-IsManned requests admins
      (record { distinct = ((omega arith, tt), (tt, tt)); manned = omega arith })
