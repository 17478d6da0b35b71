-- ===== src/State/Tests.antt =====
-- Runs of src/state.rs and of the statements of src/db on one machine.
use vps_monitor_webui.Prelude.{
  ◌↔◌, ◌-◌, ◌*◌, ◌^◌, List, ◌≡◌, refl, String, [], ◌∷◌, none, some, arith, any, ◌⊎◌, All,
}
use vps_monitor_webui.Prelude.Int.{ℤ, pos, as_i64, mul_i64, sub_i64, ◌≤ℤ◌, ◌+ℤ◌}
use vps_monitor_webui.Result.{ok}
use vps_monitor_webui.Prelude.In.{In}
use vps_monitor_webui.Db.{World, AuditRow, seconds, Database, fresh_database}
use vps_monitor_webui.Db.Users.{insert_user}
use vps_monitor_webui.Db.Sessions.{select_active, insert_session}
use vps_monitor_webui.Db.Sessions.Store.{view, found}
use vps_monitor_webui.Db.Sessions.Refined.{Changes, Reach-Changes}
use vps_monitor_webui.Db.Audit.{AuditWrite, cutoff_at}
use vps_monitor_webui.Db.Consistent.{IsConsistent}
use vps_monitor_webui.Db.Consistent.Statements.{fresh_database-IsConsistent}
use vps_monitor_webui.Db.History.{Reach, start, next, user_added, session_added, Reach-IsConsistent}
use vps_monitor_webui.State.{session_purge, audit_purge}
use vps_monitor_webui.State.Retention.{audit_purge-In}
use vps_monitor_webui.State.Purges.{TickFails, session_purge-select_active}
use vps_monitor_webui.State.Service.{
  Event, sessions_due, log_due, viewed, user_added as added, run_events, run_events-IsConsistent,
}
use vps_monitor_webui.Example.{
  floats, quiet, admin, old_session, before, before-IsConsistent, plain,
}

abbrev with_admin : Database
with_admin = record fresh_database {
  users = record admin { failed_count = 0; locked_until = none } ∷ [];
  next_user = 2;
}

abbrev with_session : Database
with_session = record with_admin { sessions = old_session ∷ [] }

abbrev history : Reach fresh_database with_session
unfolding insert_user insert_session any
history =
    next (next start (user_added "admin" "secret" (pos 10) 1 refl))
      (session_added old_session tt refl)

Reach-IsConsistent_example : IsConsistent with_session
Reach-IsConsistent_example = Reach-IsConsistent with_session history

Reach-Changes_example :
    Changes (view fresh_database.sessions) (view with_session.sessions)
    × ((token : String) (now : ℤ)
        → select_active token now with_session.users with_session.sessions
          ≡ found with_session.users now (view with_session.sessions token))
Reach-Changes_example =
    Reach-Changes fresh_database with_session fresh_database-IsConsistent history

session_purge-select_active_example :
    let db = (session_purge quiet before).1.db in
    (select_active "cafe" (pos 1000) db.users db.sessions
      ≡ select_active "cafe" (pos 1000) before.db.users before.db.sessions)
    × ((TickFails quiet before × (db ≡ before.db))
        ⊎ All (λ s. seconds (quiet.system_time 1) ≤ℤ s.expires_at) db.sessions)
unfolding as_i64
session_purge-select_active_example =
    session_purge-select_active quiet before "cafe" (pos 1000) (ground arith)

abbrev entry_of_view : AuditWrite
entry_of_view = record {
  user_id = some 1;
  username = some "admin";
  ip = none;
  action = "view_logs";
  target = some "pm2:web";
  detail = none;
}

abbrev busy_day : List (Event floats)
busy_day =
    sessions_due quiet
    ∷ added plain quiet (ok "longsecret") (ok "longsecret") "eve"
    ∷ viewed quiet entry_of_view
    ∷ log_due quiet 90
    ∷ []

run_events-IsConsistent_example : IsConsistent (run_events floats busy_day before).db
run_events-IsConsistent_example = run_events-IsConsistent floats busy_day before before-IsConsistent

abbrev entry_at : ℤ → AuditRow
entry_at ts = record {
  id = 1;
  ts = ts;
  user_id = some 1;
  username = some "admin";
  ip = none;
  action = "logout";
  target = none;
  detail = none;
}

abbrev with_entries : World
with_entries = record before {
  db = record before.db { audit_log = entry_at (pos 900) ∷ []; next_audit = 2 };
}

audit_purge-In_example :
    let db = (audit_purge quiet 90 with_entries).1.db in
    ((TickFails quiet with_entries × (db ≡ with_entries.db))
      ⊎ ((r : AuditRow)
          → In r db.audit_log
            ↔ ((In r (entry_at (pos 900) ∷ [])) × (pos 1000 ≤ℤ r.ts +ℤ pos (90 * 86400)))))
    × (db.users ≡ admin ∷ [])
    × (db.sessions ≡ old_session ∷ [])
unfolding as_i64
audit_purge-In_example = audit_purge-In quiet with_entries 90 1000 refl (omega arith) (omega arith)

-- The largest number of days that the configuration can hold puts the cutoff a day ahead of the clock.
largest_retention : cutoff_at (pos 1000) (2 ^ 63 - 1) ≡ pos 87400
unfolding cutoff_at as_i64 mul_i64 sub_i64
largest_retention = refl
