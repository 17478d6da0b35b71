-- ===== src/State/Service.antt =====
-- src/state.rs, src/handlers and src/main.rs: the running service, as the requests that it handles, the
-- ticks of its tasks and the entries of the log that tasks of their own write, one after another, and the
-- commands on users, which other processes run on the same tables in between.
use vps_monitor_webui.Prelude.{ℕ, String, List, [], ◌∷◌}
use vps_monitor_webui.Result.{Result}
use vps_monitor_webui.Error.{Anyhow}
use vps_monitor_webui.Exec.{Exec}
use vps_monitor_webui.Exec.Keeps.{Keeps}
use vps_monitor_webui.Db.{Env, World, Database}
use vps_monitor_webui.Db.Keeps.{OnDb}
use vps_monitor_webui.Db.Audit.{AuditWrite}
use vps_monitor_webui.Db.Stable.{Stable}
use vps_monitor_webui.Db.Stable.Operations.{operation_rules}
use vps_monitor_webui.Collectors.System.{Float}
use vps_monitor_webui.Handlers.Logs.{audit_log}
use vps_monitor_webui.Handlers.Router.Answers.{Site, Request, dispatch}
use vps_monitor_webui.Handlers.Router.Kept.{dispatch-Keeps}
use vps_monitor_webui.Db.{migrate}
use vps_monitor_webui.Db.Consistent.{IsConsistent}
use vps_monitor_webui.Db.Consistent.Statements.{Stable-IsConsistent}
use vps_monitor_webui.Auth.Password.{Crypto}
use vps_monitor_webui.Cli.{cmd_user_add, cmd_user_passwd}
use vps_monitor_webui.Cli.Kept.{migrate-Keeps, cmd_user_add-Keeps, cmd_user_passwd-Keeps}
use vps_monitor_webui.State.{session_purge, audit_purge}

module _ (float : Float) where
  -- Each event with the machine as it is then.
  pub data Event : Type 1 where
    requested : (site : Site float) (req : Request) → Event
    sessions_due : (env : Env) → Event
    log_due : (env : Env) (retain : ℕ) → Event
    viewed : (env : Env) (e : AuditWrite) → Event
    user_added password_changed :
        (crypto : Crypto) (env : Env) (prompt confirm : Result Anyhow String) (username : String)
        → Event
    migrated : (env : Env) → Event

  -- A command works in a process of its own: the service has the tables from it.
  abbrev by_command : {A : Type 0} → Exec World Anyhow A → World → World
  by_command m w = record w { db = (m w).1.db }

  unfoldable pub after : Event → World → World
  after (requested site req) w = (dispatch float site req w).1
  after (sessions_due env) w = (session_purge env w).1
  after (log_due env retain) w = (audit_purge env retain w).1
  after (viewed env e) w = (audit_log env e w).1
  after (user_added crypto env prompt confirm username) w =
      by_command (cmd_user_add crypto env prompt confirm username) w
  after (password_changed crypto env prompt confirm username) w =
      by_command (cmd_user_passwd crypto env prompt confirm username) w
  after (migrated env) w = by_command (migrate env) w

  unfoldable pub run_events : List Event → World → World
  run_events [] w = w
  run_events (e ∷ rest) w = run_events rest (after e w)

  module _ {P : Database → Type 0} (inv : Stable P) where
    session_purge-Keeps : (env : Env) → Keeps (OnDb P) (session_purge env)
    unfolding session_purge
    session_purge-Keeps env = search operation_rules depth 8

    audit_purge-Keeps : (env : Env) (retain : ℕ) → Keeps (OnDb P) (audit_purge env retain)
    unfolding audit_purge
    audit_purge-Keeps env retain = search operation_rules depth 8

    audit_log-Keeps : (env : Env) (e : AuditWrite) → Keeps (OnDb P) (audit_log env e)
    unfolding audit_log
    audit_log-Keeps env e = search operation_rules depth 8

    by_command-Keeps :
        {A : Type 0} (m : Exec World Anyhow A) (w : World)
        → Keeps (OnDb P) m
        → OnDb P w
        → OnDb P (by_command m w)
    by_command-Keeps m w k h = record { holds = (k.after w h).holds }

    after-Keeps : (e : Event) (w : World) → OnDb P w → OnDb P (after e w)
    unfolding after
    after-Keeps (requested site req) w h = (dispatch-Keeps inv float site req).after w h
    after-Keeps (sessions_due env) w h = (session_purge-Keeps env).after w h
    after-Keeps (log_due env retain) w h = (audit_purge-Keeps env retain).after w h
    after-Keeps (viewed env e) w h = (audit_log-Keeps env e).after w h
    after-Keeps (user_added crypto env prompt confirm name) w h =
        by_command-Keeps _ w (cmd_user_add-Keeps inv crypto env prompt confirm name) h
    after-Keeps (password_changed crypto env prompt confirm name) w h =
        by_command-Keeps _ w (cmd_user_passwd-Keeps inv crypto env prompt confirm name) h
    after-Keeps (migrated env) w h = by_command-Keeps _ w (migrate-Keeps inv env) h

    run_events-Keeps : (es : List Event) (w : World) → OnDb P w → OnDb P (run_events es w)
    unfolding run_events
    run_events-Keeps [] w h = h
    run_events-Keeps (e ∷ rest) w h = run_events-Keeps rest (after e w) (after-Keeps e w h)

  -- However the service is used, and whatever fails: tables that were consistent stay consistent, with
  -- unique names, ids and tokens, and sessions only of users that exist.
  pub run_events-IsConsistent :
      (es : List Event) (w : World) → IsConsistent w.db → IsConsistent (run_events es w).db
  run_events-IsConsistent es w h =
      (run_events-Keeps Stable-IsConsistent es w (record { holds = h })).holds
