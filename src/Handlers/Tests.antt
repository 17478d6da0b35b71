-- ===== src/Handlers/Tests.antt =====
-- Runs of src/handlers/audit.rs on a log of two entries, and of src/handlers/processes.rs over a collector
-- that was made before the user of a process.
use mathlib.Core.List.{Perm}
use Prim.Native.Nat.{min}
use vps_monitor_webui.Prelude.{
  ◌↔◌, String, arith, ◌≢◌, eq_iff, trim, retain, eq_ignore_ascii_case, ℕ, ◌≡◌, refl, true, List, [],
  ◌∷◌, ◌++◌, map, none, some, All, length, find, take, ltb, if◌then◌else◌,
}
use vps_monitor_webui.Prelude.Int.{ℤ, pos, as_i64, sub_i64, half_ℤ}
use vps_monitor_webui.Prelude.Sort.{IsSorted, sort_by}
use vps_monitor_webui.Result.{ok}
use vps_monitor_webui.Exec.{◌>>=◌, map_err}
use vps_monitor_webui.Db.{World, AuditRow, reading, now_unix, get_conn, statement}
use vps_monitor_webui.Db.Sessions.{select_active, update_token, update_session, find_active, touch}
use vps_monitor_webui.Db.Audit
use vps_monitor_webui.Db.Audit.{AuditEntry, to_entry, newer, limit_rows, select_entries}
use vps_monitor_webui.Auth.Middleware.{
  AuthUser, client_ip, slide, active_session, from_request_parts,
}
use vps_monitor_webui.Auth.Middleware.Sound.{LetIn}
use vps_monitor_webui.Handlers.Audit.{audit_log, Asked, audit_log-newest}
use vps_monitor_webui.Collectors.System.{Process, ProcessRow}
use vps_monitor_webui.Collectors.System.Collector.{Sysinfo, SystemCollector, new, refresher}
use vps_monitor_webui.Machine.{Machine, with_system}
use vps_monitor_webui.Handlers.Listings.{list_processes, list_services, in_state}
use vps_monitor_webui.Handlers.Listings.Services.{Row, InColumns, list_services-Row}
use vps_monitor_webui.Prelude.In.{In}
use vps_monitor_webui.Collectors.Systemd
use vps_monitor_webui.Collectors.Systemd.{Output, SystemdService, lines, parse_line, parse_rows}
use vps_monitor_webui.Example.{quiet, settings, before, parts, floats, machine}

abbrev entry : ℕ → ℕ → AuditRow
entry id ts = record {
  id = id;
  ts = pos ts;
  user_id = none;
  username = none;
  ip = none;
  action = "login_fail";
  target = none;
  detail = none;
}

abbrev logged : World
logged = record before {
  db = record before.db { audit_log = entry 1 500 ∷ entry 2 600 ∷ []; next_audit = 3 };
}

abbrev after_listing : World
after_listing = (audit_log quiet settings parts (some (pos 1)) logged).1

listing_runs :
    audit_log quiet settings parts (some (pos 1)) logged
    ≡ (ok (to_entry (entry 2 600) ∷ []), after_listing)
unfolding audit_log from_request_parts active_session ◌>>=◌ map_err get_conn statement now_unix
    reading find_active select_active touch update_session update_token client_ip slide as_i64 find
    sub_i64 half_ℤ Audit.list select_entries limit_rows sort_by take
listing_runs = refl

audit_log-newest_example :
    ((u : AuthUser) × (t : World) × LetIn quiet settings parts logged u t)
    × ((rows : List AuditRow) × (rest : List AuditRow) × (to_entry (entry 2 600) ∷ []
          ≡ map to_entry rows)
        × Perm (rows ++ rest) (entry 1 500 ∷ entry 2 600 ∷ [])
        × IsSorted newer rows
        × All (λ kept. All (λ left. newer kept left ≡ true) rest) rows
        × ((n : ℕ) × Asked (some (pos 1)) n × (length rows ≡ min n 2)))
audit_log-newest_example =
    audit_log-newest quiet settings parts (some (pos 1)) logged after_listing
      (to_entry (entry 2 600) ∷ []) listing_runs

abbrev process : ℕ → ℕ → Process floats
process pid memory = record {
  pid = pid;
  name = "sh";
  cmd = "sh" ∷ "-l" ∷ [];
  cpu_usage = 0;
  memory = memory;
  user_id = some "1001";
  start_time = 0;
}

-- The user is there from moment 5 on, and the processes from the first refresh on.
abbrev tools : Sysinfo floats
tools = record {
  System = List (Process floats);
  Disks = Unit {0};
  Networks = Unit {0};
  Users = ℕ;
  new_with_specifics = λ at. [];
  disks_with_refreshed_list = λ at. tt;
  networks_with_refreshed_list = λ at. tt;
  users_with_refreshed_list = λ at. at;
  refresh_cpu_usage = λ at sys. sys;
  refresh_memory = λ at sys. sys;
  refresh_processes = λ at sys. process 1 10 ∷ process 2 30 ∷ process 3 20 ∷ [];
  refresh_disks = λ at disks. disks;
  refresh_networks = λ at nets. nets;
  cpus = λ sys. [];
  total_memory = λ sys. 0;
  used_memory = λ sys. 0;
  total_swap = λ sys. 0;
  used_swap = λ sys. 0;
  processes = λ sys. sys;
  disk_list = λ disks. [];
  network_list = λ nets. [];
  get_user_by_id = λ users uid. if ltb users 5 then none else some "eve";
  load_average = λ at. (0, 0, 0);
  uptime = λ at. at;
  host_name = λ at. none;
  kernel_version = λ at. none;
  long_os_version = λ at. none;
}

abbrev rounds : List (ℕ × ℤ)
rounds = (8, pos 1000) ∷ (9, pos 1001) ∷ []

abbrev system : SystemCollector floats tools
system = refresher floats tools rounds (new floats tools 0)

abbrev after_rows : World
after_rows =
    (list_processes floats quiet settings (with_system tools system machine) parts (some "mem")
      (some 2) before).1

abbrev row_of : ℕ → ℕ → ProcessRow floats
row_of pid memory = record {
  pid = pid;
  name = "sh";
  cmd = "sh -l";
  cpu_usage = 0;
  memory = memory;
  user = none;
  start_time = 0;
}

-- One line with five blanks after the name of its unit, and one with a blank between its fields.
abbrev printed : String
printed =
    "ssh.service     loaded active running OpenSSH\n  nginx.service loaded active running nginx\n"

abbrev systemd_machine : Machine floats
systemd_machine = record machine {
  systemctl = ok (record { success = true; status = "0"; stdout = printed; stderr = "" });
}

abbrev nginx : SystemdService
nginx = record {
  unit = "nginx.service";
  load = "loaded";
  active = "active";
  sub = "running";
  description = "nginx";
}

abbrev after_services : World
after_services =
    (list_services floats quiet settings systemd_machine parts (some "active") before).1

services_run :
    list_services floats quiet settings systemd_machine parts (some "active") before
    ≡ (ok (nginx ∷ []), after_services)
unfolding list_services from_request_parts active_session ◌>>=◌ map_err get_conn statement now_unix
    reading find_active select_active touch update_session update_token client_ip slide as_i64 find
    sub_i64 half_ℤ Systemd.list parse_rows parse_line lines trim retain eq_ignore_ascii_case
services_run = refl

abbrev asked : String
asked = "active"

asked_given : asked ≢ ""
asked_given e = absurd (ground (arith, e, eq_iff "active" ""))

list_services-Row_example :
    ((u : AuthUser) × LetIn quiet settings parts before u after_services)
    × ((out : Output) × (systemd_machine.systemctl ≡ ok out)
        × (out.success ≡ true)
        × ((s : SystemdService)
            → In s (nginx ∷ []) ↔ ((in_state "active" s ≡ true) × Row (lines out.stdout) s))
        × ((s : SystemdService)
            → In s (nginx ∷ [])
            → (r : Row (lines out.stdout) s) → InColumns (trim r.line)
            → ⊥))
list_services-Row_example =
    list_services-Row floats quiet settings systemd_machine parts asked before after_services
      (nginx ∷ []) asked_given services_run
