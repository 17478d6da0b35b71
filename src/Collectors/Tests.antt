-- ===== src/Collectors/Tests.antt =====
-- Runs of src/collectors on small inputs.
use vps_monitor_webui.Prelude.In.{In}
use vps_monitor_webui.Prelude.{
  take, Each, ℕ, ◌≤◌, String, utf8_len, ◌≡◌, ◌≢◌, ◌↔◌, refl, true, false, ◌==◌, List, [], ◌∷◌, none,
  some, arith, eq_iff, is_whitespace,
}
use vps_monitor_webui.Prelude.Int.{pos}
use vps_monitor_webui.Prelude.Sort.{sort_by}
use vps_monitor_webui.Collectors.Docker.{validate_id}
use vps_monitor_webui.Collectors.Docker.Ids.{IsIdChar, validate_id_iff}
use vps_monitor_webui.Collectors.Systemd.{validate_unit, parse_line}
use vps_monitor_webui.Collectors.Systemd.Units.{IsUnitName, validate_unit_iff}
use vps_monitor_webui.Collectors.Systemd.Columns.{
  IsField, parse_line_of_fields, parse_line_of_columns,
}
use vps_monitor_webui.Collectors.System.{ProcessRow, mem, top_processes}
use vps_monitor_webui.Collectors.Pm2.{Pm2App, gather}
use vps_monitor_webui.Example.{floats, jlist, from_str}

abbrev web : String
web = "web-1"

validate_id_iff_example :
    (validate_id web ≡ true) ↔ ((web ≢ "") × (utf8_len web ≤ 256) × Each IsIdChar web)
validate_id_iff_example = validate_id_iff web

validate_unit_iff_example :
    (validate_unit "sshd.service" ≡ true)
    ↔ ((utf8_len "sshd.service" ≤ 256) × IsUnitName "sshd.service")
validate_unit_iff_example = validate_unit_iff "sshd.service"

is_given : (s : String) → (s == "") ≡ false → s ≢ ""
is_given s h = λ e. absurd (ground (arith, h, e, eq_iff s ""))

unit-IsField : IsField "sshd.service"
unfolding is_whitespace
unit-IsField = (
  is_given "sshd.service" refl,
  (
    refl,
    (refl, (refl, (refl, (refl, (refl, (refl, (refl, (refl, (refl, (refl, (refl, tt))))))))))),
  ),
)

loaded-IsField : IsField "loaded"
unfolding is_whitespace
loaded-IsField = (is_given "loaded" refl, (refl, (refl, (refl, (refl, (refl, (refl, tt)))))))

active-IsField : IsField "active"
unfolding is_whitespace
active-IsField = (is_given "active" refl, (refl, (refl, (refl, (refl, (refl, (refl, tt)))))))

running-IsField : IsField "running"
unfolding is_whitespace
running-IsField =
    (is_given "running" refl, (refl, (refl, (refl, (refl, (refl, (refl, (refl, tt))))))))

fields_run :
    parse_line "sshd.service loaded active running OpenSSH server"
    ≡ some (record {
      unit = "sshd.service";
      load = "loaded";
      active = "active";
      sub = "running";
      description = "OpenSSH server";
    })
unfolding is_whitespace
fields_run =
    parse_line_of_fields " " refl "sshd.service" "loaded" "active" "running" "OpenSSH server"
      unit-IsField loaded-IsField active-IsField running-IsField (is_given "OpenSSH server" refl)

parse_line_of_columns_example :
    parse_line "sshd.service    loaded active running OpenSSH server"
    ≡ some (record {
      unit = "sshd.service";
      load = "loaded active running OpenSSH server";
      active = "";
      sub = "";
      description = "";
    })
unfolding is_whitespace
parse_line_of_columns_example =
    parse_line_of_columns " " refl "sshd.service" "loaded active running OpenSSH server"
      unit-IsField (is_given "loaded active running OpenSSH server" refl)

abbrev process : ℕ → ℕ → ProcessRow floats
process pid memory = record {
  pid = pid;
  name = "";
  cmd = "";
  cpu_usage = 0;
  memory = memory;
  user = none;
  start_time = 0;
}

abbrev three : List (ProcessRow floats)
three = process 1 10 ∷ process 2 30 ∷ process 3 20 ∷ []

top_processes_runs : top_processes floats mem 2 three ≡ process 2 30 ∷ process 3 20 ∷ []
unfolding top_processes sort_by take
top_processes_runs = refl

abbrev listed : List (Pm2App floats)
listed = (gather floats jlist from_str (pos 0) ("/root/.pm2" ∷ [])).all

-- The unit tests of src/collectors/systemd.rs.
validates_unit_names :
    (validate_unit "nginx.service" ≡ true)
    × (validate_unit "docker.socket" ≡ true)
    × (validate_unit "getty@tty1.service" ≡ true)
    × (validate_unit "nginx.service; rm -rf /" ≡ false)
    × (validate_unit "../etc/passwd" ≡ false)
    × (validate_unit "nginx" ≡ false)
    × (validate_unit "" ≡ false)
unfolding validate_unit utf8_len
validates_unit_names = (refl, refl, refl, refl, refl, refl, refl)
