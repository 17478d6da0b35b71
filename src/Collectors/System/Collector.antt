-- ===== src/Collectors/System/Collector.antt =====
-- src/collectors/system.rs, `SystemCollector`: what it holds from its start on, and what a refresh
-- reads again. sysinfo is a record of the types and methods that are called; a moment is the argument
-- of those that ask the machine.
use vps_monitor_webui.Prelude.{ℕ, String, ◌≡◌, refl, List, [], ◌∷◌, map, Option}
use vps_monitor_webui.Prelude.Int.{ℤ}
use vps_monitor_webui.Collectors.System as Parts
use vps_monitor_webui.Collectors.System.{
  Float, DiskUsage, MetricsSnapshot, Readings, Process, ProcessRow, SortBy, new_snapshot,
  default_snapshot, to_row,
}

pub record Sysinfo (float : Float) : Type 1 where
  pub System : Type 0
  pub Disks : Type 0
  pub Networks : Type 0
  pub Users : Type 0
  pub new_with_specifics : ℕ → System
  pub disks_with_refreshed_list : ℕ → Disks
  pub networks_with_refreshed_list : ℕ → Networks
  pub users_with_refreshed_list : ℕ → Users
  pub refresh_cpu_usage : ℕ → System → System
  pub refresh_memory : ℕ → System → System
  pub refresh_processes : ℕ → System → System
  pub refresh_disks : ℕ → Disks → Disks
  pub refresh_networks : ℕ → Networks → Networks
  pub cpus : System → List float.F
  pub total_memory : System → ℕ
  pub used_memory : System → ℕ
  pub total_swap : System → ℕ
  pub used_swap : System → ℕ
  pub processes : System → List (Process float)
  pub disk_list : Disks → List DiskUsage
  pub network_list : Networks → List (ℕ × ℕ)
  pub get_user_by_id : Users → String → Option String
  pub load_average : ℕ → float.F × float.F × float.F
  pub uptime : ℕ → ℕ
  pub host_name : ℕ → Option String
  pub kernel_version : ℕ → Option String
  pub long_os_version : ℕ → Option String

module _ (float : Float) (sysinfo : Sysinfo float) where
  pub record SystemCollector : Type 0 where
    pub sys : sysinfo.System
    pub disks : sysinfo.Disks
    pub networks : sysinfo.Networks
    pub users : sysinfo.Users
    pub last_snapshot : MetricsSnapshot float

  unfoldable pub new : ℕ → SystemCollector
  new at = record {
    sys = sysinfo.new_with_specifics at;
    disks = sysinfo.disks_with_refreshed_list at;
    networks = sysinfo.networks_with_refreshed_list at;
    users = sysinfo.users_with_refreshed_list at;
    last_snapshot = default_snapshot float;
  }

  abbrev refreshed : ℕ → sysinfo.System → sysinfo.System
  refreshed at sys =
      sysinfo.refresh_processes at (sysinfo.refresh_memory at (sysinfo.refresh_cpu_usage at sys))

  abbrev readings : ℕ → sysinfo.System → sysinfo.Disks → sysinfo.Networks → Readings float
  readings at sys disks nets = record {
    cpus = sysinfo.cpus sys;
    total_memory = sysinfo.total_memory sys;
    used_memory = sysinfo.used_memory sys;
    total_swap = sysinfo.total_swap sys;
    used_swap = sysinfo.used_swap sys;
    disks = sysinfo.disk_list disks;
    networks = sysinfo.network_list nets;
    load_average = sysinfo.load_average at;
    uptime = sysinfo.uptime at;
    host_name = sysinfo.host_name at;
    kernel_version = sysinfo.kernel_version at;
    long_os_version = sysinfo.long_os_version at;
  }

  -- At a moment, of which `now` is the time: the users are not read again.
  unfoldable pub refresh : ℕ → ℤ → SystemCollector → SystemCollector
  refresh at now c =
      let sys = refreshed at c.sys in
      let disks = sysinfo.refresh_disks at c.disks in
      let nets = sysinfo.refresh_networks at c.networks in
      record c {
        sys = sys;
        disks = disks;
        networks = nets;
        last_snapshot = new_snapshot float now (readings at sys disks nets);
      }

  -- Rounds of `start_refresher`.
  unfoldable pub refresher : List (ℕ × ℤ) → SystemCollector → SystemCollector
  refresher [] c = c
  refresher (r ∷ rounds) c = refresher rounds (refresh r.0 r.1 c)

  unfoldable pub snapshot : SystemCollector → MetricsSnapshot float
  snapshot c = c.last_snapshot

  unfoldable pub top_processes : SortBy → ℕ → SystemCollector → List (ProcessRow float)
  top_processes by limit c =
      Parts.top_processes float by limit
        (map (to_row float (sysinfo.get_user_by_id c.users)) (sysinfo.processes c.sys))

  -- However long the refresher runs, it has the users of its start.
  pub refresher-users :
      (rounds : List (ℕ × ℤ)) (c : SystemCollector) → (refresher rounds c).users ≡ c.users
  unfolding refresher refresh
  refresher-users [] c = refl
  refresher-users (r ∷ rounds) c = refresher-users rounds (refresh r.0 r.1 c)

  -- The listed processes are those of the last refresh, with the names that their users had at the
  -- start of the program: a user that was made later has none.
  top_processes-refresher :
      (at : ℕ) (rounds : List (ℕ × ℤ)) (by : SortBy) (limit : ℕ)
      → let c = refresher rounds (new at) in
        top_processes by limit c
        ≡ Parts.top_processes float by limit (
            map
              (to_row float (sysinfo.get_user_by_id (sysinfo.users_with_refreshed_list at)))
              (sysinfo.processes c.sys))
  unfolding top_processes new
  top_processes-refresher at rounds by limit = rw (refresher-users rounds (new at)) refl
