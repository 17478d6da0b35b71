-- ===== src/Collectors/System.antt =====
-- src/collectors/system.rs: the snapshot of the machine and its processes. sysinfo is a parameter:
-- what it read stands in a record. So are the floats: a type with the operations that are used.
pub mod Top
pub mod Collector
use Prim.Native.Nat.{Ordering}
use Prim.Native.String.{◌++◌}
use text.Mathlib.Text.{starts_with}
use vps_monitor_webui.Prelude.{
  ℕ, suc, ◌+◌, ◌%◌, ◌^◌, String, Bool, true, false, not, ◌&&◌, ◌||◌, ◌==◌, List, [], ◌∷◌, map,
  Option, none, some, leb, if◌then◌else◌, length, take, retain,
}
use vps_monitor_webui.Prelude.Int.{ℤ, pos}
use vps_monitor_webui.Prelude.Sort.{sort_by}
use vps_monitor_webui.Result.{unwrap_or}

pub record DiskUsage : Type 0 where
  pub mount : String
  pub total : ℕ
  pub available : ℕ
  pub fs : String

-- f32 and f64, one type here.
pub record Float : Type 1 where
  pub F : Type 0
  pub zero : F
  pub add : F → F → F
  pub div_by : F → ℕ → F
  pub partial_cmp : F → F → Option Ordering

abbrev not_after : Ordering → Bool
not_after Ordering.gt = false
not_after _ = true

abbrev not_last : Option Ordering → Bool
not_last none = true
not_last (some o) = not_after o

-- The file systems that are shown.
unfoldable pub is_shown : DiskUsage → Bool
is_shown d =
    not (starts_with d.mount "/snap/")
    && not (starts_with d.mount "/run/")
    && not (starts_with d.mount "/dev")

-- The sums of received and transmitted bytes, as u64.
unfoldable pub net_total : ℕ × ℕ → List (ℕ × ℕ) → ℕ × ℕ
net_total a [] = a
net_total a (b ∷ rest) = net_total ((a.0 + b.0) % 2 ^ 64, (a.1 + b.1) % 2 ^ 64) rest

-- .collect::<Vec<_>>().join(" ")
unfoldable pub join_spaces : List String → String
join_spaces [] = ""
join_spaces (s ∷ []) = s
join_spaces (s ∷ t ∷ rest) = s ++ " " ++ join_spaces (t ∷ rest)

pub data SortBy : Type 0 where
  cpu mem : SortBy

unfoldable pub parse : String → SortBy
parse s = if s == "mem" || s == "memory" || s == "ram" then mem else cpu

module _ (float : Float) where
  pub record MetricsSnapshot : Type 0 where
    pub ts : ℤ
    pub cpu_percent : float.F
    pub cpu_per_core : List float.F
    pub mem_total : ℕ
    pub mem_used : ℕ
    pub swap_total : ℕ
    pub swap_used : ℕ
    pub disks : List DiskUsage
    pub net_rx_bps : ℕ
    pub net_tx_bps : ℕ
    pub load_avg : float.F × float.F × float.F
    pub uptime : ℕ
    pub host : String
    pub kernel : Option String
    pub os : Option String

  -- What sysinfo reads in a refresh.
  pub record Readings : Type 0 where
    pub cpus : List float.F
    pub total_memory : ℕ
    pub used_memory : ℕ
    pub total_swap : ℕ
    pub used_swap : ℕ
    pub disks : List DiskUsage
    pub networks : List (ℕ × ℕ)
    pub load_average : float.F × float.F × float.F
    pub uptime : ℕ
    pub host_name : Option String
    pub kernel_version : Option String
    pub long_os_version : Option String

  sum_of : float.F → List float.F → float.F
  sum_of acc [] = acc
  sum_of acc (x ∷ xs) = sum_of (float.add acc x) xs

  mean : List float.F → float.F
  unfolding sum_of
  mean [] = float.zero
  mean (x ∷ xs) = float.div_by (sum_of float.zero (x ∷ xs)) (length (x ∷ xs))

  -- The snapshot that a refresh at the time `now` puts in the place of the last one.
  unfoldable pub new_snapshot : ℤ → Readings → MetricsSnapshot
  unfolding mean net_total is_shown
  new_snapshot now r =
      let totals = net_total (0, 0) r.networks in
      record {
        ts = now;
        cpu_percent = mean r.cpus;
        cpu_per_core = r.cpus;
        mem_total = r.total_memory;
        mem_used = r.used_memory;
        swap_total = r.total_swap;
        swap_used = r.used_swap;
        disks = retain is_shown r.disks;
        net_rx_bps = totals.0;
        net_tx_bps = totals.1;
        load_avg = r.load_average;
        uptime = r.uptime;
        host = unwrap_or r.host_name "";
        kernel = r.kernel_version;
        os = r.long_os_version;
      }

  pub record ProcessRow : Type 0 where
    pub pid : ℕ
    pub name : String
    pub cmd : String
    pub cpu_usage : float.F
    pub memory : ℕ
    pub user : Option String
    pub start_time : ℕ

  -- A process as sysinfo has it: the parts of its command line, and its user by an id.
  pub record Process : Type 0 where
    pub pid : ℕ
    pub name : String
    pub cmd : List String
    pub cpu_usage : float.F
    pub memory : ℕ
    pub user_id : Option String
    pub start_time : ℕ

  -- get_user_by_id, with the name of the user
  abbrev user_of : (String → Option String) → Option String → Option String
  user_of user_by_id none = none
  user_of user_by_id (some uid) = user_by_id uid

  unfoldable pub to_row : (String → Option String) → Process → ProcessRow
  unfolding join_spaces
  to_row user_by_id p = record {
    pid = p.pid;
    name = p.name;
    cmd = join_spaces p.cmd;
    cpu_usage = p.cpu_usage;
    memory = p.memory;
    user = user_of user_by_id p.user_id;
    start_time = p.start_time;
  }

  -- What a collector holds before its first refresh.
  unfoldable pub default_snapshot : MetricsSnapshot
  default_snapshot = record {
    ts = pos 0;
    cpu_percent = float.zero;
    cpu_per_core = [];
    mem_total = 0;
    mem_used = 0;
    swap_total = 0;
    swap_used = 0;
    disks = [];
    net_rx_bps = 0;
    net_tx_bps = 0;
    load_avg = (float.zero, float.zero, float.zero);
    uptime = 0;
    host = "";
    kernel = none;
    os = none;
  }

  -- Which of two rows may stand first: more of the sorted quantity, or as much.
  abbrev pub may_lead : SortBy → ProcessRow → ProcessRow → Bool
  may_lead cpu a b = not_last (float.partial_cmp b.cpu_usage a.cpu_usage)
  may_lead mem a b = leb b.memory a.memory

  -- Over the rows of the processes, as sysinfo lists them.
  unfoldable pub top_processes : SortBy → ℕ → List ProcessRow → List ProcessRow
  top_processes by limit rows = take limit (sort_by (may_lead by) rows)
