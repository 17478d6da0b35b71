-- ===== src/Handlers/Listings/Processes.antt =====
-- src/handlers/processes.rs over src/collectors/system.rs: the listing of processes by memory, from what
-- the collector holds after some rounds of its refresher.
use mathlib.Core.List.{Perm}
use Prim.Native.Nat.{min}
use vps_monitor_webui.Prelude.{
  ℕ, ◌<◌, none, some, ◌≤◌, ◌≡◌, true, List, ◌++◌, map, Option, All, length,
}
use vps_monitor_webui.Prelude.Int.{ℤ}
use vps_monitor_webui.Prelude.Sort.{IsSorted}
use vps_monitor_webui.Config.{Config}
use vps_monitor_webui.Db.{Env}
use vps_monitor_webui.Auth.Middleware.{Parts}
use vps_monitor_webui.Collectors.System.{Float, ProcessRow, mem, may_lead, to_row}
use vps_monitor_webui.Collectors.System.Collector.{Sysinfo, SystemCollector, new, refresher}
use vps_monitor_webui.Machine.{Machine}

-- How many rows are asked for: 20 where no number is given, and else the number, but one at least and
-- 200 at most.
pub data RowsAsked : Option ℕ → ℕ → Type 0 where
  by_default : RowsAsked none 20
  none_wanted : RowsAsked (some 0) 1
  in_range : (n : ℕ) → 1 ≤ n → n ≤ 200 → RowsAsked (some n) n
  too_many : (n : ℕ) → 200 < n → RowsAsked (some n) 200

-- The rows of a listing among all rows: `limit` of them or all, sorted, and none that is left out is larger.
abbrev pub Largest :
    (float : Float) → ℕ → List (ProcessRow float) → List (ProcessRow float) → Type 0
Largest float limit all rows =
    (rest : List (ProcessRow float)) × Perm (rows ++ rest) all
    × IsSorted (may_lead float mem) rows
    × All (λ kept. All (λ left. may_lead float mem kept left ≡ true) rest) rows
    × (length rows ≡ min limit (length all))

module _ (float : Float) (sysinfo : Sysinfo float) (env : Env) (cfg : Config)
    (machine : Machine float) (parts : Parts) (at : ℕ) (rounds : List (ℕ × ℤ)) where
  abbrev collector : SystemCollector float sysinfo
  collector = refresher float sysinfo rounds (new float sysinfo at)

  -- The rows of all processes of the last refresh, with the names of the users of the start.
  abbrev pub all_rows : List (ProcessRow float)
  all_rows =
      map (to_row float (sysinfo.get_user_by_id (sysinfo.users_with_refreshed_list at)))
        (sysinfo.processes collector.sys)
