-- ===== src/Collectors/System/Top.antt =====
-- src/collectors/system.rs, `top_processes`: the rows that are kept are the largest ones.
use mathlib.Core.List.{Perm}
use Prim.Native.Nat.{min}
use vps_monitor_webui.Prelude.{ℕ, true, false, ◌≡◌, List, ◌++◌, arith, All, length}
use vps_monitor_webui.Prelude.Sort.{IsSorted}
use vps_monitor_webui.Prelude.Top.{take-sort_by}
use vps_monitor_webui.Collectors.System.{Float, ProcessRow, mem, may_lead, top_processes}

module _ (float : Float) where
  mem_trans :
      (x y z : ProcessRow float)
      → may_lead float mem x y ≡ true
      → may_lead float mem y z ≡ true
      → may_lead float mem x z ≡ true
  mem_trans x y z h k = ground arith

  mem_total :
      (x y : ProcessRow float) → may_lead float mem x y ≡ false → may_lead float mem y x ≡ true
  mem_total x y h = ground arith

  -- The processes by memory: `limit` rows or all, sorted, and with the rows that are left out they
  -- are a permutation of all rows, of which none that is left out uses more memory than one kept.
  pub top_processes_by_mem :
      (limit : ℕ) (rows : List (ProcessRow float))
      → (rest : List (ProcessRow float)) × Perm (top_processes float mem limit rows ++ rest) rows
        × IsSorted (may_lead float mem) (top_processes float mem limit rows)
        × All
            (λ kept. All (λ left. may_lead float mem kept left ≡ true) rest)
            (top_processes float mem limit rows)
        × (length (top_processes float mem limit rows) ≡ min limit (length rows))
  unfolding top_processes
  top_processes_by_mem limit rows = take-sort_by (may_lead float mem) mem_trans mem_total limit rows
