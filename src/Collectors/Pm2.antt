-- ===== src/Collectors/Pm2.antt =====
-- src/collectors/pm2.rs: the apps of PM2. The run of `pm2 jlist`, the JSON reader and the file
-- system are parameters.
pub mod Homes
use Prim.Native.String.{◌++◌}
use mathlib.Core.Option
use mathlib.Core.List.{◌++◌ as append}
use vps_monitor_webui.Prelude.{
  ℕ, String, Bool, true, false, not, ◌&&◌, ◌||◌, ◌==◌, List, [], ◌∷◌, map, Option, none, some,
  if◌then◌else◌, find, retain, trim,
}
use vps_monitor_webui.Prelude.Int.{ℤ, pos, ltb_ℤ, sub_i64}
use vps_monitor_webui.Result.{Result, ok, err, unwrap_or, ◌>>=◌}
use vps_monitor_webui.Error.{Anyhow, msg}
use vps_monitor_webui.Collectors.Systemd.{Output}
use vps_monitor_webui.Collectors.System.{Float}

pub record RawEnv : Type 0 where
  pub status : String
  pub pm_uptime : Option ℤ
  pub restart_time : Option ℕ
  pub pm_out_log_path : Option String
  pub pm_err_log_path : Option String
  pub pm_exec_path : Option String
  pub pm_cwd : Option String
  pub username : Option String

abbrev max0 : ℤ → ℤ
max0 z = if ltb_ℤ z (pos 0) then pos 0 else z

-- (now - u).max(0), of the start of the app.
abbrev pub uptime_of : ℤ → Option ℤ → ℤ
uptime_of now none = pos 0
uptime_of now (some u) = max0 (sub_i64 now u)

-- The Display of an error: those of this file are messages.
abbrev text_of : Anyhow → String
text_of (msg s) = s
text_of e = ""

-- errs.join(sep)
abbrev join : String → List String → String
join sep [] = ""
join sep (s ∷ []) = s
join sep (s ∷ t ∷ rest) = s ++ sep ++ join sep (t ∷ rest)

module _ (float : Float) where
  pub record RawMonit : Type 0 where
    pub cpu : Option float.F
    pub memory : Option ℕ

  pub record RawApp : Type 0 where
    pub name : String
    pub pid : Option ℕ
    pub pm2_env : RawEnv
    pub monit : Option RawMonit

  pub record Pm2App : Type 0 where
    pub name : String
    pub pid : ℕ
    pub status : String
    pub cpu : float.F
    pub memory : ℕ
    pub uptime_ms : ℤ
    pub restart_count : ℕ
    pub script : Option String
    pub cwd : Option String
    pub user : Option String
    pub log_out : Option String
    pub log_err : Option String
    pub pm2_home : Option String

  unfoldable pub to_app : ℤ → RawApp → Pm2App
  to_app now a = record {
    name = a.name;
    pid = unwrap_or a.pid 0;
    status = a.pm2_env.status;
    cpu = unwrap_or (Option.bind a.monit λ m. m.cpu) float.zero;
    memory = unwrap_or (Option.bind a.monit λ m. m.memory) 0;
    uptime_ms = uptime_of now a.pm2_env.pm_uptime;
    restart_count = unwrap_or a.pm2_env.restart_time 0;
    script = a.pm2_env.pm_exec_path;
    cwd = a.pm2_env.pm_cwd;
    user = a.pm2_env.username;
    log_out = a.pm2_env.pm_out_log_path;
    log_err = a.pm2_env.pm_err_log_path;
    pm2_home = none;
  }

  -- `jlist home` is the result of the command with that PM2_HOME, `from_str` the JSON reader, and
  -- `now` the time in milliseconds.
  module _ (jlist : Option String → Result String Output)
      (from_str : String → Result String (List RawApp)) (now : ℤ) where
    abbrev read_apps : Result String (List RawApp) → Result Anyhow (List Pm2App)
    read_apps (err e) = err (msg ("parse pm2 jlist json: " ++ e))
    read_apps (ok raw) = ok (map (to_app now) raw)

    unfoldable pub apps_of : Result String Output → Result Anyhow (List Pm2App)
    unfolding trim to_app
    apps_of (err e) = err (msg ("spawn pm2: " ++ e ++ ". Is PM2 installed?"))
    apps_of (ok out) =
        if not out.success
        then err (msg ("pm2 jlist exited " ++ out.status ++ ": " ++ trim out.stderr))
        else if trim out.stdout == "" || trim out.stdout == "[]"
        then ok []
        else read_apps (from_str (trim out.stdout))

    unfoldable pub list_for_home : Option String → Result Anyhow (List Pm2App)
    unfolding apps_of
    list_for_home home = apps_of (jlist home)

    abbrev pub at_home : String → Pm2App → Pm2App
    at_home home a = record a { pm2_home = some home }

    -- What the loop has gathered: the apps of the homes that answered, and the homes that failed.
    pub record Gathered : Type 0 where
      pub all : List Pm2App
      pub errs : List String

    add_home : String → Result Anyhow (List Pm2App) → Gathered → Gathered
    add_home home (ok apps) g = record g { all = append (map (at_home home) apps) g.all }
    add_home home (err e) g = record g { errs = (home ++ ": " ++ text_of e) ∷ g.errs }

    -- The loop over the homes, its results in order.
    unfoldable pub gather : List String → Gathered
    unfolding add_home
    gather [] = record { all = []; errs = [] }
    gather (home ∷ rest) = add_home home (list_for_home (some home)) (gather rest)

    abbrev is_nil {ℓ} : {A : Type ℓ} → List A → Bool
    is_nil [] = true
    is_nil (x ∷ xs) = false

    abbrev conclude : Gathered → Result Anyhow (List Pm2App)
    conclude g =
        if is_nil g.all && not (is_nil g.errs)
        then err (msg ("pm2 jlist failed for all homes: " ++ join "; " g.errs))
        else ok g.all

    abbrev list_targets : List String → Result Anyhow (List Pm2App)
    list_targets [] = list_for_home none
    list_targets (home ∷ rest) = conclude (gather (home ∷ rest))

    -- `discovered` are the homes found on disk.
    unfoldable pub list : List String → List String → Result Anyhow (List Pm2App)
    unfolding gather
    list discovered [] = list_targets discovered
    list discovered (home ∷ rest) = list_targets (home ∷ rest)

    unfoldable pub find_app : List String → String → List String → Result Anyhow (Option Pm2App)
    find_app discovered name homes =
        list discovered homes >>= λ apps. ok (find (λ a. a.name == name) apps)

-- Whether a path is a directory, and whether it exists.
module _ (is_dir exists : String → Bool) where
  -- `entries` are the paths in /home, and none where it cannot be read.
  unfoldable pub discover_homes : List String → List String
  discover_homes entries =
      retain
        (λ c.
          is_dir c
          && (exists (c ++ "/pm2.pid")
              || exists (c ++ "/dump.pm2")
              || exists (c ++ "/module_conf.json")))
        ("/root/.pm2" ∷ map (λ e. e ++ "/.pm2") entries)
