-- ===== src/Handlers/Logs/Opened.antt =====
-- src/handlers/logs.rs: what a log stream that is opened has passed.
use Prim.Native.String.{◌++◌}
use vps_monitor_webui.Prelude.{
  ◌≤◌, String, utf8_len, is_ascii_alphanumeric, ◌≡◌, ◌≢◌, ◌↔◌, refl, Bool, true, false, not, ◌==◌,
  eq_iff, List, none, some, arith, find, inl, inr, ap, sym, subst, ◌∙◌,
}
use vps_monitor_webui.Result.{Result, ok, err, ◌>>=◌}
use vps_monitor_webui.Regex.{is_match}
use vps_monitor_webui.Regex.Laws.{is_match_iff}
use vps_monitor_webui.Regex.Classes.{EachIn, IsAscii, some_up_to_class_iff}
use vps_monitor_webui.Error.{Anyhow, bad_request, not_found, other}
use vps_monitor_webui.Exec.Inversion.{bind_inv, map_err_inv, choose_inv}
use vps_monitor_webui.Config.{Config}
use vps_monitor_webui.Db.{Env, World}
use vps_monitor_webui.Auth.Middleware.{AuthUser, Parts}
use vps_monitor_webui.Auth.Middleware.Sound.{LetIn, guarded_ok, lift_ok}
use vps_monitor_webui.Collectors.Docker.{validate_id}
use vps_monitor_webui.Collectors.Systemd.{validate_unit}
use vps_monitor_webui.Collectors.Systemd.Units.{IsUnitName, validate_unit_iff}
use vps_monitor_webui.Collectors.Pm2.{Pm2App, find_app, list}
use vps_monitor_webui.Collectors.Pm2.Homes.{find_sound}
use vps_monitor_webui.Collectors.System.{Float}
use vps_monitor_webui.Prelude.In.{In}
use vps_monitor_webui.Machine.{Machine}
use vps_monitor_webui.Handlers.Logs.{
  name_char, pm2_name_re, LogStream, pm2_stream, docker_stream, journal_stream, Upgrade, view_entry,
  open_pm2, open_docker, ws_pm2, ws_docker, ws_journal,
}

name_char-IsAscii : IsAscii name_char
unfolding is_ascii_alphanumeric
name_char-IsAscii c h = ground arith

-- The names of apps whose log can be opened are the texts of 1 to 128 bytes that hold only ASCII
-- letters, digits and `.`, `_` and `-`.
pub pm2_name_iff :
    (name : String)
    → (is_match pm2_name_re name ≡ true)
      ↔ ((name ≢ "") × (utf8_len name ≤ 128) × EachIn name_char name)
pm2_name_iff name =
    let shape = some_up_to_class_iff name_char 127 name name_char-IsAscii in
    (
      λ h. shape.0 ((is_match_iff pm2_name_re name).0 h),
      λ h. (is_match_iff pm2_name_re name).1 (shape.1 h),
    )

not_lem : (b : Bool) → not b ≡ false → b ≡ true
not_lem b h = ground arith

module _ (float : Float) (env : Env) (cfg : Config) (machine : Machine float) (parts : Parts) where
  -- The app that a stream follows: listed, of the name, with its path of standard output.
  pub record Followed (name : String) (stream : LogStream) : Type 0 where
    pub app : Pm2App float
    pub apps : List (Pm2App float)
    pub path : String
    pub listed :
        list float machine.jlist machine.from_str machine.now machine.discovered cfg.pm2_homes
        ≡ ok apps
    pub among : In app apps
    pub its_name : app.name ≡ name
    pub its_log : app.log_out ≡ some path
    pub followed : stream ≡ pm2_stream path

  -- A request that was let in, and the entry that is written of it.
  pub record Viewed (w : World) (target : String) (up : Upgrade) (v : World) : Type 0 where
    pub user : AuthUser
    pub let_in : LetIn env cfg parts w user v
    pub entry : up.spawned ≡ view_entry user target

  find_app_ok :
      (name : String) (app : Pm2App float)
      → find_app float machine.jlist machine.from_str machine.now machine.discovered name
          cfg.pm2_homes
        ≡ ok (some app)
      → (apps : List (Pm2App float)) × (list float machine.jlist machine.from_str machine.now
            machine.discovered cfg.pm2_homes
          ≡ ok apps)
        × In app apps
        × (app.name ≡ name)
  unfolding find_app
  find_app_ok name app h =
      go (list float machine.jlist machine.from_str machine.now machine.discovered cfg.pm2_homes)
        refl h
    where
      go :
          (r : Result Anyhow (List (Pm2App float)))
          → list float machine.jlist machine.from_str machine.now machine.discovered cfg.pm2_homes
            ≡ r
          → (r >>= λ apps. ok (find (λ a. a.name == name) apps)) ≡ ok (some app)
          → (apps : List (Pm2App float)) × (list float machine.jlist machine.from_str machine.now
                machine.discovered cfg.pm2_homes
              ≡ ok apps)
            × In app apps
            × (app.name ≡ name)
      go (ok apps) e k =
          let p = find_sound (λ (a : Pm2App float). a.name == name) apps app (ground arith) in
          (apps, e, p.0, (eq_iff app.name name).0 p.1)
      go (err x) e k = absurd (ground arith)

  open_pm2_ok :
      (user : AuthUser) (name : String) (w v : World) (up : Upgrade)
      → open_pm2 float env cfg machine parts user name w ≡ (ok up, v)
      → Followed name up.stream × (up.spawned ≡ view_entry user ("pm2:" ++ name)) × (v ≡ w)
  unfolding open_pm2
  open_pm2_ok user name w v up h =
      let b = bind_inv _ _ w up v h in
      let run = map_err_inv other _ w b.value b.middle b.first in
      let c = bind_inv _ _ b.middle up v b.second in
      let there = lift_ok env b.value not_found b.middle c.middle c.value c.first in
      let d = bind_inv _ _ c.middle up v c.second in
      let log =
        lift_ok env c.value.log_out (bad_request "pm2 app has no out_log_path; check pm2 describe")
          c.middle d.middle d.value d.first in
      let found = find_app_ok name c.value (ap (λ p. p.0) run ∙ ap ok there.0) in
      (
        record {
          app = c.value;
          apps = found.0;
          path = d.value;
          listed = found.1;
          among = found.2;
          its_name = found.3;
          its_log = log.0;
          followed = ground (arith, d.second);
        },
        ground (arith, d.second),
        ground (arith, run, there.1, log.1, d.second),
      )

  -- A PM2 stream that is opened was asked for by a request with a session, under a name of the
  -- accepted form; it follows the standard output of a listed app of that name, and the entry of the
  -- audit log names the user and the app.
  pub ws_pm2-Viewed :
      (name : String) (w v : World) (up : Upgrade)
      → ws_pm2 float env cfg machine parts name w ≡ (ok up, v)
      → Viewed w ("pm2:" ++ name) up v
        × (is_match pm2_name_re name ≡ true)
        × Followed name up.stream
  unfolding ws_pm2
  ws_pm2-Viewed name w v up h =
      let g = guarded_ok env cfg parts _ w v up h in
      elim (choose_inv (not (is_match pm2_name_re name)) _ _ g.1 v (ok up) g.3) [
        | inl (bad, fails) ↦ absurd (ground arith)
        | inr (good, goes) ↦
            let o = open_pm2_ok g.0 name g.1 v up goes in
            (
              record {
                user = g.0;
                let_in = subst (LetIn env cfg parts w g.0) (sym o.2) g.2;
                entry = o.1;
              },
              not_lem (is_match pm2_name_re name) good,
              o.0,
            )
      ]

  -- A Docker stream that is opened was asked for by a request with a session, for an id that
  -- `validate_id` accepts, where there is a Docker client; the entry of the audit log names the user
  -- and the container.
  ws_docker-Viewed :
      (id : String) (w v : World) (up : Upgrade)
      → ws_docker float env cfg machine parts id w ≡ (ok up, v)
      → Viewed w ("docker:" ++ id) up v
        × (validate_id id ≡ true)
        × (machine.docker ≢ none)
        × (up.stream ≡ docker_stream id)
  unfolding ws_docker open_docker
  ws_docker-Viewed id w v up h =
      let g = guarded_ok env cfg parts _ w v up h in
      elim (choose_inv (not (validate_id id)) _ _ g.1 v (ok up) g.3) [
        | inl (bad, fails) ↦ absurd (ground arith)
        | inr (good, goes) ↦
            let b = bind_inv _ _ g.1 up v goes in
            let client =
              lift_ok env machine.docker (bad_request "docker not available") g.1 b.middle b.value
                b.first in
            let same : g.1 ≡ v = ground (arith, client.1, b.second) in
            (
              record {
                user = g.0;
                let_in = subst (LetIn env cfg parts w g.0) same g.2;
                entry = ground (arith, b.second);
              },
              not_lem (validate_id id) good,
              λ e. absurd (ground (arith, e, client.0)),
              ground (arith, b.second),
            )
      ]

  -- A journal stream that is opened was asked for by a request with a session, for a unit of at most
  -- 256 bytes whose name is a stem of allowed characters, a dot and one of the six types. The entry
  -- of the audit log names the user and the unit.
  pub ws_journal-Viewed :
      (unit : String) (w v : World) (up : Upgrade)
      → ws_journal float env cfg machine parts unit w ≡ (ok up, v)
      → Viewed w ("journal:" ++ unit) up v
        × IsUnitName unit
        × (utf8_len unit ≤ 256)
        × (up.stream ≡ journal_stream unit)
  unfolding ws_journal
  ws_journal-Viewed unit w v up h =
      let g = guarded_ok env cfg parts _ w v up h in
      elim (choose_inv (not (validate_unit unit)) _ _ g.1 v (ok up) g.3) [
        | inl (bad, fails) ↦ absurd (ground arith)
        | inr (good, goes) ↦
            let form = (validate_unit_iff unit).0 (not_lem (validate_unit unit) good) in
            let same : g.1 ≡ v = ground arith in
            (
              record {
                user = g.0;
                let_in = subst (LetIn env cfg parts w g.0) same g.2;
                entry = ground arith;
              },
              form.1,
              form.0,
              ground arith,
            )
      ]
