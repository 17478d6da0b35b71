-- ===== src/Auth/Middleware/Runs.antt =====
-- src/auth/middleware.rs: where nothing fails, an active session is let in.
use vps_monitor_webui.Prelude.{◌+◌, String, ◌≡◌, refl, ◌∙◌, ap, Option, none, some}
use vps_monitor_webui.Prelude.Int.{ℤ, as_i64}
use vps_monitor_webui.Result.{ok, ok_or}
use vps_monitor_webui.Error.{unauthorized, other}
use vps_monitor_webui.Exec.{lift}
use vps_monitor_webui.Exec.Inversion.{bind_runs, map_err_runs}
use vps_monitor_webui.Config.{Config}
use vps_monitor_webui.Db.{Env, World, Database, seconds, tick, now_unix, get_conn, reading}
use vps_monitor_webui.Db.Facts.{IsHealthy, get_conn_runs, statement_runs, now_unix_runs}
use vps_monitor_webui.Db.Sessions.{
  SessionRecord, select_active, update_token, update_session, find_active, touch, seen, slid,
}
use vps_monitor_webui.Auth.Session.{cookie_name}
use vps_monitor_webui.Auth.Middleware.{
  Parts, AuthUser, client_ip, slide, active_session, from_request_parts,
}

module _ (env : Env) (healthy : IsHealthy env) where
  find_active_runs :
      (token : String) (w : World)
      → find_active env token w ≡ (
        ok (select_active token (seconds (env.system_time w.at)) w.db.users w.db.sessions),
        tick (tick w),
      )
  unfolding find_active reading
  find_active_runs token w =
      bind_runs (now_unix env) _ w (tick w) _ (now_unix_runs env w)
      ∙ statement_runs env healthy _ (tick w) _ w.db refl

  touch_runs :
      (token : String) (to : Option ℤ) (w : World)
      → (v : World) × (touch env token to w ≡ (ok tt, v)) × (v.db.users ≡ w.db.users)
  unfolding touch update_session
  touch_runs token none w =
      let t = seconds (env.system_time w.at) in
      let db' : Database = record w.db { sessions = update_token token (seen t) w.db.sessions } in
      (
        record (tick w) { db = db'; at = w.at + 1 + 1 },
        bind_runs (now_unix env) _ w (tick w) t (now_unix_runs env w)
            ∙ statement_runs env healthy (update_session token (seen t)) (tick w) tt db' refl,
        refl,
      )
  touch_runs token (some e) w =
      let t = seconds (env.system_time w.at) in
      let db' : Database = record w.db { sessions = update_token token (slid t e) w.db.sessions } in
      (
        record (tick w) { db = db'; at = w.at + 1 + 1 },
        bind_runs (now_unix env) _ w (tick w) t (now_unix_runs env w)
            ∙ statement_runs env healthy (update_session token (slid t e)) (tick w) tt db' refl,
        refl,
      )

  active_session_runs :
      (ttl : ℤ) (token : String) (s : SessionRecord) (w : World)
      → select_active token (seconds (env.system_time (w.at + 1))) w.db.users w.db.sessions ≡ some s
      → (v : World) × (active_session env ttl token w ≡ (ok s, v))
  unfolding active_session
  active_session_runs ttl token s w active =
      let w1 = tick w in
      let w3 = tick (tick w1) in
      let w4 = tick w3 in
      let conn = map_err_runs other (get_conn env) w w1 tt (get_conn_runs env healthy w) in
      let query =
        map_err_runs other (find_active env token) w1 w3 (some s)
          (find_active_runs token w1 ∙ ap (λ o. (ok o, w3)) active) in
      let new_exp = slide ttl s.expires_at (seconds (env.system_time w3.at)) in
      let t = touch_runs token new_exp w4 in
      let write = map_err_runs other (touch env token new_exp) w4 t.0 tt t.1 in
      (
        t.0,
        bind_runs _ _ w w1 tt conn
            ∙ bind_runs _ _ w1 w3 (some s) query
            ∙ bind_runs (lift (ok_or (some s) unauthorized)) _ w3 w3 s refl
            ∙ bind_runs (now_unix env) _ w3 w4 _ (now_unix_runs env w3)
            ∙ bind_runs _ _ w4 t.0 tt write,
      )

  -- Where nothing fails, a request with the cookie of an active session is let in, as its user.
  pub from_request_parts_runs :
      (cfg : Config) (parts : Parts) (token : String) (s : SessionRecord) (w : World)
      → parts.cookie cookie_name ≡ some token
      → select_active token (seconds (env.system_time (w.at + 1))) w.db.users w.db.sessions ≡ some s
      → (u : AuthUser) × ((v : World) × (from_request_parts env cfg parts w ≡ (ok u, v)))
        × (u.user_id ≡ s.user_id)
        × (u.username ≡ s.username)
        × (u.token ≡ token)
  unfolding from_request_parts
  from_request_parts_runs cfg parts token s w sent active =
      let a = active_session_runs (as_i64 cfg.session_ttl_secs) token s w active in
      let u : AuthUser = record {
        user_id = s.user_id;
        username = s.username;
        token = token;
        ip = client_ip parts;
      } in
      (
        u,
        (
          a.0,
          bind_runs (lift (ok_or (parts.cookie cookie_name) unauthorized)) _ w w token
                (ap (λ o. lift (ok_or o unauthorized) w) sent)
              ∙ bind_runs _ _ w a.0 s a.1,
        ),
        refl,
        refl,
        refl,
      )
