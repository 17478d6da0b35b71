-- ===== src/Auth/Middleware/Sound.antt =====
-- src/auth/middleware.rs: a request that is let in has a session, and the session slides.
use vps_monitor_webui.Prelude.{ℕ, ◌+◌, String, ◌≡◌, Option, none, some, arith, ap}
use vps_monitor_webui.Prelude.Int.{ℤ, as_i64}
use vps_monitor_webui.Result.{ok, err, ok_or}
use vps_monitor_webui.Error.{AppError, unauthorized}
use vps_monitor_webui.Exec.{Exec, lift, ◌>>=◌}
use vps_monitor_webui.Exec.Inversion.{bind_inv, map_err_inv, bind_stops}
use vps_monitor_webui.Config.{Config}
use vps_monitor_webui.Db.{Env, World, seconds}
use vps_monitor_webui.Db.Facts.{now_unix_ok, get_conn_ok}
use vps_monitor_webui.Db.Sessions.{SessionRecord, select_active, update_token}
use vps_monitor_webui.Db.Sessions.Laws.{find_active_ok, touch_ok, touched}
use vps_monitor_webui.Db.Sessions.Active.{IsActive, select_active-IsActive}
use vps_monitor_webui.Auth.Session.{cookie_name}
use vps_monitor_webui.Auth.Middleware.{
  Parts, AuthUser, client_ip, slide, active_session, from_request_parts,
}

module _ (env : Env) where
  -- The clock readings of the extractor: of the query, of the slide and of the touch.
  abbrev pub reading_at : World → ℕ → ℤ
  reading_at w n = seconds (env.system_time (w.at + n))

  -- What the extractor knew of the request that it let in, and what it wrote.
  pub record LetIn (cfg : Config) (parts : Parts) (w : World) (u : AuthUser) (v : World)
      : Type 0 where
    pub session : SessionRecord
    pub cookie : parts.cookie cookie_name ≡ some u.token
    pub active : IsActive u.token (reading_at w 1) w.db.users w.db.sessions session
    pub its_user : u.user_id ≡ session.user_id
    pub its_name : u.username ≡ session.username
    pub its_ip : u.ip ≡ client_ip parts
    pub same_users : v.db.users ≡ w.db.users
    pub same_audit : v.db.audit_log ≡ w.db.audit_log
    pub slides :
        v.db.sessions
        ≡ update_token u.token
            (touched env
              (slide (as_i64 cfg.session_ttl_secs) session.expires_at (reading_at w 3))
              (reading_at w 4))
            w.db.sessions

  pub lift_ok :
      {A : Type 0} (o : Option A) (e : AppError) (w v : World) (a : A)
      → lift (ok_or o e) w ≡ (ok a, v)
      → (o ≡ some a) × (v ≡ w)
  lift_ok none e w v a h = absurd (ground arith)
  lift_ok (some b) e w v a h = ground arith

  active_session_ok :
      (ttl : ℤ) (token : String) (w v : World) (s : SessionRecord)
      → active_session env ttl token w ≡ (ok s, v)
      → (select_active token (reading_at w 1) w.db.users w.db.sessions ≡ some s)
        × (v.db ≡ record w.db {
          sessions =
              update_token token
                (touched env (slide ttl s.expires_at (reading_at w 3)) (reading_at w 4))
                w.db.sessions;
        })
  unfolding active_session
  active_session_ok ttl token w v s h =
      let b = bind_inv _ _ w s v h in
      let conn = get_conn_ok env w b.middle b.value (map_err_inv _ _ w b.value b.middle b.first) in
      let c = bind_inv _ _ b.middle s v b.second in
      let found =
        find_active_ok env token b.middle c.middle c.value
          (map_err_inv _ _ b.middle c.value c.middle c.first) in
      let d = bind_inv _ _ c.middle s v c.second in
      let there = lift_ok c.value unauthorized c.middle d.middle d.value d.first in
      let e = bind_inv _ _ d.middle s v d.second in
      let clock = now_unix_ok env d.middle e.middle e.value e.first in
      let f = bind_inv _ _ e.middle s v e.second in
      let wrote =
        touch_ok env token (slide ttl d.value.expires_at e.value) e.middle f.middle f.value
          (map_err_inv _ _ e.middle f.value f.middle f.first) in
      let at1 : b.middle.at ≡ w.at + 1 = ground (arith, conn) in
      let at3 : d.middle.at ≡ w.at + 3 = ground (arith, conn, found, there) in
      let at4 : e.middle.at ≡ w.at + 4 = ground (arith, at3, clock) in
      (
        ground (arith, conn, found, there, at1, f.second),
        ground (arith, conn, found, there, at3, at4, clock, wrote, f.second),
      )

  -- A request that is let in carries the cookie of a session that is stored, not expired and of an
  -- existing user, whose id and name the handler gets; only the row of that session is touched.
  pub from_request_parts-LetIn :
      (cfg : Config) (parts : Parts) (w v : World) (u : AuthUser)
      → from_request_parts env cfg parts w ≡ (ok u, v)
      → LetIn cfg parts w u v
  unfolding from_request_parts
  from_request_parts-LetIn cfg parts w v u h =
      let b = bind_inv _ _ w u v h in
      let sent = lift_ok (parts.cookie cookie_name) unauthorized w b.middle b.value b.first in
      let c = bind_inv _ _ b.middle u v b.second in
      let a =
        active_session_ok (as_i64 cfg.session_ttl_secs) b.value b.middle c.middle c.value c.first in
      record {
        session = c.value;
        cookie = ground (arith, sent, c.second);
        active =
            select_active-IsActive u.token (reading_at w 1) w.db.users w.db.sessions c.value
              (ground (arith, sent, a.0, c.second));
        its_user = ground (arith, c.second);
        its_name = ground (arith, c.second);
        its_ip = ground (arith, c.second);
        same_users = ground (arith, sent, a, c.second);
        same_audit = ground (arith, sent, a, c.second);
        slides = ground (arith, sent, a, c.second);
      }

  -- A handler behind the extractor that returned: the request was let in, and the handler ran for
  -- that user.
  pub guarded_ok :
      {A : Type 0} (cfg : Config) (parts : Parts) (f : AuthUser → Exec World AppError A)
      (w v : World) (a : A)
      → (from_request_parts env cfg parts >>= f) w ≡ (ok a, v)
      → (u : AuthUser) × (t : World) × LetIn cfg parts w u t × (f u t ≡ (ok a, v))
  guarded_ok cfg parts f w v a h =
      let b = bind_inv (from_request_parts env cfg parts) f w a v h in
      (b.value, b.middle, from_request_parts-LetIn cfg parts w b.middle b.value b.first, b.second)

  -- And without a cookie it does not run.
  pub guarded_no_cookie :
      {A : Type 0} (cfg : Config) (parts : Parts) (f : AuthUser → Exec World AppError A) (w : World)
      → parts.cookie cookie_name ≡ none
      → (from_request_parts env cfg parts >>= f) w ≡ (err unauthorized, w)
  unfolding from_request_parts
  guarded_no_cookie cfg parts f w none_sent = bind_stops _ f w w unauthorized (
      bind_stops (lift (ok_or (parts.cookie cookie_name) unauthorized)) _ w w unauthorized
        (ap (λ o. lift (ok_or o unauthorized) w) none_sent))
