-- ===== src/Handlers/Auth/Logout.antt =====
-- src/handlers/auth.rs, `logout`: the session is over for every later request.
use vps_monitor_webui.Prelude.{
  String, ◌≡◌, ◌≢◌, true, not, eq_iff, Bool, List, [], ◌∷◌, arith, retain, Bool-cases, inl, inr,
  subst,
}
use vps_monitor_webui.Result.{ok}
use vps_monitor_webui.Exec.Inversion.{bind_inv, map_err_inv}
use vps_monitor_webui.Config.{Config}
use vps_monitor_webui.Db.{Env, World}
use vps_monitor_webui.Db.Facts.{get_conn_ok, statement_ok}
use vps_monitor_webui.Db.Sessions
use vps_monitor_webui.Db.Sessions.{with_token, delete_session}
use vps_monitor_webui.Prelude.In.{In, head, later}
use vps_monitor_webui.Auth.Password.{Crypto}
use vps_monitor_webui.Auth.Middleware.{AuthUser, Parts, from_request_parts}
use vps_monitor_webui.Auth.Middleware.Sound.{from_request_parts-LetIn}
use vps_monitor_webui.Handlers.Auth.{Cookie, logout}
use vps_monitor_webui.Handlers.Auth.Login.{write_audit_ok}

no_In : {A : Type 0} {a : A} → In a [] → ⊥
no_In h = elim h [ ]

In-cons :
    {A : Type 0} {a x : A} {l : List A} (p : A → Bool)
    → In a (x ∷ l)
    → p x ≡ true
    → (In a l → p a ≡ true)
    → p a ≡ true
In-cons p head first rest = first
In-cons p (later h) first rest = rest h

-- What a filter keeps passes its test.
In-retain : {A : Type 0} (p : A → Bool) (a : A) (l : List A) → In a (retain p l) → p a ≡ true
unfolding retain
In-retain p a [] h = absurd (no_In h)
In-retain p a (x ∷ l) h = elim (Bool-cases (p x)) [
  | inl e ↦ In-cons p (rw e at h) e (In-retain p a l)
  | inr e ↦ In-retain p a l (rw e at h)
]

delete_ok :
    (env : Env) (token : String) (w v : World) (u : Unit {0})
    → Sessions.delete env token w ≡ (ok u, v)
    → v.db.sessions ≡ retain (λ s. not (with_token token s)) w.db.sessions
unfolding Sessions.delete delete_session
delete_ok env token w v u h =
    let row = statement_ok env (delete_session token) w v u h in ground (arith, row)

logout_ok :
    (crypto : Crypto) (env : Env) (user : AuthUser) (parts : Parts) (w v : World) (c : Cookie)
    → logout crypto env user parts w ≡ (ok c, v)
    → v.db.sessions ≡ retain (λ s. not (with_token user.token s)) w.db.sessions
unfolding logout
logout_ok crypto env user parts w v c h =
    let b1 = bind_inv _ _ w c v h in
    let b2 = bind_inv _ _ b1.middle c v b1.second in
    let b3 = bind_inv _ _ b2.middle c v b2.second in
    let b4 = bind_inv _ _ b3.middle c v b3.second in
    let conn =
      get_conn_ok env b1.middle b2.middle b2.value
        (map_err_inv _ _ b1.middle b2.value b2.middle b2.first) in
    let gone =
      delete_ok env user.token b2.middle b3.middle b3.value
        (map_err_inv _ _ b2.middle b3.value b3.middle b3.first) in
    let kept = write_audit_ok crypto env _ b3.middle b4.middle (ok b4.value) b4.first in
    ground (arith, b1.first, conn, gone, kept, b4.second)

-- After a logout that returned, no request that carries the token of the session is let in, at any
-- time, whatever the environment, as long as the tables are those that the logout left.
pub logout-ends :
    (crypto : Crypto) (env later_env : Env) (cfg : Config) (user : AuthUser) (parts next : Parts)
    (w v after : World) (c : Cookie) (u : AuthUser)
    → logout crypto env user parts w ≡ (ok c, v)
    → from_request_parts later_env cfg next v ≡ (ok u, after)
    → u.token ≢ user.token
logout-ends crypto env later_env cfg user parts next w v after c u out in_ same =
    let l = from_request_parts-LetIn later_env cfg next v after u in_ in
    let p =
      In-retain (λ s. not (with_token user.token s)) l.active.row w.db.sessions
        (subst (In l.active.row) (logout_ok crypto env user parts w v c out) l.active.stored) in
    absurd (ground (arith, p, l.active.its_token, same, eq_iff l.active.row.token user.token))
