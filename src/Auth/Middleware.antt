-- ===== src/Auth/Middleware.antt =====
-- src/auth/middleware.rs: the extractor `AuthUser`, which every handler but the login takes, and
-- the check of X-Requested-With (src/handlers/auth.rs has it a second time).
pub mod Sound
pub mod Sliding
pub mod Runs
use mathlib.Core.Option
use vps_monitor_webui.Prelude.{
  ℕ, String, Bool, false, ◌||◌, Option, none, some, trim, before_comma, eq_ignore_ascii_case,
  if◌then◌else◌,
}
use vps_monitor_webui.Prelude.Int.{ℤ, ltb_ℤ, half_ℤ, as_i64, add_i64, sub_i64}
use vps_monitor_webui.Result.{Result, ok, err, ok_or, unwrap_or}
use vps_monitor_webui.Error.{AppError, unauthorized, forbidden, other, from_r2d2}
use vps_monitor_webui.Exec.{Exec, pure, lift, map_err, ◌>>=◌, ◌>>◌}
use vps_monitor_webui.Config.{Config}
use vps_monitor_webui.Db.{Env, World, now_unix, get_conn}
use vps_monitor_webui.Db.Sessions
use vps_monitor_webui.Db.Sessions.{SessionRecord}
use vps_monitor_webui.Auth.Session.{cookie_name}

-- What the extractors read of a request. A header is its value as text, `some none` where it is
-- not visible ASCII; a cookie is its value; `connect_ip` is the peer's address.
pub record Parts : Type 0 where
  pub header : String → Option (Option String)
  pub cookie : String → Option String
  pub connect_ip : Option String

pub record AuthUser : Type 0 where
  pub user_id : ℕ
  pub username : String
  pub token : String
  pub ip : Option String

abbrev or_else {ℓ} : {A : Type ℓ} → Option A → Option A → Option A
or_else none o = o
or_else (some a) _ = some a

abbrev pub flatten {ℓ} : {A : Type ℓ} → Option (Option A) → Option A
flatten none = none
flatten (some o) = o

-- The first entry of x-forwarded-for, and else the peer.
unfoldable pub client_ip : Parts → Option String
client_ip parts =
    or_else (Option.map (λ s. trim (before_comma s)) (flatten (parts.header "x-forwarded-for")))
      parts.connect_ip

-- The sliding expiry: a new one if less than half of the lifetime is left.
unfoldable pub slide : ℤ → ℤ → ℤ → Option ℤ
slide ttl expires_at now =
    if ltb_ℤ (sub_i64 expires_at now) (half_ℤ ttl) then some (add_i64 now ttl) else none

abbrev pub xhr_value : String → Bool
xhr_value v = eq_ignore_ascii_case v "fetch" || eq_ignore_ascii_case v "xmlhttprequest"

unfoldable pub ensure_xhr : Parts → Result AppError (Unit {0})
ensure_xhr parts =
    if unwrap_or (Option.map xhr_value (flatten (parts.header "x-requested-with"))) false
    then ok tt
    else err forbidden

module _ (env : Env) where
  -- The closure that runs on the blocking pool.
  unfoldable pub active_session : ℤ → String → Exec World AppError SessionRecord
  active_session ttl token = do
    map_err from_r2d2 (get_conn env)
    found ← map_err other (Sessions.find_active env token)
    s ← lift (ok_or found unauthorized)
    now ← now_unix env
    map_err other (Sessions.touch env token (slide ttl s.expires_at now))
    pure s

  unfoldable pub from_request_parts : Config → Parts → Exec World AppError AuthUser
  from_request_parts cfg parts = do
    token ← lift (ok_or (parts.cookie cookie_name) unauthorized)
    session ← active_session (as_i64 cfg.session_ttl_secs) token
    pure (record {
      user_id = session.user_id;
      username = session.username;
      token = token;
      ip = client_ip parts;
    })
