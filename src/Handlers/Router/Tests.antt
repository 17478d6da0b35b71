-- ===== src/Handlers/Router/Tests.antt =====
-- Runs of src/handlers/mod.rs and src/handlers/static_files.rs: where paths go, and two requests.
use vps_monitor_webui.Prelude.{
  any, eq_ignore_ascii_case, ◌↔◌, ℕ, String, ◌≡◌, ◌≢◌, ◌⊎◌, refl, List, [], ◌∷◌, Option, none, some,
  ◌==◌, if◌then◌else◌, arith, find,
}
use vps_monitor_webui.Prelude.Int.{as_i64, sub_i64, half_ℤ}
use vps_monitor_webui.Result.{ok, err}
use vps_monitor_webui.Error.{unauthorized}
use vps_monitor_webui.Exec.{◌>>=◌, map_err}
use vps_monitor_webui.Auth.Password.{accepts}
use vps_monitor_webui.Auth.Session.{cookie_name}
use vps_monitor_webui.Handlers.Auth.{Cookie, require_xhr}
use vps_monitor_webui.Handlers.Auth.Success.{LockOver}
use vps_monitor_webui.Db.{seconds, World, reading, now_unix, get_conn, statement}
use vps_monitor_webui.Db.Sessions.{select_active, update_token, update_session, find_active, touch}
use vps_monitor_webui.Auth.Middleware.{client_ip, slide, active_session, from_request_parts}
use vps_monitor_webui.Handlers.Auth
use vps_monitor_webui.Handlers.StaticFiles.{handler, not_found_page}
use vps_monitor_webui.Handlers.StaticFiles.Served.{IsFile, AsksFor, handler-Served}
use vps_monitor_webui.Handlers.Router
use vps_monitor_webui.Handlers.Router.{
  Method, get, post, head, unrouted, Endpoint, Target, to, method_not_allowed, fallback, resolve,
  segments, split_slashes,
}
use vps_monitor_webui.Handlers.Router.Answers.{
  Site, Request, logged_in, current_user, run, answer, dispatch,
}
use vps_monitor_webui.Handlers.Router.Matcher.{match_path, find_route, matcher}
use vps_monitor_webui.Handlers.Router.Exact.{matcher-AxumLaws}
use vps_monitor_webui.Handlers.Router.Api.{Documented}
use vps_monitor_webui.Handlers.Router.Documented.{resolve_iff}
use vps_monitor_webui.Handlers.Router.LoggedIn.{dispatch_login_me}
use vps_monitor_webui.Handlers.Router.Guarded.{Guest, Open, dispatch-Guest, dispatch_no_cookie}
use vps_monitor_webui.Example.{
  floats, quiet, quiet-IsHealthy, settings, plain, admin, before, before_end, with_cookie, parts,
  machine,
}

abbrev embedded : String → Option (List ℕ)
embedded name = if name == "index.html" then some (60 ∷ []) else none

abbrev site : Site floats
site = record {
  axum = matcher;
  env = quiet;
  cfg = settings;
  crypto = plain;
  machine = machine;
  to_json = λ snap. err "";
  embedded = embedded;
  from_path = λ path. "text/html";
  from_str = λ s. some s;
  decode = λ s. s;
}

abbrev me_request : Request
me_request = record {
  method = get;
  path = "/api/auth/me";
  parts = parts;
  peer = "127.0.0.1";
  body = record { username = ""; password = "" };
  sort = none;
  limit = none;
  filter = none;
  audit_limit = none;
}

abbrev stranger : Request
stranger = record me_request { parts = record parts { cookie = λ name. none } }

me_resolves : resolve matcher get "/api/auth/me" ≡ to Router.me []
unfolding resolve segments split_slashes find_route match_path
me_resolves = refl

log_resolves : resolve matcher get "/api/logs/pm2/web" ≡ to Router.ws_pm2 ("web" ∷ [])
unfolding resolve segments split_slashes find_route match_path
log_resolves = refl

head_resolves : resolve matcher head "/api/metrics" ≡ to Router.current []
unfolding resolve segments split_slashes find_route match_path
head_resolves = refl

method_resolves : resolve matcher post "/api/metrics" ≡ method_not_allowed
unfolding resolve segments split_slashes find_route match_path
method_resolves = refl

slash_resolves : resolve matcher get "/api/metrics/" ≡ fallback
unfolding resolve segments split_slashes find_route match_path
slash_resolves = refl

no_name_resolves : resolve matcher get "/api/logs/pm2/" ≡ fallback
unfolding resolve segments split_slashes find_route match_path
no_name_resolves = refl

abbrev after_me : World
after_me = (dispatch floats site me_request before).1

me_runs : dispatch floats site me_request before ≡ (ok (current_user ("admin", 1)), after_me)
unfolding dispatch answer run resolve segments split_slashes find_route match_path Auth.me
    from_request_parts active_session ◌>>=◌ map_err get_conn statement now_unix reading find_active
    select_active touch update_session update_token client_ip slide as_i64 find sub_i64 half_ℤ
me_runs = refl

not_login : Router.me ≢ Router.login
not_login e = absurd (ground arith)

dispatch-Guest_example :
    Guest quiet settings parts before ⊎ Open floats site me_request (current_user ("admin", 1))
dispatch-Guest_example =
    dispatch-Guest floats site me_request before after_me (current_user ("admin", 1)) me_runs

dispatch_no_cookie_example : dispatch floats site stranger before ≡ (err unauthorized, before)
dispatch_no_cookie_example =
    dispatch_no_cookie floats site stranger Router.me [] me_resolves not_login before refl

handler-Served_example :
    let r = handler embedded (λ path. "text/html") (λ s. some s) "/processes" in
    (name : String) × AsksFor "/processes" name
    × (IsFile embedded (λ path. "text/html") (λ s. some s) name r
        ⊎ ((embedded name ≡ none)
            × (IsFile embedded (λ path. "text/html") (λ s. some s) "index.html" r
                ⊎ ((embedded "index.html" ≡ none) × (r ≡ not_found_page)))))
handler-Served_example = handler-Served embedded (λ path. "text/html") (λ s. some s) "/processes"

resolve_iff_example :
    (resolve matcher get "/api/logs/pm2/web" ≡ to Router.ws_pm2 ("web" ∷ []))
    ↔ Documented get "/api/logs/pm2/web" Router.ws_pm2 ("web" ∷ [])
resolve_iff_example =
    resolve_iff matcher matcher-AxumLaws get "api/logs/pm2/web" Router.ws_pm2 ("web" ∷ [])

abbrev login_request : Request
login_request = record me_request {
  method = post;
  path = "/api/auth/login";
  body = record { username = "admin"; password = "secret" };
}

abbrev with_token : String → Request
with_token token = record me_request { parts = with_cookie token }

admin-LockOver :
    LockOver plain quiet quiet-IsHealthy settings "127.0.0.1" login_request.body admin.locked_until
      (seconds (some 1000))
unfolding as_i64
admin-LockOver until e = ground (arith, e)

dispatch_login_me_example :
    (cookie : Cookie) × (v : World) × (end : World) × (cookie.name ≡ cookie_name)
    × (dispatch floats site login_request before
        ≡ (ok (logged_in (cookie, record { username = "admin" })), v))
    × (dispatch floats site (with_token cookie.value) v ≡ (ok (current_user ("admin", 1)), end))
unfolding find any accepts require_xhr eq_ignore_ascii_case
dispatch_login_me_example =
    dispatch_login_me floats site site matcher-AxumLaws matcher-AxumLaws quiet-IsHealthy
      quiet-IsHealthy login_request with_token admin before refl refl refl refl refl refl refl
      (λ n. refl) admin-LockOver refl (λ t. refl) (λ t. refl) (λ t. refl) before_end
