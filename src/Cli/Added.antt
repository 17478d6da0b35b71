-- ===== src/Cli/Added.antt =====
-- src/main.rs, `cmd_user_add`, with src/handlers/auth.rs: the user that the command makes, and the login
-- of that user.
use vps_monitor_webui.Prelude.{
  ℕ, ◌≤◌, String, ◌≡◌, refl, sym, ap, ◌∙◌, true, false, Bool, ◌==◌, eq_refl, List, [], ◌∷◌, ◌++◌,
  none, some, arith, find, any, utf8_len, nat_eq_self,
}
use vps_monitor_webui.Prelude.Int.{◌<ℤ◌, as_i64, add_i64, ℤ}
use vps_monitor_webui.Result.{Result, ok}
use vps_monitor_webui.Error.{Anyhow}
use vps_monitor_webui.Exec.Inversion.{bind_inv}
use vps_monitor_webui.Config.{Config}
use vps_monitor_webui.Db.{Env, World, Database, UserRow, open_pool, migrate, reading, seconds}
use vps_monitor_webui.Db.Facts.{IsHealthy, get_conn_ok, statement_ok, now_unix_ok}
use vps_monitor_webui.Db.Consistent.{IsConsistent, Users}
use vps_monitor_webui.Db.Users as Table
use vps_monitor_webui.Db.Users.{named, has_id, insert_user}
use vps_monitor_webui.Auth.Password.{Crypto, accepts}
use vps_monitor_webui.Auth.Password.RoundTrip.{CryptoLaws, accepts-hash}
use vps_monitor_webui.Auth.Session.{cookie_name}
use vps_monitor_webui.Auth.Middleware.{Parts, AuthUser, from_request_parts}
use vps_monitor_webui.Handlers.Auth.{LoginRequest, authenticate}
use vps_monitor_webui.Handlers.Auth.Success.{NewTokens}
use vps_monitor_webui.Handlers.Auth.Admitted.{authenticate-admits}
use vps_monitor_webui.Cli.{cmd_user_add}
use vps_monitor_webui.Cli.Accounts.{new_password_ok, hash-db}

find-append-last :
    {A : Type 0} (p : A → Bool) (xs : List A) (a : A)
    → any p xs ≡ false
    → p a ≡ true
    → find p (xs ++ a ∷ []) ≡ some a
unfolding find any
find-append-last p [] a h k = ground (arith, k)
find-append-last p (x ∷ xs) a h k = ground (arith, find-append-last p xs a)

-- The counter gives an id that no user has.
any-has_id-above : (bound : ℕ) (us : List UserRow) → Users bound us → any (has_id bound) us ≡ false
unfolding any
any-has_id-above bound [] c = refl
any-has_id-above bound (u ∷ us) c = ground (arith, c.0, any-has_id-above bound us c.3)

abbrev new_row : String → String → ℤ → Database → UserRow
new_row name hash now db = record {
  id = db.next_user;
  username = name;
  password_hash = hash;
  failed_count = 0;
  locked_until = none;
  created_at = now;
}

insert_user_ok :
    (name hash : String) (now : ℤ) (db db' : Database) (id : ℕ)
    → insert_user name hash now db ≡ ok (id, db')
    → (any (named name) db.users ≡ false)
      × (db'.users ≡ db.users ++ new_row name hash now db ∷ [])
      × (db'.sessions ≡ db.sessions)
unfolding insert_user
insert_user_ok name hash now db db' id h = ground arith

create_ok :
    (env : Env) (name hash : String) (w v : World) (id : ℕ)
    → Table.create env name hash w ≡ (ok id, v)
    → (now : ℤ) × (any (named name) w.db.users ≡ false)
      × (v.db.users ≡ w.db.users ++ new_row name hash now w.db ∷ [])
      × (v.db.sessions ≡ w.db.sessions)
unfolding Table.create
create_ok env name hash w v id h =
    let b = bind_inv _ _ w id v h in
    let clock = now_unix_ok env w b.middle b.value b.first in
    let wrote = statement_ok env (insert_user name hash b.value) b.middle v id b.second in
    let same : b.middle.db ≡ w.db = ap (λ (x : World). x.db) clock.1 in
    let ins = insert_user_ok name hash b.value b.middle.db v.db id wrote.0 in
    (
      b.value,
      ap (λ (d : Database). any (named name) d.users) (sym same) ∙ ins.0,
      ins.1 ∙ ap (λ (d : Database). d.users ++ new_row name hash b.value d ∷ []) same,
      ins.2 ∙ ap (λ (d : Database). d.sessions) same,
    )

migrate_ok : (env : Env) (w v : World) → migrate env w ≡ (ok tt, v) → v.db ≡ w.db
unfolding migrate open_pool reading
migrate_ok env w v h =
    let b1 = bind_inv _ _ w tt v h in
    let b2 = bind_inv _ _ b1.middle tt v b1.second in
    let first = get_conn_ok env w b1.middle b1.value b1.first in
    let second = get_conn_ok env b1.middle b2.middle b2.value b2.first in
    let read = statement_ok env _ b2.middle v tt b2.second in ground (arith, first, second, read)

module _ (crypto : Crypto) (env : Env) (prompt confirm : Result Anyhow String)
    (username : String) where
  -- The row of the new user, under the next id of the table, for the password that was typed.
  pub record Added (w v : World) (pw : String) : Type 0 where
    pub prompted : prompt ≡ ok pw
    pub confirmed : confirm ≡ ok pw
    pub long : 8 ≤ utf8_len pw
    pub row : UserRow
    pub new_name : any (named username) w.db.users ≡ false
    pub users : v.db.users ≡ w.db.users ++ row ∷ []
    pub its_name : row.username ≡ username
    pub its_id : row.id ≡ w.db.next_user
    pub its_hash : accepts crypto pw row.password_hash ≡ true
    pub unlocked : row.locked_until ≡ none
    pub uncounted : row.failed_count ≡ 0
    pub same_sessions : v.db.sessions ≡ w.db.sessions

  pub cmd_user_add-Added :
      (laws : CryptoLaws crypto) (w v : World)
      → cmd_user_add crypto env prompt confirm username w ≡ (ok tt, v)
      → (pw : String) × Added w v pw
  unfolding cmd_user_add open_pool
  cmd_user_add-Added laws w v h =
      let b0 = bind_inv _ _ w tt v h in
      let b1 = bind_inv _ _ b0.middle tt v b0.second in
      let b2 = bind_inv _ _ b1.middle tt v b1.second in
      let b3 = bind_inv _ _ b2.middle tt v b2.second in
      let b4 = bind_inv _ _ b3.middle tt v b3.second in
      let b5 = bind_inv _ _ b4.middle tt v b4.second in
      let migrated = migrate_ok env w b0.middle b0.first in
      let opened = get_conn_ok env b0.middle b1.middle b1.value b1.first in
      let typed = new_password_ok crypto env prompt confirm b1.middle b2.middle b2.value b2.first in
      let hashed = hash-db crypto env b2.value b3.value b2.middle b3.middle b3.first in
      let fits = accepts-hash crypto laws env b2.value b3.value b2.middle b3.middle b3.first in
      let conn = get_conn_ok env b3.middle b4.middle b4.value b4.first in
      let made = create_ok env username b3.value b4.middle b5.middle b5.value b5.first in
      let same : b4.middle.db ≡ w.db =
        ap (λ (x : World). x.db) conn
        ∙ hashed
        ∙ ap (λ (x : World). x.db) (typed.3 ∙ opened)
        ∙ migrated in
      let end : v ≡ b5.middle = ap (λ x. x.1) (sym b5.second) in
      (
        b2.value,
        record {
          prompted = typed.0;
          confirmed = typed.1;
          long = typed.2;
          row = new_row username b3.value made.0 w.db;
          new_name = ap (λ (d : Database). any (named username) d.users) (sym same) ∙ made.1;
          users =
              ap (λ (x : World). x.db.users) end
              ∙ made.2
              ∙ ap (λ (d : Database). d.users ++ new_row username b3.value made.0 d ∷ []) same;
          its_name = refl;
          its_id = refl;
          its_hash = fits;
          unlocked = refl;
          uncounted = refl;
          same_sessions =
              ap (λ (x : World). x.db.sessions) end
              ∙ made.3
              ∙ ap (λ (d : Database). d.sessions) same;
        },
      )

  module _ (start_env : Env) (healthy : IsHealthy start_env) (cfg : Config) (ip : String)
      (later_env : Env) (later_healthy : IsHealthy later_env) (next : String → Parts) where
    -- By the laws of the crates: where `user add` returns on consistent tables, a password of eight bytes
    -- at least was typed twice alike; and a service in which nothing fails, on the tables that the command
    -- left, opens a session for that name and that password, if no token that it draws
    -- stands in the table; a request that then brings the token is let in as the new user, if the clock
    -- stands before the end of a lifetime from the login.
    pub cmd_user_add-admits :
        (laws : CryptoLaws crypto) (w v served : World)
        → cmd_user_add crypto env prompt confirm username w ≡ (ok tt, v)
        → IsConsistent w.db
        → served.db ≡ v.db
        → ((req : LoginRequest) → NewTokens crypto start_env healthy cfg ip req served)
        → ((token : String) → (next token).cookie cookie_name ≡ some token)
        → ((n m : ℕ)
            → seconds (later_env.system_time n)
              <ℤ add_i64 (seconds (start_env.system_time m)) (as_i64 cfg.session_ttl_secs))
        → (pw : String) × (prompt ≡ ok pw)
          × (confirm ≡ ok pw)
          × (8 ≤ utf8_len pw)
          × ((token : String) × (after : World) × (authenticate crypto start_env cfg ip
                  (record { username = username; password = pw })
                  served
                ≡ (ok (w.db.next_user, token), after))
              × ((a : AuthUser) × ((end : World) × (from_request_parts later_env cfg
                        (next token)
                        after
                      ≡ (ok a, end)))
                  × (a.user_id ≡ w.db.next_user)
                  × (a.username ≡ username)
                  × (a.token ≡ token)))
    cmd_user_add-admits laws w v served h consistent same new brings before_end =
        let (pw, added) = cmd_user_add-Added laws w v h in
        let u = added.row in
        let req : LoginRequest = record { username = username; password = pw } in
        let users : served.db.users ≡ w.db.users ++ u ∷ [] =
          ap (λ (d : Database). d.users) same ∙ added.users in
        let no_id : any (has_id u.id) w.db.users ≡ false =
          ap (λ n. any (has_id n) w.db.users) added.its_id
          ∙ any-has_id-above w.db.next_user w.db.users consistent.users in
        let by_name =
          find-append-last (named username) w.db.users u added.new_name
            (ap (λ s. s == username) added.its_name ∙ eq_refl username) in
        let by_id = find-append-last (has_id u.id) w.db.users u no_id (nat_eq_self u.id) in
        let r =
          authenticate-admits crypto start_env healthy cfg ip req u served later_env later_healthy
            next (ap (find (named username)) users ∙ by_name)
            (ap (find (has_id u.id)) users ∙ by_id) (new req)
            (λ until lock. absurd (ground (arith, lock, added.unlocked))) added.its_hash brings
            before_end in
        let a = r.3.0 in
        (
          pw,
          added.prompted,
          added.confirmed,
          added.long,
          (
            r.0,
            r.1,
            r.2 ∙ ap (λ id. (ok (id, r.0), r.1)) added.its_id,
            (a, r.3.1, r.3.2 ∙ added.its_id, r.3.3 ∙ added.its_name, r.3.4),
          ),
        )
