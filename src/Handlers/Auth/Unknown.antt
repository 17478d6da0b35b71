-- ===== src/Handlers/Auth/Unknown.antt =====
-- src/handlers/auth.rs, `login` by a name that nobody has: the dummy hash is verified.
use vps_monitor_webui.Prelude.{
  ℕ, ◌+◌, String, ◌≡◌, refl, ◌∙◌, none, some, arith, find, Option-cases, inl, inr,
}
use vps_monitor_webui.Result.{ok, err}
use vps_monitor_webui.Error.{bad_credentials, other}
use vps_monitor_webui.Exec.{◌>>=◌, ignore}
use vps_monitor_webui.Exec.Inversion.{bind_runs, map_err_runs}
use vps_monitor_webui.Config.{Config}
use vps_monitor_webui.Db.{Env, World, tick, fill_bytes, get_conn, reading, now_unix, statement}
use vps_monitor_webui.Db.Facts.{IsHealthy, get_conn_runs, statement_runs}
use vps_monitor_webui.Db.Users.{named, find_for_auth}
use vps_monitor_webui.Db.Audit
use vps_monitor_webui.Db.Audit.{AuditWrite, insert_audit}
use vps_monitor_webui.Auth.Password
use vps_monitor_webui.Auth.Password.{Crypto, hasher, accepts}
use vps_monitor_webui.Auth.Password.RoundTrip.{CryptoLaws}
use vps_monitor_webui.Handlers.Auth.{
  LoginRequest, audited, write_audit, force_dummy_hash, unknown_user, by_user, authenticate,
}
use vps_monitor_webui.Handlers.Auth.Login.{write_audit_runs, write_audit_ok}

-- argon2 hashes the dummy password with each salt that is generated: the parameters of `hasher` are in
-- range, the password is a short one, and a generated salt has the crate's recommended length.
pub record Hashes (crypto : Crypto) (env : Env) : Type 0 where
  pub hashes :
      (n : ℕ)
      → (h : crypto.PasswordHash) × (crypto.hash_password hasher
            "dummy-not-a-real-password-please-ignore"
            (env.random_bytes n)
          ≡ ok h)

-- The cell of DUMMY_HASH is empty, or holds a hash.
abbrev pub DummyParses : Crypto → World → Type 0
DummyParses crypto w =
    (phc : String)
    → w.dummy_hash ≡ some phc
    → (h : crypto.PasswordHash) × (crypto.parse phc ≡ some h)

module _ (crypto : Crypto) (laws : CryptoLaws crypto) (env : Env) (total : Hashes crypto env) where
  hash_runs :
      (w : World)
      → Password.hash crypto env "dummy-not-a-real-password-please-ignore" w
        ≡ (ok (crypto.show (total.hashes w.at).0), tick w)
  unfolding Password.hash fill_bytes ◌>>=◌
  hash_runs w = ground (arith, (total.hashes w.at).1)

  pub force_dummy_hash_runs :
      (w : World)
      → DummyParses crypto w
      → (phc : String) × (v : World) × (force_dummy_hash crypto env w ≡ (ok phc, v))
        × (v.db ≡ w.db)
        × (v.verifications ≡ w.verifications)
        × ((h : crypto.PasswordHash) × (crypto.parse phc ≡ some h))
  unfolding force_dummy_hash
  force_dummy_hash_runs w parses = elim (Option-cases w.dummy_hash) [
    | inl e ↦
        let h = total.hashes w.at in
        (
          crypto.show h.0,
          record (tick w) { dummy_hash = some (crypto.show h.0) },
          ground (arith, e, hash_runs w),
          refl,
          refl,
          (h.0, laws.parse-show h.0),
        )
    | inr (s, e) ↦ (s, w, rw e, refl, refl, parses s e)
  ]

  write_audit-verifications :
      (e : AuditWrite) (w : World) → (write_audit crypto env e w).1.verifications ≡ w.verifications
  unfolding write_audit ignore Audit.write ◌>>=◌ now_unix statement insert_audit
  write_audit-verifications e w = ground arith

  module _ (healthy : IsHealthy env) (cfg : Config) (ip : String) (req : LoginRequest) where
    find_nobody_runs :
        (w : World)
        → find (named req.username) w.db.users ≡ none
        → find_for_auth env req.username w ≡ (ok none, tick w)
    unfolding find_for_auth reading
    find_nobody_runs w nobody = statement_runs env healthy _ w none w.db (ground (arith, nobody))

    unknown_user_runs :
        (w : World)
        → DummyParses crypto w
        → (v : World) × (unknown_user crypto env cfg ip req w ≡ (err bad_credentials, v))
          × (v.verifications ≡ w.verifications + 1)
          × (v.db.users ≡ w.db.users)
          × (v.db.sessions ≡ w.db.sessions)
    unfolding unknown_user Password.verify
    unknown_user_runs w parses =
        let d = force_dummy_hash_runs w parses in
        let x : World = record d.1 { verifications = d.1.verifications + 1 } in
        let e = audited none req.username (some ip) "login_fail" (some "unknown user") in
        let v = (write_audit crypto env e x).1 in
        let kept = write_audit_ok crypto env e x v (ok tt) (write_audit_runs crypto env e x) in
        (
          v,
          bind_runs _ _ w d.1 d.0 d.2
              ∙ bind_runs (Password.verify crypto req.password d.0) _ d.1 x
                  (accepts crypto req.password d.0) (ground (arith, d.5.1))
              ∙ bind_runs _ _ x v tt (write_audit_runs crypto env e x),
          ground (arith, write_audit-verifications e x, d.4),
          ground (arith, kept.same_users, d.3),
          ground (arith, kept.same_sessions, d.3),
        )

    -- Where nothing fails, by the laws of the crates, and where the cell of DUMMY_HASH is empty or
    -- holds a hash: a name that nobody has is answered by BadCredentials, after one run of argon2
    -- that compares the password with the dummy hash, and changes no user and no session.
    pub authenticate_unknown :
        (w : World)
        → find (named req.username) w.db.users ≡ none
        → DummyParses crypto w
        → (v : World) × (authenticate crypto env cfg ip req w ≡ (err bad_credentials, v))
          × (v.verifications ≡ w.verifications + 1)
          × (v.db.users ≡ w.db.users)
          × (v.db.sessions ≡ w.db.sessions)
    unfolding authenticate by_user
    authenticate_unknown w nobody parses =
        let w2 = tick (tick w) in
        let u = unknown_user_runs w2 parses in
        (
          u.0,
          bind_runs _ _ w (tick w) tt
                (map_err_runs other (get_conn env) w (tick w) tt (get_conn_runs env healthy w))
              ∙ bind_runs _ _ (tick w) w2 none (
                  map_err_runs other (find_for_auth env req.username) (tick w) w2 none
                    (find_nobody_runs (tick w) nobody))
              ∙ u.1,
          u.2,
          u.3,
          u.4,
        )
