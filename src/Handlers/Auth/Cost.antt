-- ===== src/Handlers/Auth/Cost.antt =====
-- src/handlers/auth.rs, `login`: how often an attempt runs argon2 on the password, by its answer.
-- Connections and statements may fail on the way.
use mathlib.Core.Option
use vps_monitor_webui.Prelude.{
  ℕ, ◌+◌, String, ◌≡◌, refl, subst, sym, ap, ◌∙◌, Bool, true, false, Option, none, some, arith,
  find, Bool-cases, ◌⊎◌, inl, inr,
}
use vps_monitor_webui.Prelude.Int.{ℤ, ltb_ℤ, as_u64, sub_i64}
use vps_monitor_webui.Result.{Result, ok, err}
use vps_monitor_webui.Error.{AppError, account_locked}
use vps_monitor_webui.Exec.{Exec, choose, ◌>>=◌}
use vps_monitor_webui.Exec.Keeps.{Keeps, Keeps-ends}
use vps_monitor_webui.Exec.Inversion.{bind_runs, bind_stops}
use vps_monitor_webui.Config.{Config}
use vps_monitor_webui.Db.{Env, World, UserRow, tick, now_unix, get_conn, seconds}
use vps_monitor_webui.Db.Facts.{get_conn_ok, now_unix_runs}
use vps_monitor_webui.Db.Users.{
  UserAuth, named, to_auth, find_for_auth, record_failed, reset_failed,
}
use vps_monitor_webui.Db.Users.Laws.{find_for_auth_ok}
use vps_monitor_webui.Db.Sessions
use vps_monitor_webui.Db.Audit.{AuditWrite}
use vps_monitor_webui.Auth.Password
use vps_monitor_webui.Auth.Password.{Crypto, accepts}
use vps_monitor_webui.Auth.Password.RoundTrip.{CryptoLaws}
use vps_monitor_webui.Auth.Session.{new_token, new_token_runs}
use vps_monitor_webui.Handlers.Auth.{
  LoginRequest, audited, write_audit, force_dummy_hash, unknown_user, check_lock, wrong_password,
  open_session, known_user, by_user, authenticate,
}
use vps_monitor_webui.Handlers.Auth.Counts.{
  Counts, record_failed-Counts, reset_failed-Counts, create-Counts, write_audit-Counts,
}
use vps_monitor_webui.Handlers.Auth.Paid.{Paid, Paid-other, Paid-runs}
use vps_monitor_webui.Handlers.Auth.Login.{write_audit_runs}
use vps_monitor_webui.Handlers.Auth.Unknown.{Hashes, DummyParses, force_dummy_hash_runs}

module _ (crypto : Crypto) (env : Env) where
  -- What is left of a block that kept the count.
  kept_count :
      {E A : Type 0} {m : Exec World E A} {w t : World} {r : Result E A} (n : ℕ)
      → Keeps (Counts n) m
      → m w ≡ (r, t)
      → w.verifications ≡ n
      → t.verifications ≡ n
  kept_count n k e h = (Keeps-ends k e (record { counted = h })).counted

  -- The block ends with an entry of the log.
  Paid-audit :
      {A : Type 0} (e : AuditWrite) (m : Exec World AppError A) (w : World) (n k : ℕ)
      → w.verifications ≡ k
      → ((v : World) → v.verifications ≡ k → Paid n (m v))
      → Paid n ((write_audit crypto env e >>= λ _. m) w)
  Paid-audit e m w n k h done =
      let runs = write_audit_runs crypto env e w in
      let v = (write_audit crypto env e w).1 in
      Paid-runs (write_audit crypto env e) _ w v tt n runs
        (done v (kept_count k (write_audit-Counts crypto env e) runs h))

  module _ (cfg : Config) (ip : String) (req : LoginRequest) (n : ℕ) where
    open_session-Paid :
        (user : UserAuth) (w : World)
        → w.verifications ≡ n + 1
        → Paid n (open_session crypto env cfg ip req user w)
    unfolding open_session
    open_session-Paid user w h = Paid-other (reset_failed env user.id) _ w n λ u t reset.
        let h1 = kept_count (n + 1) (reset_failed-Counts crypto env user.id) reset h in
        let token = crypto.hex_encode (env.random_bytes t.at) in
        Paid-runs (new_token crypto env) _ t (tick t) token n (new_token_runs crypto env t) (
          Paid-other (Sessions.create env token user.id _ _) _ (tick t) n λ c t2 made.
            Paid-audit _ _ t2 n (n + 1)
              (kept_count (n + 1) (create-Counts crypto env token user.id _ _) made h1) λ v e. e)

    wrong_password-Paid :
        (user : UserAuth) (w : World)
        → w.verifications ≡ n + 1
        → Paid n (wrong_password crypto env cfg ip req user w)
    unfolding wrong_password
    wrong_password-Paid user w h = Paid-other (record_failed env user.id _ _) _ w n λ u t counted.
        Paid-audit _ _ t n (n + 1)
          (kept_count (n + 1) (record_failed-Counts crypto env user.id _ _) counted h) λ v e. e

    -- What the lock does: let the attempt pass, or stop it, with nothing compared.
    check_lock-cases :
        (user : UserAuth) (lock : Option ℤ) (w : World)
        → ((v : World) × (check_lock crypto env cfg ip req user lock w ≡ (ok tt, v))
            × (v.verifications ≡ w.verifications))
          ⊎ ((s : ℕ) × (v : World) × (check_lock crypto env cfg ip req user lock w
                ≡ (err (account_locked s), v))
              × (v.verifications ≡ w.verifications))
    unfolding check_lock
    check_lock-cases user none w = inl (w, refl, refl)
    check_lock-cases user (some until) w =
        let now = seconds (env.system_time w.at) in
        let clock = bind_runs (now_unix env) _ w (tick w) now (now_unix_runs env w) in
        elim (Bool-cases (ltb_ℤ now until)) [
          | inr over ↦ inl (tick w, clock ∙ rw over refl, refl)
          | inl ahead ↦
              let e = audited (some user.id) user.username (some ip) "login_locked" none in
              let runs = write_audit_runs crypto env e (tick w) in
              inr (
                as_u64 (sub_i64 until now),
                (write_audit crypto env e (tick w)).1,
                clock ∙ rw ahead (bind_runs (write_audit crypto env e) _ (tick w) _ tt runs),
                kept_count w.verifications (write_audit-Counts crypto env e) runs refl,
              )
        ]

    -- A comparison with a text that is a hash.
    Paid-verify :
        {A : Type 0} (password phc : String) (f : Bool → Exec World AppError A) (w : World)
        → (h : crypto.PasswordHash) × (crypto.parse phc ≡ some h)
        → w.verifications ≡ n
        → ((b : Bool) (v : World) → v.verifications ≡ n + 1 → Paid n (f b v))
        → Paid n ((Password.verify crypto password phc >>= f) w)
    unfolding Password.verify
    Paid-verify password phc f w is_hash h k =
        let v : World = record w { verifications = n + 1 } in
        Paid-runs (Password.verify crypto password phc) f w v (accepts crypto password phc) n
          (ground (arith, is_hash.1, h)) (k (accepts crypto password phc) v refl)

    known_user-Paid :
        (user : UserAuth) (w : World)
        → (h : crypto.PasswordHash) × (crypto.parse user.password_hash ≡ some h)
        → w.verifications ≡ n
        → Paid n (known_user crypto env cfg ip req user w)
    unfolding known_user
    known_user-Paid user w is_hash h = elim (check_lock-cases user user.locked_until w) [
      | inr (s, v, e, same) ↦ rw (bind_stops _ _ w v (account_locked s) e) (same ∙ h)
      | inl (v, e, same) ↦ Paid-runs _ _ w v tt n e (
          Paid-verify req.password user.password_hash _ v is_hash (same ∙ h) λ b t counted.
            elim b
              as (λ b. Paid n (
                choose b (open_session crypto env cfg ip req user)
                  (wrong_password crypto env cfg ip req user) t)) [
                    | true ↦ open_session-Paid user t counted
                    | false ↦ wrong_password-Paid user t counted
                  ])
    ]

    module _ (laws : CryptoLaws crypto) (total : Hashes crypto env) where
      unknown_user-Paid :
          (w : World)
          → DummyParses crypto w
          → w.verifications ≡ n
          → Paid n (unknown_user crypto env cfg ip req w)
      unfolding unknown_user
      unknown_user-Paid w parses h =
          let d = force_dummy_hash_runs crypto laws env total w parses in
          Paid-runs (force_dummy_hash crypto env) _ w d.1 d.0 n d.2 (
            Paid-verify req.password d.0 _ d.1 d.5 (d.4 ∙ h)
              λ b t counted. Paid-audit _ _ t n (n + 1) counted λ v e. e)

      by_user-Paid :
          (o : Option UserAuth) (w : World)
          → DummyParses crypto w
          → ((user : UserAuth)
              → o ≡ some user
              → (h : crypto.PasswordHash) × (crypto.parse user.password_hash ≡ some h))
          → w.verifications ≡ n
          → Paid n (by_user crypto env cfg ip req o w)
      unfolding by_user
      by_user-Paid none w parses stored h = unknown_user-Paid w parses h
      by_user-Paid (some user) w parses stored h = known_user-Paid user w (stored user refl) h

-- The stored hash of a user of the name, if there is one, is one that parses.
abbrev pub StoredParses : Crypto → String → World → Type 0
StoredParses crypto name w =
    (u : UserRow)
    → find (named name) w.db.users ≡ some u
    → (h : crypto.PasswordHash) × (crypto.parse u.password_hash ≡ some h)

stored_auth :
    (crypto : Crypto) (name : String) (w : World) (o : Option UserRow) (user : UserAuth)
    → StoredParses crypto name w
    → find (named name) w.db.users ≡ o
    → Option.map to_auth o ≡ some user
    → (h : crypto.PasswordHash) × (crypto.parse user.password_hash ≡ some h)
stored_auth crypto name w none user stored e h = absurd (ground arith)
stored_auth crypto name w (some u) user stored e h =
    let s = stored u e in (s.0, ground (arith, s.1, h))

-- Whatever fails, by the laws of the crates, and where the stored hash of the name and the cell of
-- DUMMY_HASH are hashes: an attempt that is answered by BadCredentials has compared the password once,
-- whether the user exists or not, as has one that succeeds; one that is answered by AccountLocked has
-- compared it with nothing, and any other answer is an internal error.
pub authenticate-Paid :
    (crypto : Crypto) (laws : CryptoLaws crypto) (env : Env) (total : Hashes crypto env)
    (cfg : Config) (ip : String) (req : LoginRequest) (w : World)
    → StoredParses crypto req.username w
    → DummyParses crypto w
    → Paid w.verifications (authenticate crypto env cfg ip req w)
unfolding authenticate
authenticate-Paid crypto laws env total cfg ip req w stored parses =
    let n = w.verifications in
    Paid-other (get_conn env) _ w n λ u t conn.
      Paid-other (find_for_auth env req.username) _ t n λ o v query.
        let at_t : t ≡ tick w = get_conn_ok env w t u conn in
        let q = find_for_auth_ok env req.username t v o query in
        let at_v : v ≡ tick (tick w) = q.1 ∙ ap tick at_t in
        by_user-Paid crypto env cfg ip req n laws total o v
          (subst (DummyParses crypto) (sym at_v) parses)
          (λ user e.
            stored_auth crypto req.username t (find (named req.username) t.db.users) user
              (subst (StoredParses crypto req.username) (sym at_t) stored) refl (sym q.0 ∙ e))
          (ap (λ (x : World). x.verifications) at_v)
