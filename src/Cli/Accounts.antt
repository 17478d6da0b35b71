-- ===== src/Cli/Accounts.antt =====
-- src/main.rs: what the commands on users leave in the tables.
use vps_monitor_webui.Prelude.{
  ◌≤◌, String, ◌≡◌, refl, ◌∙◌, ap, true, false, ◌==◌, eq_iff, List, [], ◌∷◌, none, some, arith,
  find, retain, length, utf8_len, ltb, not, nat_eq, Bool-cases, inl, inr,
}
use vps_monitor_webui.Result.{Result, ok}
use vps_monitor_webui.Error.{Anyhow}
use vps_monitor_webui.Exec.{◌>>=◌}
use vps_monitor_webui.Exec.Inversion.{bind_inv, choose_inv}
use vps_monitor_webui.Db.{Env, World, UserRow, fill_bytes, open_pool}
use vps_monitor_webui.Db.Facts.{get_conn_ok, statement_ok}
use vps_monitor_webui.Db.Users
use vps_monitor_webui.Db.Users.{named, update, with_password, update_password}
use vps_monitor_webui.Auth.Password
use vps_monitor_webui.Auth.Password.{Crypto, accepts}
use vps_monitor_webui.Auth.Password.RoundTrip.{CryptoLaws, accepts-hash}
use vps_monitor_webui.Cli.{new_password, cmd_user_passwd}

-- Where a change of the rows of a name reaches a row, the first row of that name has changed.
find-update-named :
    (name : String) (f : UserRow → UserRow) (users : List UserRow)
    → ((r : UserRow) → (f r).username ≡ r.username)
    → nat_eq (length (retain (named name) users)) 0 ≡ false
    → (u : UserRow) × (find (named name) (update (named name) f users) ≡ some (f u))
unfolding find update retain
find-update-named name f [] same some_row = absurd (ground arith)
find-update-named name f (r ∷ rest) same some_row = elim (Bool-cases (named name r)) [
  | inl e ↦ (r, ground (arith, e, same r))
  | inr e ↦
      let p = find-update-named name f rest same (rw e at some_row) in (p.0, ground (arith, e, p.1))
]

pub hash-db :
    (crypto : Crypto) (env : Env) (pw phc : String) (w v : World)
    → Password.hash crypto env pw w ≡ (ok phc, v)
    → v.db ≡ w.db
unfolding Password.hash ◌>>=◌ fill_bytes
hash-db crypto env pw phc w v h = ground arith

module _ (crypto : Crypto) (env : Env) (prompt confirm : Result Anyhow String) where
  pub new_password_ok :
      (w v : World) (pw : String)
      → new_password crypto env prompt confirm w ≡ (ok pw, v)
      → (prompt ≡ ok pw) × (confirm ≡ ok pw) × (8 ≤ utf8_len pw) × (v ≡ w)
  unfolding new_password
  new_password_ok w v pw h =
      let b = bind_inv _ _ w pw v h in
      let c = bind_inv _ _ b.middle pw v b.second in
      elim (choose_inv (not (b.value == c.value)) _ _ c.middle v (ok pw) c.second) [
        | inl (differ, fails) ↦ absurd (ground arith)
        | inr (alike, goes) ↦
            elim (choose_inv (ltb (utf8_len b.value) 8) _ _ c.middle v (ok pw) goes) [
              | inl (short, fails) ↦ absurd (ground arith)
              | inr (long, returns) ↦
                  let same : b.value ≡ pw = ground arith in
                  let same_typed : c.value ≡ pw = ground (arith, eq_iff b.value c.value) in
                  (
                    ground (arith, b.first),
                    ground (arith, c.first),
                    ground arith,
                    ground (arith, b.first, c.first),
                  )
            ]
      ]

  set_password_ok :
      (name phc : String) (w v : World) (u : Unit {0})
      → Users.set_password env name phc w ≡ (ok u, v)
      → (nat_eq (length (retain (named name) w.db.users)) 0 ≡ false)
        × (v.db ≡ record w.db { users = update (named name) (with_password phc) w.db.users })
  unfolding Users.set_password update_password
  set_password_ok name phc w v u h =
      let b = bind_inv _ _ w u v h in
      let row = statement_ok env (update_password name phc) w b.middle b.value b.first in
      elim (choose_inv (nat_eq b.value 0) _ _ b.middle v (ok u) b.second) [
        | inl (nobody, fails) ↦ absurd (ground arith)
        | inr (somebody, returns) ↦
            let counted : length (retain (named name) w.db.users) ≡ b.value = ground (arith, row) in
            (ap (λ n. nat_eq n 0) counted ∙ somebody, ground (arith, row, returns))
      ]

  -- By the laws of the crates: a change of password that returns was typed twice alike, in eight bytes at least; the user then
  -- has a hash that the new password fits, no failures and no lock. The sessions, also those opened
  -- with the old password, stay as they are.
  pub cmd_user_passwd-accepts :
      (laws : CryptoLaws crypto) (username : String) (w v : World)
      → cmd_user_passwd crypto env prompt confirm username w ≡ (ok tt, v)
      → (pw : String) × (prompt ≡ ok pw)
        × (confirm ≡ ok pw)
        × (8 ≤ utf8_len pw)
        × ((u : UserRow) × (find (named username) v.db.users ≡ some u)
            × (accepts crypto pw u.password_hash ≡ true)
            × (u.failed_count ≡ 0)
            × (u.locked_until ≡ none))
        × (v.db.sessions ≡ w.db.sessions)
  unfolding cmd_user_passwd open_pool
  cmd_user_passwd-accepts laws username w v h =
      let b1 = bind_inv _ _ w tt v h in
      let b2 = bind_inv _ _ b1.middle tt v b1.second in
      let b3 = bind_inv _ _ b2.middle tt v b2.second in
      let b4 = bind_inv _ _ b3.middle tt v b3.second in
      let opened = get_conn_ok env w b1.middle b1.value b1.first in
      let typed = new_password_ok b1.middle b2.middle b2.value b2.first in
      let hashed = hash-db crypto env b2.value b3.value b2.middle b3.middle b3.first in
      let fits = accepts-hash crypto laws env b2.value b3.value b2.middle b3.middle b3.first in
      let conn = get_conn_ok env b3.middle b4.middle b4.value b4.first in
      let wrote = set_password_ok username b3.value b4.middle v tt b4.second in
      let changed =
        find-update-named username (with_password b3.value) b4.middle.db.users (λ r. refl)
          wrote.0 in
      (
        b2.value,
        typed.0,
        typed.1,
        typed.2,
        (
          with_password b3.value changed.0,
          ap (λ db. find (named username) db.users) wrote.1 ∙ changed.1,
          fits,
          refl,
          refl,
        ),
        ground (arith, opened, typed, hashed, conn, wrote),
      )
