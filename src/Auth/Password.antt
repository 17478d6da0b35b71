-- ===== src/Auth/Password.antt =====
-- src/auth/password.rs. argon2 and hex are crates: a record of what the program calls of them.
pub mod RoundTrip
use Prim.Native.String.{◌++◌}
use vps_monitor_webui.Prelude.{
  ℕ, ◌+◌, String, Bool, true, false, List, Option, none, some, ◌≡◌, refl, arith,
}
use vps_monitor_webui.Result.{Result, ok, err}
use vps_monitor_webui.Error.{Anyhow, msg}
use vps_monitor_webui.Exec.{Exec, lift, ◌>>=◌}
use vps_monitor_webui.Db.{Env, World, fill_bytes}

pub data Algorithm : Type 0 where
  argon2d argon2i argon2id : Algorithm

pub data Version : Type 0 where
  v0x10 v0x13 : Version

-- Memory in KiB, passes and lanes.
pub record Argon2 : Type 0 where
  pub algorithm : Algorithm
  pub version : Version
  pub m_cost : ℕ
  pub t_cost : ℕ
  pub p_cost : ℕ

-- `parse` is PasswordHash::new and `show` its Display.
pub record Crypto : Type 1 where
  pub PasswordHash : Type 0
  pub hash_password : Argon2 → String → List ℕ → Result String PasswordHash
  pub verify_password : Argon2 → String → PasswordHash → Bool
  pub parse : String → Option PasswordHash
  pub show : PasswordHash → String
  pub hex_encode : List ℕ → String

abbrev pub hasher : Argon2
hasher = record { algorithm = argon2id; version = v0x13; m_cost = 19456; t_cost = 2; p_cost = 1 }

module _ (crypto : Crypto) where
  abbrev pub hashed : Result String crypto.PasswordHash → Result Anyhow String
  hashed (ok h) = ok (crypto.show h)
  hashed (err e) = err (msg ("hash error: " ++ e))

  module _ (env : Env) where
    unfoldable pub hash : String → Exec World Anyhow String
    hash password = do
      salt ← fill_bytes env
      lift (hashed (crypto.hash_password hasher password salt))

  abbrev check : String → Option crypto.PasswordHash → Bool
  check password none = false
  check password (some parsed) = crypto.verify_password hasher password parsed

  abbrev runs : Option crypto.PasswordHash → ℕ
  runs none = 0
  runs (some _) = 1

  -- Whether the password fits the stored hash.
  unfoldable pub accepts : String → String → Bool
  accepts password phc = check password (crypto.parse phc)

  -- `verify`, which costs a run of argon2 unless the stored text is no hash.
  unfoldable pub verify : {E : Type 0} → String → String → Exec World E Bool
  unfolding accepts
  verify password phc w = (
    ok (accepts password phc),
    record w { verifications = w.verifications + runs (crypto.parse phc) },
  )

  pub verify-db :
      (E : Type 0) (password phc : String) (w : World) → (verify {E = E} password phc w).1.db ≡ w.db
  unfolding verify
  verify-db E password phc w = refl

  pub verify-at :
      (E : Type 0) (password phc : String) (w : World) → (verify {E = E} password phc w).1.at ≡ w.at
  unfolding verify
  verify-at E password phc w = refl

  pub verify_runs :
      {E : Type 0} (password phc : String) (w : World)
      → accepts password phc ≡ true
      → verify {E = E} password phc w ≡ (ok true, (verify {E = E} password phc w).1)
  unfolding verify
  verify_runs password phc w h = ground arith

  pub verify_wrong :
      {E : Type 0} (password phc : String) (w : World)
      → accepts password phc ≡ false
      → verify {E = E} password phc w ≡ (ok false, (verify {E = E} password phc w).1)
  unfolding verify
  verify_wrong password phc w h = ground arith
