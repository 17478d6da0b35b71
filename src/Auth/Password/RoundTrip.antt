-- ===== src/Auth/Password/RoundTrip.antt =====
-- src/auth/password.rs: a password is accepted by the hash that was made of it.
use vps_monitor_webui.Prelude.{ℕ, String, ◌≡◌, refl, true, List, some, arith}
use vps_monitor_webui.Result.{Result, ok, err}
use vps_monitor_webui.Exec.{◌>>=◌}
use vps_monitor_webui.Db.{Env, World, fill_bytes}
use vps_monitor_webui.Auth.Password.{Argon2, Crypto, hasher, hashed, hash, accepts}

-- What the documentation of password-hash and argon2 says: a displayed hash parses to itself, and
-- a hash verifies the password that it was computed from, under the same parameters.
pub record CryptoLaws (crypto : Crypto) : Type 0 where
  pub parse-show : (h : crypto.PasswordHash) → crypto.parse (crypto.show h) ≡ some h
  pub verify-hash :
      (params : Argon2) (password : String) (salt : List ℕ) (h : crypto.PasswordHash)
      → crypto.hash_password params password salt ≡ ok h
      → crypto.verify_password params password h ≡ true

module _ (crypto : Crypto) (laws : CryptoLaws crypto) where
  accepts-hashed :
      (password : String) (salt : List ℕ) (phc : String) (r : Result String crypto.PasswordHash)
      → crypto.hash_password hasher password salt ≡ r
      → hashed crypto r ≡ ok phc
      → accepts crypto password phc ≡ true
  unfolding accepts
  accepts-hashed password salt phc (ok h) e shown =
      ground (arith, laws.parse-show h, laws.verify-hash hasher password salt h e)
  accepts-hashed password salt phc (err x) e shown = ground arith

  -- By the laws of the crates, whatever the salt: the text that `hash` returns accepts the password
  -- that it was given.
  pub accepts-hash :
      (env : Env) (password phc : String) (w v : World)
      → hash crypto env password w ≡ (ok phc, v)
      → accepts crypto password phc ≡ true
  unfolding hash ◌>>=◌ fill_bytes
  accepts-hash env password phc w v h =
      accepts-hashed password (env.random_bytes w.at) phc
        (crypto.hash_password hasher password (env.random_bytes w.at)) refl (λ i. (h i).0)
