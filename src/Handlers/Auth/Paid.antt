-- ===== src/Handlers/Auth/Paid.antt =====
-- src/handlers/auth.rs: the comparisons of a password that an answer stands for, and how they follow a
-- block.
use vps_monitor_webui.Prelude.{ℕ, ◌+◌, ◌≡◌, refl}
use vps_monitor_webui.Result.{Result, ok, err}
use vps_monitor_webui.Error.{
  Anyhow, AppError, bad_credentials, account_locked, unauthorized, forbidden, rate_limited,
  not_found, bad_request, other,
}
use vps_monitor_webui.Exec.{Exec, continue, map_err, recast, ◌>>=◌}
use vps_monitor_webui.Exec.Inversion.{bind_runs}
use vps_monitor_webui.Db.{World}

-- The comparisons that an attempt makes after `n` of them: one where the credentials decide, none
-- where the account is locked. An internal error may come before or after the comparison.
abbrev pub Paid : {A : Type 0} → ℕ → Result AppError A × World → Type 0
Paid n (ok a, v) = v.verifications ≡ n + 1
Paid n (err bad_credentials, v) = v.verifications ≡ n + 1
Paid n (err (account_locked s), v) = v.verifications ≡ n
Paid n (err (other x), v) = Unit
Paid n (err unauthorized, v) = ⊥
Paid n (err forbidden, v) = ⊥
Paid n (err rate_limited, v) = ⊥
Paid n (err not_found, v) = ⊥
Paid n (err (bad_request s), v) = ⊥

module _ {A B : Type 0} where
  after_other :
      (r : Result Anyhow A) (t : World) (f : A → Exec World AppError B) (n : ℕ)
      → ((a : A) → r ≡ ok a → Paid n (f a t))
      → Paid n (continue (recast other r) f t)
  after_other (ok a) t f n k = k a refl
  after_other (err x) t f n k = tt

  -- A block whose errors are internal errors.
  pub Paid-other :
      (m : Exec World Anyhow A) (f : A → Exec World AppError B) (w : World) (n : ℕ)
      → ((a : A) (t : World) → m w ≡ (ok a, t) → Paid n (f a t))
      → Paid n ((map_err other m >>= f) w)
  unfolding ◌>>=◌ map_err
  Paid-other m f w n k = after_other (m w).0 (m w).1 f n λ a e. k a (m w).1 λ i. (e i, (m w).1)

  -- A block that returns for sure.
  pub Paid-runs :
      (m : Exec World AppError A) (f : A → Exec World AppError B) (w t : World) (a : A) (n : ℕ)
      → m w ≡ (ok a, t)
      → Paid n (f a t)
      → Paid n ((m >>= f) w)
  Paid-runs m f w t a n e k = rw (bind_runs m f w t a e) k
