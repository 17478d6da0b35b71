-- ===== src/Exec.antt =====
-- Code that reads and writes a state and may fail with `?`. What was written before a failure
-- stays written, so the state comes back beside the error too.
pub mod Keeps
pub mod Inversion
pub mod Atomic
use mathlib.Core.Bool.{Bool, true, false}
use vps_monitor_webui.Result.{Result, ok, err}

abbrev pub Exec {ℓ} : Type ℓ → Type ℓ → Type ℓ → Type ℓ
Exec S E A = S → Result E A × S

module _ {ℓ} {S E A : Type ℓ} where
  abbrev pub pure : A → Exec S E A
  pure a s = (ok a, s)

  -- return Err(e)
  abbrev pub fail : E → Exec S E A
  fail e s = (err e, s)

  -- A `Result` that was computed without the state, under `?`.
  abbrev pub lift : Result E A → Exec S E A
  lift r s = (r, s)

  -- The state, as it is.
  abbrev pub gets : (S → A) → Exec S E A
  gets f s = (ok (f s), s)

module _ {ℓ} {S E A B : Type ℓ} where
  abbrev pub continue : Result E A → (A → Exec S E B) → Exec S E B
  continue (ok a) f s = f a s
  continue (err e) f s = (err e, s)

  infixl 10 ◌>>=◌ ◌>>◌
  unfoldable pub ◌>>=◌ : Exec S E A → (A → Exec S E B) → Exec S E B
  ◌>>=◌ m f s = let (r, s') = m s in continue r f s'

  abbrev pub ◌>>◌ : Exec S E A → Exec S E B → Exec S E B
  m >> n = m >>= λ _. n

abbrev pub recast {ℓ} : {E F A : Type ℓ} → (E → F) → Result E A → Result F A
recast g (ok a) = ok a
recast g (err e) = err (g e)

module _ {ℓ} {S E F A : Type ℓ} where
  -- .map_err(g)?
  unfoldable pub map_err : (E → F) → Exec S E A → Exec S F A
  map_err g m s = let (r, s') = m s in (recast g r, s')

module _ {S E F A : Type 0} where
  -- let _ = m; the result is dropped, the writes stay
  unfoldable pub ignore : Exec S E A → Exec S F (Unit {0})
  ignore m s = let (r, s') = m s in (ok tt, s')

module _ {ℓ} {S E A : Type ℓ} where
  -- One of two blocks, by a test.
  abbrev pub choose : Bool → Exec S E A → Exec S E A → Exec S E A
  choose true m n = m
  choose false m n = n
