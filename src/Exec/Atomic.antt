-- ===== src/Exec/Atomic.antt =====
-- Blocks that leave a property of the state alone when they fail, although they may break it when
-- they return.
use mathlib.Core.Path.{◌≡◌, subst, ap, ◌∙◌}
use mathlib.Core.Bool.{Bool, true, false}
use native.Mathlib.Omega.{arith}
use vps_monitor_webui.Result.{Result, ok, err}
use vps_monitor_webui.Exec.{Exec, pure, choose, ◌>>=◌, map_err, recast, ignore}
use vps_monitor_webui.Exec.Keeps.{Keeps}
use vps_monitor_webui.Exec.Inversion.{bind_cases}

pub record FailsSafe {S E A : Type 0} (P : S → Type 0) (m : Exec S E A) : Type 0 where
  pub after : (s t : S) (e : E) → P s → m s ≡ (err e, t) → P t

-- A block that always returns.
pub record Returns {S E A : Type 0} (m : Exec S E A) : Type 0 where
  pub never : (s t : S) (e : E) → m s ≡ (err e, t) → ⊥

module _ {S E A : Type 0} where
  pub FailsSafe-of_Keeps : {P : S → Type 0} (m : Exec S E A) → Keeps P m → FailsSafe P m
  FailsSafe-of_Keeps {P} m k = record { after = λ s t e h f. subst P (λ i. (f i).1) (k.after s h) }

  pub FailsSafe-choose :
      {P : S → Type 0} (b : Bool) (m n : Exec S E A)
      → FailsSafe P m
      → FailsSafe P n
      → FailsSafe P (choose b m n)
  FailsSafe-choose true m n km kn = km
  FailsSafe-choose false m n km kn = kn

  pub Returns-pure : (a : A) → Returns (pure {S = S} {E = E} a)
  Returns-pure a = record { never = λ s t e f. ground arith }

pub Returns-ignore : {S E F A : Type 0} (m : Exec S E A) → Returns (ignore {F = F} m)
unfolding ignore
Returns-ignore m = record { never = λ s t e f. ground arith }

recast_failed :
    {S E F A : Type 0} (g : E → F) (r : Result E A) (u t : S) (e : F)
    → ◌≡◌ {A = Result F A × S} (recast g r, u) (err e, t)
    → (x : E) × (◌≡◌ {A = Result E A × S} (r, u) (err x, t))
recast_failed g (ok a) u t e f = absurd (ground arith)
recast_failed g (err x) u t e f = (x, ground arith)

map_err_failed :
    {S E F A : Type 0} (g : E → F) (m : Exec S E A) (s : S) (e : F) (t : S)
    → map_err g m s ≡ (err e, t)
    → (x : E) × (m s ≡ (err x, t))
unfolding map_err
map_err_failed g m s e t f = recast_failed g (m s).0 (m s).1 t e f

pub FailsSafe-map_err :
    {S E F A : Type 0} {P : S → Type 0} (g : E → F) (m : Exec S E A)
    → FailsSafe P m
    → FailsSafe P (map_err g m)
FailsSafe-map_err g m k = record {
  after = λ s t e h f. let p = map_err_failed g m s e t f in k.after s t p.0 h p.1;
}

module _ {S E A B : Type 0} {P : S → Type 0} where
  -- The first part keeps the property, and the rest fails safely.
  pub FailsSafe-bind :
      (m : Exec S E A) (f : A → Exec S E B)
      → Keeps P m
      → ((a : A) → FailsSafe P (f a))
      → FailsSafe P (m >>= f)
  FailsSafe-bind m f k kf = record {
    after = λ s t e h.
        bind_cases m f s (λ r. r ≡ (err e, t) → P t)
          (λ a u first second. (kf a).after u t e (subst P (λ i. (first i).1) (k.after s h)) second)
          (λ x u first same. subst P (ap (λ p. p.1) first ∙ ap (λ p. p.1) same) (k.after s h));
  }

  -- The first part fails safely, and once it has returned nothing fails.
  pub FailsSafe-last :
      (m : Exec S E A) (f : A → Exec S E B)
      → FailsSafe P m
      → ((a : A) → Returns (f a))
      → FailsSafe P (m >>= f)
  FailsSafe-last m f k rf = record {
    after = λ s t e h.
        bind_cases m f s (λ r. r ≡ (err e, t) → P t)
          (λ a u first second. absurd ((rf a).never u t e second))
          (λ x u first same. k.after s t x h (first ∙ λ i. (err x, (same i).1)));
  }

module _ {S E A B : Type 0} where
  pub Returns-bind :
      (m : Exec S E A) (f : A → Exec S E B)
      → Returns m
      → ((a : A) → Returns (f a))
      → Returns (m >>= f)
  Returns-bind m f rm rf = record {
    never = λ s t e.
        bind_cases m f s (λ r. r ≡ (err e, t) → ⊥) (λ a u first second. (rf a).never u t e second)
          (λ x u first same. rm.never s u x first);
  }
