-- ===== src/Exec/Keeps.antt =====
-- Properties of the state that a block keeps, whether it returns or fails: one rule for each way
-- to build a block.
use mathlib.Core.Path.{◌≡◌, refl, subst}
use mathlib.Core.Bool.{Bool, true, false}
use vps_monitor_webui.Result.{Result, ok, err}
use vps_monitor_webui.Exec.{Exec, pure, fail, lift, gets, ◌>>=◌, map_err, ignore, choose}

pub record Keeps {S E A : Type 0} (P : S → Type 0) (m : Exec S E A) : Type 0 where
  pub after : (s : S) → P s → P (m s).1

module _ {S E A : Type 0} {P : S → Type 0} where
  pub Keeps-pure : (a : A) → Keeps P (pure {E = E} a)
  Keeps-pure a = record { after = λ s h. h }

  pub Keeps-fail : (e : E) → Keeps P (fail {A = A} e)
  Keeps-fail e = record { after = λ s h. h }

  pub Keeps-lift : (r : Result E A) → Keeps P (lift r)
  Keeps-lift r = record { after = λ s h. h }

  pub Keeps-gets : (f : S → A) → Keeps P (gets {E = E} f)
  Keeps-gets f = record { after = λ s h. h }

  pub Keeps-choose :
      (b : Bool) (m n : Exec S E A)
      → (b ≡ true → Keeps P m)
      → (b ≡ false → Keeps P n)
      → Keeps P (choose b m n)
  Keeps-choose true m n km kn = km refl
  Keeps-choose false m n km kn = kn refl

module _ {S E A B : Type 0} {P : S → Type 0} where
  continue-Keeps :
      (r : Result E A) (f : A → Exec S E B) → ((a : A) → Keeps P (f a)) → Keeps P (lift r >>= f)
  unfolding ◌>>=◌
  continue-Keeps (ok a) f kf = kf a
  continue-Keeps (err e) f kf = Keeps-fail e

  pub Keeps-bind :
      (m : Exec S E A) (f : A → Exec S E B)
      → Keeps P m
      → ((a : A) → Keeps P (f a))
      → Keeps P (m >>= f)
  unfolding ◌>>=◌
  Keeps-bind m f km kf = record {
    after = λ s h. let (r, s') = m s in (continue-Keeps r f kf).after s' (km.after s h);
  }

module _ {S E F A : Type 0} {P : S → Type 0} where
  pub Keeps-map_err : (g : E → F) (m : Exec S E A) → Keeps P m → Keeps P (map_err g m)
  unfolding map_err
  Keeps-map_err g m k = record { after = k.after }

  pub Keeps-ignore : (m : Exec S E A) → Keeps P m → Keeps P (ignore {F = F} m)
  unfolding ignore
  Keeps-ignore m k = record { after = k.after }

-- A kept property holds of the state that a run ended in.
pub Keeps-ends :
    {S E A : Type 0} {P : S → Type 0} {m : Exec S E A} {s t : S} {r : Result E A}
    → Keeps P m
    → m s ≡ (r, t)
    → P s
    → P t
Keeps-ends {P} {s} k e h = subst P (λ i. (e i).1) (k.after s h)

pub ruleset keeps_rules = (
  Keeps-pure, Keeps-fail, Keeps-lift, Keeps-gets, Keeps-choose, Keeps-bind, Keeps-map_err,
  Keeps-ignore,
)
