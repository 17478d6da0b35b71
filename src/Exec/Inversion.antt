-- ===== src/Exec/Inversion.antt =====
-- What a block did, from the fact that it returned.
use mathlib.Core.Path.{◌≡◌, refl}
use mathlib.Core.Logic.{◌⊎◌, inl, inr}
use mathlib.Core.Bool.{Bool, true, false}
use native.Mathlib.Omega.{arith}
use vps_monitor_webui.Result.{Result, ok, err}
use vps_monitor_webui.Exec.{Exec, fail, choose, continue, recast, ◌>>=◌, map_err}

module _ {ℓ} {S E A B : Type ℓ} where
  -- The two parts of a block that returned, with the state between them.
  pub record Bound (m : Exec S E A) (f : A → Exec S E B) (s : S) (b : B) (t : S) : Type ℓ where
    pub value : A
    pub middle : S
    pub first : m s ≡ (ok value, middle)
    pub second : f value middle ≡ (ok b, t)

  continue_inv :
      (m : Exec S E A) (f : A → Exec S E B) (s : S) (b : B) (t : S) (r : Result E A) (s' : S)
      → m s ≡ (r, s')
      → continue r f s' ≡ (ok b, t)
      → Bound m f s b t
  continue_inv m f s b t (ok a) s' e h = record { value = a; middle = s'; first = e; second = h }
  continue_inv m f s b t (err x) s' e h = ground arith

  pub bind_inv :
      (m : Exec S E A) (f : A → Exec S E B) (s : S) (b : B) (t : S)
      → (m >>= f) s ≡ (ok b, t)
      → Bound m f s b t
  unfolding ◌>>=◌
  bind_inv m f s b t h = continue_inv m f s b t (m s).0 (m s).1 refl h

module _ {ℓ} {S E F A : Type ℓ} where
  pub map_err_inv :
      (g : E → F) (m : Exec S E A) (s : S) (a : A) (t : S)
      → map_err g m s ≡ (ok a, t)
      → m s ≡ (ok a, t)
  unfolding map_err
  map_err_inv g m s a t h = ground arith

module _ {ℓ κ} {S E A B : Type ℓ} where
  cases_at :
      (m : Exec S E A) (f : A → Exec S E B) (s : S) (Q : Result E B × S → Type κ)
      → ((a : A) (t : S) → m s ≡ (ok a, t) → Q (f a t))
      → ((e : E) (t : S) → m s ≡ (err e, t) → Q (err e, t))
      → (r : Result E A) (t : S) → m s ≡ (r, t)
      → Q (continue r f t)
  cases_at m f s Q on_ok on_err (ok a) t h = on_ok a t h
  cases_at m f s Q on_ok on_err (err e) t h = on_err e t h

  -- What holds of a block, from what holds after its first part returns and after it fails.
  pub bind_cases :
      (m : Exec S E A) (f : A → Exec S E B) (s : S) (Q : Result E B × S → Type κ)
      → ((a : A) (t : S) → m s ≡ (ok a, t) → Q (f a t))
      → ((e : E) (t : S) → m s ≡ (err e, t) → Q (err e, t))
      → Q ((m >>= f) s)
  unfolding ◌>>=◌
  bind_cases m f s Q on_ok on_err = cases_at m f s Q on_ok on_err (m s).0 (m s).1 refl

module _ {ℓ} {S E A : Type ℓ} where
  -- Which block a test chose.
  pub choose_inv :
      (c : Bool) (m n : Exec S E A) (s t : S) (r : Result E A)
      → choose c m n s ≡ (r, t)
      → ((c ≡ true) × (m s ≡ (r, t))) ⊎ ((c ≡ false) × (n s ≡ (r, t)))
  choose_inv true m n s t r h = inl (refl, h)
  choose_inv false m n s t r h = inr (refl, h)

-- A block that ends in a failure never returns.
pub then_fail {ℓ} :
    {S E A B : Type ℓ} (m : Exec S E A) (e : E) (s t : S) (b : B)
    → (m >>= λ _. fail e) s ≡ (ok b, t)
    → ⊥
then_fail m e s t b h = let p = bind_inv m _ s b t h in ground (arith, p.second)

-- Forward: what a block does, from what its first part did.
pub bind_runs {ℓ} :
    {S E A B : Type ℓ} (m : Exec S E A) (f : A → Exec S E B) (s t : S) (a : A)
    → m s ≡ (ok a, t)
    → (m >>= f) s ≡ f a t
unfolding ◌>>=◌
bind_runs m f s t a h = λ i. continue (h i).0 f (h i).1

pub bind_stops {ℓ} :
    {S E A B : Type ℓ} (m : Exec S E A) (f : A → Exec S E B) (s t : S) (e : E)
    → m s ≡ (err e, t)
    → (m >>= f) s ≡ (err e, t)
unfolding ◌>>=◌
bind_stops m f s t e h = λ i. continue (h i).0 f (h i).1

pub map_err_runs {ℓ} :
    {S E F A : Type ℓ} (g : E → F) (m : Exec S E A) (s t : S) (a : A)
    → m s ≡ (ok a, t)
    → map_err g m s ≡ (ok a, t)
unfolding map_err
map_err_runs g m s t a h = λ i. (recast g (h i).0, (h i).1)
