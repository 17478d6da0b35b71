-- ===== src/Prelude/Sort.antt =====
-- `slice::sort_by` and `ORDER BY`: a stable sort, by a test `before x y` that says that `x` may
-- stand in front of `y`.
use Prim.Native.Nat.{suc}
use native.Mathlib.Omega.{arith}
use mathlib.Core.Path.{◌≡◌, refl, ap, ◌∙◌}
use mathlib.Core.Bool.{Bool, true, false}
use mathlib.Core.Logic.{inl, inr}
use mathlib.Core.List.{List, [], ◌∷◌, Perm}
use mathlib.Core.List.Perm
use vps_monitor_webui.Prelude.Tests.{if◌then◌else◌, Bool-cases}
use vps_monitor_webui.Prelude.Lists.{All, length}

module _ {A : Type 0} (before : A → A → Bool) where
  -- `x` goes in front of the first element that it may precede: equal ones stay behind it.
  insert : A → List A → List A
  insert x [] = x ∷ []
  insert x (y ∷ ys) = if before x y then x ∷ y ∷ ys else y ∷ insert x ys

  unfoldable pub sort_by : List A → List A
  unfolding insert
  sort_by [] = []
  sort_by (x ∷ xs) = insert x (sort_by xs)

  -- Each element may precede all that follow it.
  abbrev pub IsSorted : List A → Type 0
  IsSorted [] = Unit
  IsSorted (x ∷ xs) = All (λ y. before x y ≡ true) xs × IsSorted xs

  insert-perm : (x : A) (l : List A) → Perm (insert x l) (x ∷ l)
  unfolding insert
  insert-perm x [] = Perm.refl (x ∷ [])
  insert-perm x (y ∷ ys) = elim (Bool-cases (before x y)) [
    | inl p ↦ rw p (Perm.refl (x ∷ y ∷ ys))
    | inr p ↦ rw p (Perm.trans (Perm.cons y (insert-perm x ys)) (Perm.swap x y ys))
  ]

  length-insert : (x : A) (l : List A) → length (insert x l) ≡ suc (length l)
  unfolding insert
  length-insert x [] = refl
  length-insert x (y ∷ ys) = ground (arith, length-insert x ys)

  pub length-sort_by : (l : List A) → length (sort_by l) ≡ length l
  unfolding sort_by
  length-sort_by [] = refl
  length-sort_by (x ∷ xs) = length-insert x (sort_by xs) ∙ ap suc (length-sort_by xs)

  -- Sorting only reorders.
  pub sort_by-perm : (l : List A) → Perm (sort_by l) l
  unfolding sort_by
  sort_by-perm [] = Perm.refl []
  sort_by-perm (x ∷ xs) = Perm.trans (insert-perm x (sort_by xs)) (Perm.cons x (sort_by-perm xs))

  module _ (trans : (x y z : A) → before x y ≡ true → before y z ≡ true → before x z ≡ true)
      (total : (x y : A) → before x y ≡ false → before y x ≡ true) where
    All-before :
        (x y : A) (l : List A)
        → before x y ≡ true
        → All (λ z. before y z ≡ true) l
        → All (λ z. before x z ≡ true) l
    All-before x y [] h a = tt
    All-before x y (z ∷ l) h (p, a) = (trans x y z h p, All-before x y l h a)

    All-insert : (P : A → Type 0) (x : A) (l : List A) → P x → All P l → All P (insert x l)
    unfolding insert
    All-insert P x [] h a = (h, tt)
    All-insert P x (y ∷ ys) h (p, a) = elim (Bool-cases (before x y)) [
      | inl e ↦ rw e (h, (p, a))
      | inr e ↦ rw e (p, All-insert P x ys h a)
    ]

    insert-IsSorted : (x : A) (l : List A) → IsSorted l → IsSorted (insert x l)
    unfolding insert
    insert-IsSorted x [] s = (tt, tt)
    insert-IsSorted x (y ∷ ys) (a, s) = elim (Bool-cases (before x y)) [
      | inl e ↦ rw e ((e, All-before x y ys e a), (a, s))
      | inr e ↦
          rw e (All-insert (λ z. before y z ≡ true) x ys (total x y e) a, insert-IsSorted x ys s)
    ]

    -- By a total and transitive test the result is sorted.
    pub sort_by-IsSorted : (l : List A) → IsSorted (sort_by l)
    unfolding sort_by
    sort_by-IsSorted [] = tt
    sort_by-IsSorted (x ∷ xs) = insert-IsSorted x (sort_by xs) (sort_by-IsSorted xs)
