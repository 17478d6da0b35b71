-- ===== src/Prelude/Top.antt =====
-- What `truncate` after a sort, and `LIMIT` after `ORDER BY`, leave of a list.
use mathlib.Core.Path.{◌≡◌, subst, sym, ap, ◌∙◌}
use mathlib.Core.Bool.{Bool, true, false}
use mathlib.Core.List.{List, [], ◌∷◌, ◌++◌, Perm}
use Prim.Native.Nat.{ℕ, zero, suc, min}
use vps_monitor_webui.Prelude.Lists.{All, length, take, drop, length-take, take-append-drop}
use vps_monitor_webui.Prelude.Sort.{
  sort_by, IsSorted, sort_by-perm, length-sort_by, sort_by-IsSorted,
}

module _ {A : Type 0} (before : A → A → Bool) where
  All-take : (P : A → Type 0) (n : ℕ) (l : List A) → All P l → All P (take n l)
  unfolding take
  All-take P zero l h = tt
  All-take P (suc n) [] h = tt
  All-take P (suc n) (x ∷ xs) (h, hs) = (h, All-take P n xs hs)

  All-drop : (P : A → Type 0) (n : ℕ) (l : List A) → All P l → All P (drop n l)
  unfolding drop
  All-drop P zero l h = h
  All-drop P (suc n) [] h = tt
  All-drop P (suc n) (x ∷ xs) (h, hs) = All-drop P n xs hs

  IsSorted-take : (n : ℕ) (l : List A) → IsSorted before l → IsSorted before (take n l)
  unfolding take
  IsSorted-take zero l s = tt
  IsSorted-take (suc n) [] s = tt
  IsSorted-take (suc n) (x ∷ xs) (h, s) =
      (All-take (λ y. before x y ≡ true) n xs h, IsSorted-take n xs s)

  -- Of a sorted list, what is taken may precede what is left.
  take-before-drop :
      (n : ℕ) (l : List A)
      → IsSorted before l
      → All (λ x. All (λ y. before x y ≡ true) (drop n l)) (take n l)
  unfolding take drop
  take-before-drop zero l s = tt
  take-before-drop (suc n) [] s = tt
  take-before-drop (suc n) (x ∷ xs) (h, s) =
      (All-drop (λ y. before x y ≡ true) n xs h, take-before-drop n xs s)

  -- By a transitive and total test: the list that is kept is sorted and within the limit, and with
  -- the rest it is a permutation of all, of which none of the rest has to precede one kept.
  pub take-sort_by :
      ((x y z : A) → before x y ≡ true → before y z ≡ true → before x z ≡ true)
      → ((x y : A) → before x y ≡ false → before y x ≡ true)
      → (limit : ℕ) (l : List A)
      → (rest : List A) × Perm (take limit (sort_by before l) ++ rest) l
        × IsSorted before (take limit (sort_by before l))
        × All (λ kept. All (λ left. before kept left ≡ true) rest) (take limit (sort_by before l))
        × (length (take limit (sort_by before l)) ≡ min limit (length l))
  take-sort_by trans total limit l =
      let all = sort_by before l in
      let sorted = sort_by-IsSorted before trans total l in
      (
        drop limit all,
        subst (λ k. Perm k l) (sym (take-append-drop limit all)) (sort_by-perm before l),
        IsSorted-take limit all sorted,
        take-before-drop limit all sorted,
        length-take limit all ∙ ap (min limit) (length-sort_by before l),
      )
