-- ===== src/Prelude/In.antt =====
-- Elements of a list, by their places.
use mathlib.Core.Path.{◌≡◌, refl, ap, ◌∙◌, subst}
use mathlib.Core.Logic.{◌⊎◌, inl, inr, ◌↔◌}
use mathlib.Core.Bool.{Bool, true}
use mathlib.Core.List.{List, [], ◌∷◌, ◌++◌, map}
use vps_monitor_webui.Prelude.Tests.{Bool-cases, if◌then◌else◌}
use vps_monitor_webui.Prelude.Lists.{retain}

-- An element of a list, by its place.
pub data In {A : Type 0} (a : A) : List A → Type 0 where
  head : {l : List A} → In a (a ∷ l)
  later : {b : A} {l : List A} → In a l → In a (b ∷ l)

-- The first of a list, or one of the rest.
abbrev pub Place : {A : Type 0} → A → List A → Type 0
Place a [] = ⊥
Place a (x ∷ l) = (a ≡ x) ⊎ In a l

pub place : {A : Type 0} {a : A} {l : List A} → In a l → Place a l
place head = inl refl
place (later i) = inr i

there :
    {A : Type 0} (p : A → Bool) (a : A) (l : List A) → In a (retain p l) → (In a l) × (p a ≡ true)
unfolding retain
there p a [] h = absurd (place h)
there p a (x ∷ l) h = elim (Bool-cases (p x)) [
  | inr e ↦ let r = there p a l (rw e at h) in (later r.0, r.1)
  | inl e ↦
      elim (place (subst (λ (b : Bool). In a (if b then x ∷ retain p l else retain p l)) e h)) [
        | inl same ↦ (subst (λ y. In a (y ∷ l)) same head, ap p same ∙ e)
        | inr i ↦ let r = there p a l i in (later r.0, r.1)
      ]
]

stays : {A : Type 0} (p : A → Bool) (a : A) (l : List A) → In a l → p a ≡ true → In a (retain p l)
unfolding retain
stays p a _ head h = rw h head
stays p a _ (later {b} {l} i) h = elim (Bool-cases (p b)) [
  | inl e ↦ rw e (later (stays p a l i h))
  | inr e ↦ rw e (stays p a l i h)
]

pub In-retain :
    {A : Type 0} (p : A → Bool) (a : A) (l : List A) → In a (retain p l) ↔ ((In a l) × (p a ≡ true))
In-retain p a l = (there p a l, λ h. stays p a l h.0 h.1)

pub In-append-left : {A : Type 0} (a : A) (l k : List A) → In a l → In a (l ++ k)
In-append-left a _ k head = head
In-append-left a _ k (later {l = l} i) = later (In-append-left a l k i)

pub In-append-right : {A : Type 0} (a : A) (l k : List A) → In a k → In a (l ++ k)
In-append-right a [] k i = i
In-append-right a (x ∷ l) k i = later (In-append-right a l k i)

pub In-map : {A B : Type 0} (f : A → B) (a : A) (l : List A) → In a l → In (f a) (map f l)
In-map f a _ head = head
In-map f a _ (later {l = l} i) = later (In-map f a l i)
