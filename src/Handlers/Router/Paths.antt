-- ===== src/Handlers/Router/Paths.antt =====
-- src/handlers/mod.rs: paths as segments, and the path of a route with its captures filled in.
use Prim.Native.String.{[], ◌∷◌, ◌++◌}
use mathlib.Core.List.{[] as nil, ◌∷◌ as cons}
use text.Mathlib.TextEquality.{Char-path}
use text.Mathlib.TextLemmas.{nil-append, cons-append}
use vps_monitor_webui.Prelude.{
  String, Char, code, false, nat_eq, nat_eq_iff, ◌≡◌, refl, sym, ap, ◌∙◌, List, Bool-cases, inl,
  inr, Each, All,
}
use vps_monitor_webui.Handlers.Router.{split_slashes, onto_first, segments}

abbrev pub slash : Char
slash = "/"

-- The segments with slashes between them.
abbrev pub join_slashes : List String → String
join_slashes nil = ""
join_slashes (cons s nil) = s
join_slashes (cons s (cons t rest)) = s ++ (slash ∷ join_slashes (cons t rest))

abbrev pub IsSlashless : String → Type 0
IsSlashless s = Each (λ c. nat_eq (code c) b'/' ≡ false) s

split-slashless : (s : String) → IsSlashless s → split_slashes s ≡ cons s nil
unfolding split_slashes
split-slashless [] h = refl
split-slashless (c ∷ s) (h, hs) = rw (h, split-slashless s hs) refl

split-append :
    (s t : String) → IsSlashless s → split_slashes (s ++ (slash ∷ t)) ≡ cons s (split_slashes t)
unfolding split_slashes
split-append [] t h = rw (nil-append (slash ∷ t)) refl
split-append (c ∷ s) t (h, hs) = rw (cons-append c s (slash ∷ t)) (rw (h, split-append s t hs) refl)

pub split-join :
    (s : String) (rest : List String)
    → All IsSlashless (cons s rest)
    → split_slashes (join_slashes (cons s rest)) ≡ cons s rest
split-join s nil h = split-slashless s h.0
split-join s (cons t rest) h =
    split-append s (join_slashes (cons t rest)) h.0 ∙ ap (cons s) (split-join t rest h.1)

-- A text has a first part.
record Segmented (s : String) : Type 0 where
  first : String
  others : List String
  split : split_slashes s ≡ cons first others

parts : (s : String) → Segmented s
unfolding split_slashes
parts [] = record { first = ""; others = nil; split = refl }
parts (c ∷ s) = elim (Bool-cases (nat_eq (code c) b'/')) [
  | inl e ↦ record { first = ""; others = split_slashes s; split = rw e refl }
  | inr e ↦
      let p = parts s in
      record { first = c ∷ p.first; others = p.others; split = rw e (rw p.split refl) }
]

join-onto_first :
    (c : Char) (s : String) (rest : List String)
    → join_slashes (onto_first c (cons s rest)) ≡ c ∷ join_slashes (cons s rest)
join-onto_first c s nil = refl
join-onto_first c s (cons t rest) = cons-append c s (slash ∷ join_slashes (cons t rest))

pub join-split : (s : String) → join_slashes (split_slashes s) ≡ s
unfolding split_slashes
join-split [] = refl
join-split (c ∷ s) =
    let p = parts s in
    elim (Bool-cases (nat_eq (code c) b'/')) [
      | inl e ↦ rw e (
          ap (λ l. join_slashes (cons "" l)) p.split
          ∙ nil-append (slash ∷ join_slashes (cons p.first p.others))
          ∙ ap (λ l. slash ∷ join_slashes l) (sym p.split)
          ∙ ap (λ t. slash ∷ t) (join-split s)
          ∙ ap (λ d. d ∷ s) (Char-path slash c (sym ((nat_eq_iff (code c) b'/').0 e))))
      | inr e ↦ rw e (
          ap (λ l. join_slashes (onto_first c l)) p.split
          ∙ join-onto_first c p.first p.others
          ∙ ap (λ l. c ∷ join_slashes l) (sym p.split)
          ∙ ap (λ t. c ∷ t) (join-split s))
    ]

All-onto_first :
    (c : Char) (l : List String)
    → nat_eq (code c) b'/' ≡ false
    → All IsSlashless l
    → All IsSlashless (onto_first c l)
All-onto_first c nil h k = ((h, tt), tt)
All-onto_first c (cons s rest) h k = ((h, k.0), k.1)

pub split-IsSlashless : (s : String) → All IsSlashless (split_slashes s)
unfolding split_slashes
split-IsSlashless [] = (tt, tt)
split-IsSlashless (c ∷ s) = elim (Bool-cases (nat_eq (code c) b'/')) [
  | inl e ↦ rw e (tt, split-IsSlashless s)
  | inr e ↦ rw e (All-onto_first c (split_slashes s) e (split-IsSlashless s))
]

pub segments-IsSlashless : (s : String) → All IsSlashless (segments s)
unfolding segments
segments-IsSlashless [] = tt
segments-IsSlashless (c ∷ s) = split-IsSlashless s
