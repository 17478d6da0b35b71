-- ===== src/Regex/Laws.antt =====
-- The matcher decides the relation.
use Prim.Native.String.{[], ◌∷◌, ◌++◌}
use text.Mathlib.TextLemmas.{
  nil-append, cons-append, head-eq_of_cons-eq, tail-eq_of_cons-eq, cons≢nil, nil≢cons,
  append-eq-nil_iff,
}
use vps_monitor_webui.Prelude.{
  String, Char, true, false, ◌≡◌, refl, sym, ap, ◌∙◌, subst, ◌↔◌, arith, Bool-cases, inl, inr, ◌⊎◌,
  if◌then◌else◌,
}
use vps_monitor_webui.Regex.{
  Regex, never, empty, class, seq, alt, star, Matches, on_empty, on_class, on_seq, on_left,
  on_right, on_none, on_more, nullable, deriv, is_match,
}

nullable_sound : (r : Regex) → nullable r ≡ true → Matches r []
unfolding nullable
nullable_sound never h = absurd (ground arith)
nullable_sound empty h = on_empty
nullable_sound (class p) h = absurd (ground arith)
nullable_sound (seq r q) h =
    on_seq [] [] (sym (nil-append [])) (nullable_sound r (ground arith))
      (nullable_sound q (ground arith))
nullable_sound (alt r q) h = elim (Bool-cases (nullable r)) [
  | inl e ↦ on_left (nullable_sound r e)
  | inr e ↦ on_right (nullable_sound q (ground arith))
]
nullable_sound (star r) h = on_none

nullable_complete : {r : Regex} {s : String} → Matches r s → s ≡ [] → nullable r ≡ true
unfolding nullable
nullable_complete on_empty e = refl
nullable_complete (on_class h) e = absurd (cons≢nil e)
nullable_complete (on_seq a b split m n) e =
    let parts = append-eq-nil_iff.0 (sym split ∙ e) in
    ground (arith, nullable_complete m parts.0, nullable_complete n parts.1)
nullable_complete (on_left m) e = ground (arith, nullable_complete m e)
nullable_complete (on_right m) e = ground (arith, nullable_complete m e)
nullable_complete on_none e = refl
nullable_complete (on_more c a b split m n) e = refl

never_matches : {A : Type 0} {s : String} → Matches never s → A
never_matches m = elim m [ ]

-- A match of a sequence, taken apart.
pub record Seq (r q : Regex) (s : String) : Type 0 where
  pub front : String
  pub back : String
  pub split : s ≡ front ++ back
  pub first : Matches r front
  pub second : Matches q back

pub seq_parts : {r q : Regex} {s : String} → Matches (seq r q) s → Seq r q s
seq_parts (on_seq a b split m n) = record {
  front = a;
  back = b;
  split = split;
  first = m;
  second = n;
}

pub alt_parts : {r q : Regex} {s : String} → Matches (alt r q) s → Matches r s ⊎ Matches q s
alt_parts (on_left m) = inl m
alt_parts (on_right m) = inr m

pub empty_parts : {s : String} → Matches empty s → s ≡ []
empty_parts on_empty = refl

longer : (c : Char) (a b s : String) → s ≡ a ++ b → c ∷ s ≡ (c ∷ a) ++ b
longer c a b s e = ap (λ t. c ∷ t) e ∙ sym (cons-append c a b)

-- What the derivative matches, the pattern matches behind the character.
deriv_sound : (c : Char) (r : Regex) (s : String) → Matches (deriv c r) s → Matches r (c ∷ s)
unfolding deriv
deriv_sound c never s m = elim m [ ]
deriv_sound c empty s m = elim m [ ]
deriv_sound c (class p) s m = class_case (Bool-cases (p c)) m
  where
    class_case :
        (p c ≡ true) ⊎ (p c ≡ false)
        → Matches (if p c then empty else never) s
        → Matches (class p) (c ∷ s)
    class_case (inl e) m =
        subst (λ t. Matches (class p) (c ∷ t)) (sym (empty_parts (rw e at m))) (on_class e)
    class_case (inr e) m = never_matches (rw e at m)
deriv_sound c (seq r q) s m = elim (Bool-cases (nullable r)) [
  | inr e ↦
      let p = seq_parts (rw e at m) in
      on_seq (c ∷ p.front) p.back (longer c p.front p.back s p.split)
        (deriv_sound c r p.front p.first) p.second
  | inl e ↦ elim (alt_parts (rw e at m)) [
    | inl l ↦
        let p = seq_parts l in
        on_seq (c ∷ p.front) p.back (longer c p.front p.back s p.split)
          (deriv_sound c r p.front p.first) p.second
    | inr l ↦
        on_seq [] (c ∷ s) (sym (nil-append (c ∷ s))) (nullable_sound r e) (deriv_sound c q s l)
  ]
]
deriv_sound c (alt r q) s m = elim (alt_parts m) [
  | inl l ↦ on_left (deriv_sound c r s l)
  | inr l ↦ on_right (deriv_sound c q s l)
]
deriv_sound c (star r) s m =
    let p = seq_parts m in
    on_more c p.front p.back (ap (λ t. c ∷ t) p.split) (deriv_sound c r p.front p.first) p.second

-- One step of a sequence, by where its first part ends.
seq_step :
    (c : Char) (r q : Regex) (a b t : String)
    → a ++ b ≡ c ∷ t
    → Matches r a
    → Matches q b
    → ((u : String) → a ≡ c ∷ u → Matches (deriv c r) u)
    → ((u : String) → b ≡ c ∷ u → Matches (deriv c q) u)
    → Matches (deriv c (seq r q)) t
unfolding deriv
seq_step c r q [] b t e m n first second =
    rw (nullable_complete m refl) (on_right (second t (sym (nil-append b) ∙ e)))
seq_step c r q (d ∷ a) b t e m n first second =
    let both = sym (cons-append d a b) ∙ e in
    let here = first a (ap (λ x. x ∷ a) (head-eq_of_cons-eq both)) in
    let whole = on_seq a b (sym (tail-eq_of_cons-eq both)) here n in
    elim (Bool-cases (nullable r)) [ inl f ↦ rw f (on_left whole) | inr f ↦ rw f whole ]

deriv_complete :
    (c : Char) {r : Regex} {s : String}
    → Matches r s
    → (t : String) → s ≡ c ∷ t
    → Matches (deriv c r) t
unfolding deriv
deriv_complete c on_empty t e = absurd (nil≢cons e)
deriv_complete c (on_class {p} {c = d} h) t e =
    let same : p c ≡ true = ap p (sym (head-eq_of_cons-eq e)) ∙ h in
    rw (same, ← tail-eq_of_cons-eq e) on_empty
deriv_complete c (on_seq {r} {q} a b split m n) t e =
    seq_step c r q a b t (sym split ∙ e) m n (deriv_complete c m) (deriv_complete c n)
deriv_complete c (on_left m) t e = on_left (deriv_complete c m t e)
deriv_complete c (on_right m) t e = on_right (deriv_complete c m t e)
deriv_complete c on_none t e = absurd (nil≢cons e)
deriv_complete c (on_more d a b split m n) t e =
    let both = sym split ∙ e in
    on_seq a b (sym (tail-eq_of_cons-eq both))
      (deriv_complete c m a (ap (λ x. x ∷ a) (head-eq_of_cons-eq both))) n

is_match_sound : (r : Regex) (s : String) → is_match r s ≡ true → Matches r s
unfolding is_match
is_match_sound r [] h = nullable_sound r h
is_match_sound r (c ∷ s) h = deriv_sound c r s (is_match_sound (deriv c r) s h)

is_match_complete : (r : Regex) (s : String) → Matches r s → is_match r s ≡ true
unfolding is_match
is_match_complete r [] m = nullable_complete m refl
is_match_complete r (c ∷ s) m = is_match_complete (deriv c r) s (deriv_complete c m s refl)

-- The matcher answers true exactly for the texts that the pattern matches.
pub is_match_iff : (r : Regex) (s : String) → (is_match r s ≡ true) ↔ Matches r s
is_match_iff r s = (is_match_sound r s, is_match_complete r s)
