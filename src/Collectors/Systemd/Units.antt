-- ===== src/Collectors/Systemd/Units.antt =====
-- src/collectors/systemd.rs, `validate_unit`: the names that the pattern lets through.
use Prim.Native.String.{[], ◌∷◌, ◌++◌}
use text.Mathlib.TextLemmas.{nil-append, cons-append, append-eq-nil_iff}
use text.Mathlib.TextEquality.{Char-path}
use vps_monitor_webui.Prelude.{
  Each, ◌≤◌, refl, sym, ap, ◌∙◌, subst, ◌↔◌, inl, inr, String, code, utf8_len, true, ◌≡◌, ◌≢◌,
  eq_iff, arith, nat_eq_iff, nat_eq_self,
}
use vps_monitor_webui.Regex.{literal, Matches, on_empty, on_class, on_seq, on_left, on_right}
use vps_monitor_webui.Regex.Classes.{class_parts, plus_class_to, plus_class_from}
use vps_monitor_webui.Regex.Laws.{seq_parts, alt_parts, empty_parts, is_match_iff}
use vps_monitor_webui.Collectors.Systemd.{unit_char, unit_types, unit_re, validate_unit}

literal_to : (t s : String) → Matches (literal t) s → s ≡ t
literal_to [] s m = empty_parts m
literal_to (c ∷ t) s m =
    let q = seq_parts m in
    let one = class_parts q.first in
    let same : one.0 ≡ c = Char-path one.0 c ((nat_eq_iff (code one.0) (code c)).0 one.2) in
    q.split
    ∙ ap (λ x. x ++ q.back) one.1
    ∙ cons-append one.0 [] q.back
    ∙ ap (λ x. one.0 ∷ x) (nil-append q.back ∙ literal_to t q.back q.second)
    ∙ ap (λ x. x ∷ t) same

literal_from : (t : String) → Matches (literal t) t
literal_from [] = on_empty
literal_from (c ∷ t) =
    on_seq (c ∷ []) t (sym (cons-append c [] t ∙ ap (λ x. c ∷ x) (nil-append t)))
      (on_class (nat_eq_self (code c))) (literal_from t)

-- The six types of units that are let through.
pub data IsUnitType : String → Type 0 where
  service : IsUnitType "service"
  socket : IsUnitType "socket"
  target : IsUnitType "target"
  timer : IsUnitType "timer"
  mount : IsUnitType "mount"
  path : IsUnitType "path"

unit_types_to : (s : String) → Matches unit_types s → IsUnitType s
unit_types_to s m = elim (alt_parts m) [
  | inl a ↦ subst IsUnitType (sym (literal_to "service" s a)) service
  | inr m1 ↦ elim (alt_parts m1) [
    | inl a ↦ subst IsUnitType (sym (literal_to "socket" s a)) socket
    | inr m2 ↦ elim (alt_parts m2) [
      | inl a ↦ subst IsUnitType (sym (literal_to "target" s a)) target
      | inr m3 ↦ elim (alt_parts m3) [
        | inl a ↦ subst IsUnitType (sym (literal_to "timer" s a)) timer
        | inr m4 ↦ elim (alt_parts m4) [
          | inl a ↦ subst IsUnitType (sym (literal_to "mount" s a)) mount
          | inr a ↦ subst IsUnitType (sym (literal_to "path" s a)) path
        ]
      ]
    ]
  ]
]

unit_types_from : {s : String} → IsUnitType s → Matches unit_types s
unit_types_from service = on_left (literal_from "service")
unit_types_from socket = on_right (on_left (literal_from "socket"))
unit_types_from target = on_right (on_right (on_left (literal_from "target")))
unit_types_from timer = on_right (on_right (on_right (on_left (literal_from "timer"))))
unit_types_from mount = on_right (on_right (on_right (on_right (on_left (literal_from "mount")))))
unit_types_from path = on_right (on_right (on_right (on_right (on_right (literal_from "path")))))

-- A name: a stem of allowed characters, a dot and a type.
pub record IsUnitName (name : String) : Type 0 where
  pub stem : String
  pub kind : String
  pub split : name ≡ stem ++ ("." ++ kind)
  pub stem_given : stem ≢ ""
  pub stem_chars : Each (λ c. unit_char c ≡ true) stem
  pub its_type : IsUnitType kind

unit_re_to : (name : String) → Matches unit_re name → IsUnitName name
unit_re_to name m =
    let q = seq_parts m in
    let r = seq_parts q.second in
    let chars = plus_class_to unit_char q.front q.first in
    record {
      stem = q.front;
      kind = r.back;
      split =
          q.split
          ∙ ap (λ t. q.front ++ t)
              (r.split ∙ ap (λ t. t ++ r.back) (literal_to "." r.front r.first));
      stem_given = chars.0;
      stem_chars = chars.1;
      its_type = unit_types_to r.back r.second;
    }

unit_re_from : (name : String) → IsUnitName name → Matches unit_re name
unit_re_from name u =
    on_seq u.stem ("." ++ u.kind) u.split
      (plus_class_from unit_char u.stem u.stem_given u.stem_chars)
      (on_seq "." u.kind refl (literal_from ".") (unit_types_from u.its_type))

-- `validate_unit` accepts exactly the names of at most 256 bytes that are a non-empty stem of ASCII
-- letters, digits and `@:._-`, a dot, and one of the six types.
pub validate_unit_iff :
    (name : String) → (validate_unit name ≡ true) ↔ ((utf8_len name ≤ 256) × IsUnitName name)
unfolding validate_unit
validate_unit_iff name = (
  λ h. (ground arith, unit_re_to name ((is_match_iff unit_re name).0 (ground arith))),
  λ (short, u).
      let given : name ≢ "" = λ e. u.stem_given (append-eq-nil_iff.0 (sym u.split ∙ e)).0 in
      ground (arith, eq_iff name "", given, (is_match_iff unit_re name).1 (unit_re_from name u)),
)
