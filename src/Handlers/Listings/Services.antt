-- ===== src/Handlers/Listings/Services.antt =====
-- src/handlers/services.rs over src/collectors/systemd.rs: the listing of services by a state.
use Prim.Native.String.{[], ◌∷◌, ◌++◌}
use mathlib.Core.List.{[] as nil, ◌∷◌ as cons}
use vps_monitor_webui.Prelude.{
  eq_iff, ◌↔◌, none, String, Char, ◌≡◌, ◌≢◌, refl, sym, ap, ◌∙◌, subst, true, ◌==◌, List, some,
  arith, inl, inr, Bool-cases, Option-cases, trim, eq_ignore_ascii_case, is_whitespace, retain,
}
use vps_monitor_webui.Prelude.In.{In, head, later, place, In-retain}
use vps_monitor_webui.Result.{Result, ok, err, ok_inv}
use vps_monitor_webui.Error.{other}
use vps_monitor_webui.Exec.Inversion.{bind_inv, map_err_inv}
use vps_monitor_webui.Config.{Config}
use vps_monitor_webui.Db.{Env, World}
use vps_monitor_webui.Auth.Middleware.{AuthUser, Parts}
use vps_monitor_webui.Auth.Middleware.Sound.{LetIn, guarded_ok}
use vps_monitor_webui.Collectors.Systemd
use vps_monitor_webui.Collectors.Systemd.{
  Output, SystemdService, lines, parse_line, parse_rows, splitn,
}
use vps_monitor_webui.Collectors.Systemd.Columns.{IsField, parse_line_of_columns}
use vps_monitor_webui.Collectors.System.{Float}
use vps_monitor_webui.Machine.{Machine}
use vps_monitor_webui.Handlers.Listings.{in_state, list_services}

-- A line of the output that is read as a service.
pub record Row (ls : List String) (s : SystemdService) : Type 0 where
  pub line : String
  pub printed : In line ls
  pub its_fields : parse_line (trim line) ≡ some s

Row-later : {l : String} {ls : List String} {s : SystemdService} → Row ls s → Row (cons l ls) s
Row-later r = record { line = r.line; printed = later r.printed; its_fields = r.its_fields }

parse_rows-Row : (ls : List String) (s : SystemdService) → In s (parse_rows ls) → Row ls s
unfolding parse_rows
parse_rows-Row nil s i = absurd (place i)
parse_rows-Row (cons l ls) s i = elim (Bool-cases (trim l == "")) [
  | inl e ↦ Row-later (parse_rows-Row ls s (rw e at i))
  | inr e ↦ elim (Option-cases (parse_line (trim l))) [
    | inl none_read ↦ Row-later (parse_rows-Row ls s (rw (e, none_read) at i))
    | inr (t, read) ↦ elim (place {l = cons t (parse_rows ls)} (rw (e, read) at i)) [
      | inl same ↦ record { line = l; printed = head; its_fields = read ∙ ap some (sym same) }
      | inr rest ↦ Row-later (parse_rows-Row ls s rest)
    ]
  ]
]

parse_line_blank : parse_line "" ≡ none
unfolding parse_line splitn retain
parse_line_blank = refl

Row-In :
    (l : String) (ls : List String) (s : SystemdService)
    → In l ls
    → parse_line (trim l) ≡ some s
    → In s (parse_rows ls)
unfolding parse_rows
Row-In l _ s (head {l = ls}) read = elim (Bool-cases (trim l == "")) [
  | inl e ↦
      let blank = ap parse_line ((eq_iff (trim l) "").0 e) ∙ parse_line_blank in
      absurd (ground (arith, read, blank))
  | inr e ↦ rw (e, read) head
]
Row-In l _ s (later {b = first} {l = ls} i) read =
    let rest = Row-In l ls s i read in
    elim (Bool-cases (trim first == "")) [
      | inl e ↦ rw e rest
      | inr e ↦ elim (Option-cases (parse_line (trim first))) [
        | inl none_read ↦ rw (e, none_read) rest
        | inr (t, other_read) ↦ rw (e, other_read) (later rest)
      ]
    ]

-- The services of an output that are in a state.
in_state-Row :
    (f : String) (ls : List String) (s : SystemdService)
    → In s (retain (in_state f) (parse_rows ls)) ↔ ((in_state f s ≡ true) × Row ls s)
in_state-Row f ls s =
    let kept = In-retain (in_state f) s (parse_rows ls) in
    (
      λ i. let x = kept.0 i in (x.1, parse_rows-Row ls s x.0),
      λ x. kept.1 (Row-In x.1.line ls s x.1.printed x.1.its_fields, x.0),
    )

list_ok :
    (r : Result String Output) (svcs : List SystemdService)
    → Systemd.list r ≡ ok svcs
    → (out : Output) × (r ≡ ok out) × (out.success ≡ true) × (svcs ≡ parse_rows (lines out.stdout))
unfolding Systemd.list
list_ok (err e) svcs h = absurd (ground arith)
list_ok (ok out) svcs h = (out, refl, ground arith, ground arith)

-- No state but the empty one is written like an empty field.
empty_state : (f : String) → eq_ignore_ascii_case "" f ≡ true → f ≡ ""
unfolding eq_ignore_ascii_case
empty_state [] h = refl
empty_state (c ∷ f) h = absurd (ground arith)

-- A service without a state is in none.
stateless :
    (f : String) (s : SystemdService)
    → f ≢ ""
    → s.active ≡ ""
    → s.sub ≡ ""
    → in_state f s ≡ true
    → ⊥
stateless f s given no_active no_sub h = elim (Bool-cases (eq_ignore_ascii_case "" f)) [
  | inl e ↦ given (empty_state f e)
  | inr e ↦ absurd (
      ground (
        arith,
        h,
        ap (λ a. eq_ignore_ascii_case a f) no_active,
        ap (λ a. eq_ignore_ascii_case a f) no_sub,
        e,
      ))
]

-- A line in columns, as systemctl pads them: four blanks or more stand after the name of the unit.
pub record InColumns (line : String) : Type 0 where
  pub b : Char
  pub blank : is_whitespace b ≡ true
  pub unit : String
  pub rest : String
  pub its_unit : IsField unit
  pub its_rest : rest ≢ ""
  pub padded : line ≡ unit ++ (b ∷ (b ∷ (b ∷ (b ∷ rest))))

not_InColumns :
    (f line : String) (s : SystemdService)
    → f ≢ ""
    → parse_line line ≡ some s
    → in_state f s ≡ true
    → InColumns line
    → ⊥
not_InColumns f line s given read state c =
    let whole = parse_line_of_columns c.b c.blank c.unit c.rest c.its_unit c.its_rest in
    let same = sym (ap parse_line c.padded ∙ whole) ∙ read in
    stateless f s given (ground (arith, same)) (ground (arith, same)) state

module _ (float : Float) (env : Env) (cfg : Config) (machine : Machine float) (parts : Parts) where
  -- An answer of the listing of services by a state that is not empty went to a request with a session,
  -- and systemctl succeeded. It has exactly the services in that state that are read from lines of the
  -- output; none of them is read from a line in padded columns: a unit whose line has four blanks or more
  -- after its name is not listed by a state, whatever its state is.
  pub list_services-Row :
      (state : String) (w v : World) (rows : List SystemdService)
      → machine.to_lowercase state ≢ ""
      → list_services float env cfg machine parts (some state) w ≡ (ok rows, v)
      → ((u : AuthUser) × LetIn env cfg parts w u v)
        × ((out : Output) × (machine.systemctl ≡ ok out)
            × (out.success ≡ true)
            × ((s : SystemdService)
                → In s rows
                  ↔ ((in_state (machine.to_lowercase state) s ≡ true) × Row (lines out.stdout) s))
            × ((s : SystemdService)
                → In s rows
                → (r : Row (lines out.stdout) s) → InColumns (trim r.line)
                → ⊥))
  unfolding list_services
  list_services-Row state w v rows given h =
      let g = guarded_ok env cfg parts _ w v rows h in
      let f = machine.to_lowercase state in
      let b = bind_inv _ _ g.1 rows v g.3 in
      let ran = map_err_inv other _ g.1 b.value b.middle b.first in
      let l = list_ok machine.systemctl b.value (ap (λ x. x.0) ran) in
      let kept : rows ≡ retain (in_state f) (parse_rows (lines l.0.stdout)) =
        sym (ok_inv (ap (λ x. x.0) b.second)) ∙ ap (retain (in_state f)) l.3 in
      let exact = λ (s : SystemdService).
        subst
          (λ (x : List SystemdService). In s x ↔ ((in_state f s ≡ true) × Row (lines l.0.stdout) s))
          (sym kept) (in_state-Row f (lines l.0.stdout) s) in
      (
        (g.0, subst (LetIn env cfg parts w g.0) (ap (λ x. x.1) ran ∙ ap (λ x. x.1) b.second) g.2),
        (
          l.0,
          l.1,
          l.2,
          exact,
          λ s i r. not_InColumns f (trim r.line) s given r.its_fields ((exact s).0 i).0,
        ),
      )
