-- ===== src/Handlers/StaticFiles/Served.antt =====
-- src/handlers/static_files.rs: which file a path gets, and what browsers may keep of it.
use Prim.Native.String.{[], ◌∷◌, ◌++◌}
use text.Mathlib.TextLemmas.{nil-append, cons-append, cons≢nil}
use vps_monitor_webui.Prelude.{
  ℕ, Char, code, nat_eq, nat_eq_iff, false, String, ◌≡◌, ◌↔◌, ◌⊎◌, inl, inr, refl, sym, ap, ◌∙◌,
  subst, true, ◌==◌, eq_iff, eq_refl, List, Option, none, some, arith, Option-cases, Bool-cases,
}
use vps_monitor_webui.Collectors.Docker.{trim_slashes}
use vps_monitor_webui.Handlers.StaticFiles.{
  StaticResponse, file, not_found_page, ends_with, asked_file, content_type_of, cache_control_of,
  serve, handler,
}

ends_with_self : (t : String) → ends_with t t ≡ true
unfolding ends_with
ends_with_self [] = refl
ends_with_self (c ∷ t) = ground (arith, eq_refl (c ∷ t))

ends_with-append : (p t : String) → ends_with (p ++ t) t ≡ true
unfolding ends_with
ends_with-append [] t = rw (nil-append t) (ends_with_self t)
ends_with-append (c ∷ p) t = rw (cons-append c p t) (ground (arith, ends_with-append p t))

ends_with_parts : (s t : String) → ends_with s t ≡ true → (p : String) × (s ≡ p ++ t)
unfolding ends_with
ends_with_parts [] t h = ("", (eq_iff "" t).0 h ∙ sym (nil-append t))
ends_with_parts (c ∷ s) t h = elim (Bool-cases ((c ∷ s) == t)) [
  | inl e ↦ ("", (eq_iff (c ∷ s) t).0 e ∙ sym (nil-append t))
  | inr e ↦
      let r = ends_with_parts s t (ground (arith, h, e)) in
      (c ∷ r.0, ap (λ x. c ∷ x) r.1 ∙ sym (cons-append c r.0 t))
]

-- A text ends with another where it is some text before that one.
ends_with_iff : (s t : String) → (ends_with s t ≡ true) ↔ ((p : String) × (s ≡ p ++ t))
ends_with_iff s t = (
  ends_with_parts s t,
  λ (p, e). subst (λ x. ends_with x t ≡ true) (sym e) (ends_with-append p t),
)

-- The name of the file that a path asks for: what is left of it without the slashes that it begins
-- with, or the index where nothing is left.
pub data AsksFor : String → String → Type 0 where
  root : AsksFor "" "index.html"
  named : (c : Char) (s : String) → nat_eq (code c) b'/' ≡ false → AsksFor (c ∷ s) (c ∷ s)
  after_slash :
      (c : Char) {path name : String} → code c ≡ b'/' → AsksFor path name → AsksFor (c ∷ path) name

cons_not_empty : (c : Char) (s : String) → ((c ∷ s) == "") ≡ false
cons_not_empty c s = elim (Bool-cases ((c ∷ s) == "")) [
  | inl e ↦ absurd (cons≢nil ((eq_iff (c ∷ s) "").0 e))
  | inr e ↦ e
]

asked_file-AsksFor : (path : String) → AsksFor path (asked_file path)
unfolding asked_file trim_slashes
asked_file-AsksFor [] = root
asked_file-AsksFor (c ∷ s) = elim (Bool-cases (nat_eq (code c) b'/')) [
  | inl slash ↦ rw slash (after_slash c ((nat_eq_iff (code c) b'/').0 slash) (asked_file-AsksFor s))
  | inr other ↦ rw other (rw (cons_not_empty c s) (named c s other))
]

module _ (get : String → Option (List ℕ)) (from_path : String → String)
    (from_str : String → Option String) where
  -- The file of a name, with the headers that belong to the name.
  pub record IsFile (name : String) (r : StaticResponse) : Type 0 where
    pub cache_control : String
    pub body : List ℕ
    pub stored : get name ≡ some body
    pub sent : r ≡ file (content_type_of get from_path from_str name) cache_control body
    pub kept :
        (((p : String) × (name ≡ p ++ ".html"))
          × (cache_control ≡ "no-cache, no-store, must-revalidate"))
        ⊎ (¬ ((p : String) × (name ≡ p ++ ".html")) × (cache_control ≡ "public, max-age=86400"))

  serve-IsFile :
      (name : String) (body : List ℕ)
      → get name ≡ some body
      → IsFile name (serve get from_path from_str name body)
  serve-IsFile name body h = record {
    cache_control = cache_control_of name;
    body = body;
    stored = h;
    sent = refl;
    kept = elim (Bool-cases (ends_with name ".html")) [
      | inl e ↦ inl ((ends_with_iff name ".html").0 e, rw e refl)
      | inr e ↦
          inr (λ q. let yes = (ends_with_iff name ".html").1 q in absurd (ground arith), rw e refl)
    ];
  }

  -- A path asks for a file: its name is the path without the slashes before it, or that of the index
  -- where nothing else is left. The path gets that file where it exists, else the
  -- index, and only where there is no index either the page of status 404. A file whose name ends in
  -- ".html" is sent as not to be stored, any other as public for a day.
  pub handler-Served :
      (uri_path : String)
      → let r = handler get from_path from_str uri_path in
        (name : String) × AsksFor uri_path name
        × (IsFile name r
            ⊎ ((get name ≡ none)
                × (IsFile "index.html" r ⊎ ((get "index.html" ≡ none) × (r ≡ not_found_page)))))
  unfolding handler
  handler-Served uri_path =
      let name = asked_file uri_path in
      (
        name,
        asked_file-AsksFor uri_path,
        elim (Option-cases (get name)) [
          | inr (body, h) ↦ inl (rw h (serve-IsFile name body h))
          | inl gone ↦ elim (Option-cases (get "index.html")) [
            | inr (idx, h) ↦ inr (gone, inl (rw gone (rw h (serve-IsFile "index.html" idx h))))
            | inl empty ↦ inr (gone, inr (empty, rw (gone, empty) refl))
          ]
        ],
      )
