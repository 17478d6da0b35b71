-- ===== src/Collectors/Pm2/Homes.antt =====
-- src/collectors/pm2.rs: where the listed apps come from.
use vps_monitor_webui.Prelude.{
  String, ◌≡◌, Bool, true, inl, inr, List, [], ◌∷◌, Option, some, arith, find, Bool-cases, sym,
  subst,
}
use vps_monitor_webui.Prelude.Int.{ℤ}
use vps_monitor_webui.Result.{Result, ok}
use vps_monitor_webui.Prelude.In.{In, head, later}
use vps_monitor_webui.Collectors.Systemd.{Output}
use vps_monitor_webui.Collectors.System.{Float}
use vps_monitor_webui.Collectors.Pm2.{RawApp, Pm2App, list_for_home}

pub find_sound :
    {A : Type 0} (p : A → Bool) (l : List A) (a : A) → find p l ≡ some a → In a l × (p a ≡ true)
unfolding find
find_sound p [] a h = absurd (ground arith)
find_sound p (x ∷ xs) a h = elim (Bool-cases (p x)) [
  | inl e ↦
      let same : x ≡ a = ground arith in
      (subst (λ z. In a (z ∷ xs)) (sym same) head, subst (λ z. p z ≡ true) same e)
  | inr e ↦ let r = find_sound p xs a (rw e at h) in (later r.0, r.1)
]

module _ (float : Float) (jlist : Option String → Result String Output)
    (from_str : String → Result String (List (RawApp float))) (now : ℤ) where
  -- The app is one that a home of the list gave, labelled with that home.
  pub record FromHome (homes : List String) (a : Pm2App float) : Type 0 where
    pub home : String
    pub apps : List (Pm2App float)
    pub given : Pm2App float
    pub listed : In home homes
    pub its_own : In given apps
    pub label : a ≡ record given { pm2_home = some home }
    pub answered : list_for_home float jlist from_str now (some home) ≡ ok apps
