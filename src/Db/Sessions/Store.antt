-- ===== src/Db/Sessions/Store.antt =====
-- src/db/sessions.rs: what the table of sessions is for, as a map from tokens to a user and an expiry,
-- and the statements as changes of that map. The order of rows, their other columns and the users are
-- forgotten.
use mathlib.Core.Option
use vps_monitor_webui.Prelude.{
  ℕ, String, ◌≡◌, refl, false, not, ◌==◌, eq_iff, List, [], ◌∷◌, ◌++◌, Option, none, some, arith,
  any, find, retain, if◌then◌else◌,
}
use vps_monitor_webui.Prelude.Int.{ℤ, ltb_ℤ}
use vps_monitor_webui.Db.{UserRow, SessionRow}
use vps_monitor_webui.Db.Users.{has_id}
use vps_monitor_webui.Db.Sessions.{
  SessionRecord, with_token, select_active, update_token, seen, slid, is_expired,
}
use vps_monitor_webui.Db.Consistent.{Sessions, any-retain}

-- A user's id and an expiry by token.
abbrev pub Store : Type 0
Store = String → Option (ℕ × ℤ)

unfoldable pub view : List SessionRow → Store
view [] t = none
view (s ∷ rest) t =
    let r = view rest t in if with_token t s then some (s.user_id, s.expires_at) else r

abbrev pub move_to : ℤ → ℕ × ℤ → ℕ × ℤ
move_to e p = (p.0, e)

abbrev pub unexpired : ℤ → Option (ℕ × ℤ) → Option (ℕ × ℤ)
unexpired now none = none
unexpired now (some p) = if ltb_ℤ p.1 now then none else some p

-- One step of the map: a token that was not there is issued; the expiry of one moves; one ends; those
-- that have expired end; nothing happens.
pub data Change (m n : Store) : Type 0 where
  issued :
      (token : String) (user : ℕ) (e : ℤ)
      → m token ≡ none
      → ((t : String) → n t ≡ (if token == t then some (user, e) else m t))
      → Change m n
  extended :
      (token : String) (e : ℤ)
      → ((t : String) → n t ≡ (if token == t then Option.map (move_to e) (m t) else m t))
      → Change m n
  ended : (token : String) → ((t : String) → n t ≡ (if token == t then none else m t)) → Change m n
  purged : (now : ℤ) → ((t : String) → n t ≡ unexpired now (m t)) → Change m n
  unchanged : ((t : String) → n t ≡ m t) → Change m n

pub view-none :
    (t : String) (ss : List SessionRow) → any (with_token t) ss ≡ false → view ss t ≡ none
unfolding view any
view-none t [] h = refl
view-none t (s ∷ ss) h = ground (arith, view-none t ss)

pub view-append :
    (ss : List SessionRow) (s : SessionRow) (t : String)
    → any (with_token s.token) ss ≡ false
    → view (ss ++ s ∷ []) t ≡ (if s.token == t then some (s.user_id, s.expires_at) else view ss t)
unfolding view any
view-append [] s t h = refl
view-append (r ∷ ss) s t h = ground (
  arith,
  view-append ss s t (ground arith),
  eq_iff r.token t,
  eq_iff s.token t,
  eq_iff r.token s.token,
)

pub view-slid :
    (token : String) (now e : ℤ) (ss : List SessionRow) (t : String)
    → view (update_token token (slid now e) ss) t
      ≡ (if token == t then Option.map (move_to e) (view ss t) else view ss t)
unfolding view update_token
view-slid token now e [] t = ground arith
view-slid token now e (s ∷ ss) t =
    ground
      (arith, view-slid token now e ss t, eq_iff s.token token, eq_iff token t, eq_iff s.token t)

pub view-seen :
    (token : String) (now : ℤ) (ss : List SessionRow) (t : String)
    → view (update_token token (seen now) ss) t ≡ view ss t
unfolding view update_token
view-seen token now [] t = refl
view-seen token now (s ∷ ss) t = ground (arith, view-seen token now ss t)

pub view-delete :
    (token : String) (ss : List SessionRow) (t : String)
    → view (retain (λ s. not (with_token token s)) ss) t ≡ (if token == t then none else view ss t)
unfolding view retain
view-delete token [] t = ground arith
view-delete token (s ∷ ss) t =
    ground (arith, view-delete token ss t, eq_iff s.token token, eq_iff token t, eq_iff s.token t)

pub view-purge :
    (users : List UserRow) (now : ℤ) (ss : List SessionRow) (t : String)
    → Sessions users ss
    → view (retain (λ s. not (is_expired now s)) ss) t ≡ unexpired now (view ss t)
unfolding view retain
view-purge users now [] t c = refl
view-purge users now (s ∷ ss) t c = ground (
  arith,
  view-purge users now ss t c.2,
  c.0,
  any-retain (with_token t) (λ s. not (is_expired now s)) ss,
  view-none t (retain (λ s. not (is_expired now s)) ss),
  eq_iff s.token t,
)

-- The record that `find_active` makes of an entry of the map.
abbrev pub found : List UserRow → ℤ → Option (ℕ × ℤ) → Option SessionRecord
found users now none = none
found users now (some p) =
    if ltb_ℤ now p.1
    then Option.map (λ u. record { user_id = p.0; username = u.username; expires_at = p.1 })
        (find (has_id p.0) users)
    else none

select_active-none :
    (token : String) (now : ℤ) (users : List UserRow) (ss : List SessionRow)
    → any (with_token token) ss ≡ false
    → select_active token now users ss ≡ none
unfolding select_active any
select_active-none token now users [] h = refl
select_active-none token now users (s ∷ ss) h =
    ground (arith, select_active-none token now users ss)

pub select_active-view :
    (all users : List UserRow) (token : String) (now : ℤ) (ss : List SessionRow)
    → Sessions all ss
    → select_active token now users ss ≡ found users now (view ss token)
unfolding select_active view
select_active-view all users token now [] c = refl
select_active-view all users token now (s ∷ ss) c = ground (
  arith,
  select_active-view all users token now ss c.2,
  c.0,
  select_active-none token now users ss,
  eq_iff s.token token,
)
