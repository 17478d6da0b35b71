-- ===== src/Db/Consistent.antt =====
-- migrations/001_init.sql: what the schema promises of the tables, kept by every statement of
-- src/db: unique names and ids of users, unique tokens, and sessions only of users that exist.
pub mod Statements
use vps_monitor_webui.Prelude.{
  ℕ, suc, ◌+◌, ◌<◌, ◌≤◌, String, ◌≡◌, refl, ◌∙◌, Bool, true, false, not, ◌==◌, eq_iff, eq_refl,
  List, [], ◌∷◌, ◌++◌, Option, none, some, arith, any, find, retain, length, All, All-append,
  nat_eq, if◌then◌else◌, Bool-cases, inl, inr,
}
use vps_monitor_webui.Prelude.Int.{ℤ}
use vps_monitor_webui.Result.{Result, ok, err}
use vps_monitor_webui.Error.{SqlError}
use vps_monitor_webui.Db.{Database, UserRow, SessionRow, AuditRow, fresh_database}
use vps_monitor_webui.Db.Keeps.{Preserves}
use vps_monitor_webui.Db.Users.{
  named, has_id, update, insert_user, select_next_count, update_failures, update_password,
  with_failures, with_password,
}
use vps_monitor_webui.Db.Sessions.{
  with_token, insert_session, update_token, update_session, delete_session, delete_expired, seen,
  slid,
}
use vps_monitor_webui.Db.Audit.{AuditWrite, insert_audit, delete_older}

-- No two users share a name, and ids were given in order, all below the counter.
abbrev pub Users : ℕ → List UserRow → Type 0
Users bound [] = Unit
Users bound (u ∷ us) =
    (u.id < bound)
    × (any (named u.username) us ≡ false)
    × All (λ r. u.id < r.id) us
    × Users bound us

-- No two sessions share a token, and each belongs to a user.
abbrev pub Sessions : List UserRow → List SessionRow → Type 0
Sessions users [] = Unit
Sessions users (s ∷ ss) =
    (any (with_token s.token) ss ≡ false)
    × (any (has_id s.user_id) users ≡ true)
    × Sessions users ss

-- Entries of the log have ids below the counter, in order.
abbrev pub Log : ℕ → List AuditRow → Type 0
Log bound [] = Unit
Log bound (r ∷ rs) = (r.id < bound) × All (λ e. r.id < e.id) rs × Log bound rs

pub record IsConsistent (db : Database) : Type 0 where
  pub users : Users db.next_user db.users
  pub sessions : Sessions db.users db.sessions
  pub log : Log db.next_audit db.audit_log

any-append :
    {A : Type 0} (p : A → Bool) (xs : List A) (a : A)
    → any p (xs ++ a ∷ []) ≡ (if any p xs then true else p a)
unfolding any
any-append p [] a = ground arith
any-append p (x ∷ xs) a = ground (arith, any-append p xs a)

pub any-retain :
    {A : Type 0} (p q : A → Bool) (xs : List A) → any p xs ≡ false → any p (retain q xs) ≡ false
unfolding any retain
any-retain p q [] h = refl
any-retain p q (x ∷ xs) h = ground (arith, any-retain p q xs)

All-retain :
    {A : Type 0} (P : A → Type 0) (q : A → Bool) (xs : List A) → All P xs → All P (retain q xs)
unfolding retain
All-retain P q [] h = tt
All-retain P q (x ∷ xs) (h, hs) = elim (Bool-cases (q x)) [
  | inl e ↦ rw e (h, All-retain P q xs hs)
  | inr e ↦ rw e (All-retain P q xs hs)
]

-- A row with a name that is not taken, under the next id.
Users-append :
    (bound : ℕ) (us : List UserRow) (u : UserRow)
    → Users bound us
    → u.id ≡ bound
    → any (named u.username) us ≡ false
    → Users (bound + 1) (us ++ u ∷ [])
unfolding any
Users-append bound [] u c same new = (omega arith, refl, tt, tt)
Users-append bound (r ∷ us) u c same new = (
  omega arith,
  ground (
    arith,
    any-append (named r.username) us u,
    c.1,
    new,
    eq_iff u.username r.username,
    eq_iff r.username u.username,
  ),
  All-append (λ e. r.id < e.id) us (u ∷ []) c.2 (omega arith, tt),
  Users-append bound us u c.3 same (ground arith),
)

-- A change of rows that keeps ids and names.
module _ (p : UserRow → Bool) (f : UserRow → UserRow) (same_id : (r : UserRow) → (f r).id ≡ r.id)
    (same_name : (r : UserRow) → (f r).username ≡ r.username) where
  any-named-update :
      (name : String) (us : List UserRow) → any (named name) (update p f us) ≡ any (named name) us
  unfolding any update
  any-named-update name [] = refl
  any-named-update name (r ∷ us) = ground (arith, any-named-update name us, same_name r)

  any-has_id-update :
      (id : ℕ) (us : List UserRow) → any (has_id id) (update p f us) ≡ any (has_id id) us
  unfolding any update
  any-has_id-update id [] = refl
  any-has_id-update id (r ∷ us) = ground (arith, any-has_id-update id us, same_id r)

  All-above-update :
      (n : ℕ) (us : List UserRow) → All (λ r. n < r.id) us → All (λ r. n < r.id) (update p f us)
  unfolding update
  All-above-update n [] h = tt
  All-above-update n (r ∷ us) (h, hs) = (ground (arith, same_id r), All-above-update n us hs)

  Users-update : (bound : ℕ) (us : List UserRow) → Users bound us → Users bound (update p f us)
  unfolding update
  Users-update bound [] c = tt
  Users-update bound (r ∷ us) c = elim (Bool-cases (p r)) [
    | inl e ↦
        rw (e, same_id r, same_name r)
          (
            c.0,
            any-named-update r.username us ∙ c.1,
            All-above-update r.id us c.2,
            Users-update bound us c.3,
          )
    | inr e ↦ rw e (
      c.0,
      any-named-update r.username us ∙ c.1,
      All-above-update r.id us c.2,
      Users-update bound us c.3,
    )
  ]

-- Sessions keep their users where every user stays.
Sessions-users :
    (us vs : List UserRow) (ss : List SessionRow)
    → ((id : ℕ) → any (has_id id) us ≡ true → any (has_id id) vs ≡ true)
    → Sessions us ss
    → Sessions vs ss
Sessions-users us vs [] keep c = tt
Sessions-users us vs (s ∷ ss) keep c = (c.0, keep s.user_id c.1, Sessions-users us vs ss keep c.2)

Sessions-append :
    (us : List UserRow) (ss : List SessionRow) (s : SessionRow)
    → Sessions us ss
    → any (with_token s.token) ss ≡ false
    → any (has_id s.user_id) us ≡ true
    → Sessions us (ss ++ s ∷ [])
unfolding any
Sessions-append us [] s c new known = (refl, known, tt)
Sessions-append us (t ∷ ss) s c new known = (
  ground (
    arith,
    any-append (with_token t.token) ss s,
    c.0,
    new,
    eq_iff s.token t.token,
    eq_iff t.token s.token,
  ),
  c.1,
  Sessions-append us ss s c.2 (ground arith) known,
)

Sessions-retain :
    (us : List UserRow) (q : SessionRow → Bool) (ss : List SessionRow)
    → Sessions us ss
    → Sessions us (retain q ss)
unfolding retain
Sessions-retain us q [] c = tt
Sessions-retain us q (s ∷ ss) c = elim (Bool-cases (q s)) [
  | inl e ↦ rw e (any-retain (with_token s.token) q ss c.0, c.1, Sessions-retain us q ss c.2)
  | inr e ↦ rw e (Sessions-retain us q ss c.2)
]

module _ (token : String) (f : SessionRow → SessionRow)
    (same_token : (s : SessionRow) → (f s).token ≡ s.token)
    (same_user : (s : SessionRow) → (f s).user_id ≡ s.user_id) where
  any-token-update :
      (t : String) (ss : List SessionRow)
      → any (with_token t) (update_token token f ss) ≡ any (with_token t) ss
  unfolding any update_token
  any-token-update t [] = refl
  any-token-update t (s ∷ ss) = ground (arith, any-token-update t ss, same_token s)

  Sessions-update :
      (us : List UserRow) (ss : List SessionRow)
      → Sessions us ss
      → Sessions us (update_token token f ss)
  unfolding update_token
  Sessions-update us [] c = tt
  Sessions-update us (s ∷ ss) c = elim (Bool-cases (with_token token s)) [
    | inl e ↦
        rw (e, same_token s, same_user s)
          (any-token-update s.token ss ∙ c.0, c.1, Sessions-update us ss c.2)
    | inr e ↦ rw e (any-token-update s.token ss ∙ c.0, c.1, Sessions-update us ss c.2)
  ]

Log-append :
    (bound : ℕ) (rs : List AuditRow) (r : AuditRow)
    → Log bound rs
    → r.id ≡ bound
    → Log (bound + 1) (rs ++ r ∷ [])
Log-append bound [] r c same = (omega arith, tt, tt)
Log-append bound (e ∷ rs) r c same = (
  omega arith,
  All-append (λ x. e.id < x.id) rs (r ∷ []) c.1 (omega arith, tt),
  Log-append bound rs r c.2 same,
)

Log-retain :
    (bound : ℕ) (q : AuditRow → Bool) (rs : List AuditRow) → Log bound rs → Log bound (retain q rs)
unfolding retain
Log-retain bound q [] c = tt
Log-retain bound q (r ∷ rs) c = elim (Bool-cases (q r)) [
  | inl e ↦ rw e (c.0, All-retain (λ x. r.id < x.id) q rs c.1, Log-retain bound q rs c.2)
  | inr e ↦ rw e (Log-retain bound q rs c.2)
]
