-- ===== src/Db/Sessions/Active.antt =====
-- src/db/sessions.rs, `find_active`: which sessions it finds, and how the other operations on the
-- table change that.
use vps_monitor_webui.Prelude.{
  String, ◌≡◌, refl, ◌≢◌, inl, inr, false, not, ◌&&◌, eq_iff, List, [], ◌∷◌, ◌++◌, none, some,
  arith, find, any, retain, Option-cases, Bool-cases,
}
use vps_monitor_webui.Prelude.In.{In, head, later}
use vps_monitor_webui.Prelude.Int.{ℤ, ltb_ℤ, ◌≤ℤ◌, ◌<ℤ◌}
use vps_monitor_webui.Db.{UserRow, SessionRow}
use vps_monitor_webui.Db.Users.{has_id}
use vps_monitor_webui.Db.Sessions.{
  SessionRecord, with_token, select_active, update_token, is_expired,
}

-- A row that is there, with the token, not expired, of an existing user, and the record made of it.
pub record IsActive (token : String) (now : ℤ) (users : List UserRow) (sessions : List SessionRow)
    (r : SessionRecord) : Type 0 where
  pub row : SessionRow
  pub user : UserRow
  pub stored : In row sessions
  pub its_token : row.token ≡ token
  pub fresh : now <ℤ row.expires_at
  pub known : find (has_id row.user_id) users ≡ some user
  pub its_user : r.user_id ≡ row.user_id
  pub its_name : r.username ≡ user.username
  pub its_expiry : r.expires_at ≡ row.expires_at

module _ (token : String) (now : ℤ) (users : List UserRow) where
  IsActive-later :
      {s : SessionRow} {rest : List SessionRow} {r : SessionRecord}
      → IsActive token now users rest r
      → IsActive token now users (s ∷ rest) r
  IsActive-later a = record {
    row = a.row;
    user = a.user;
    stored = later a.stored;
    its_token = a.its_token;
    fresh = a.fresh;
    known = a.known;
    its_user = a.its_user;
    its_name = a.its_name;
    its_expiry = a.its_expiry;
  }

  -- What the query finds is an active session.
  pub select_active-IsActive :
      (sessions : List SessionRow) (r : SessionRecord)
      → select_active token now users sessions ≡ some r
      → IsActive token now users sessions r
  unfolding select_active
  select_active-IsActive [] r h = absurd (ground arith)
  select_active-IsActive (s ∷ rest) r h =
      elim (Bool-cases (with_token token s && ltb_ℤ now s.expires_at)) [
        | inr other ↦ IsActive-later (select_active-IsActive rest r (rw other at h))
        | inl fits ↦ elim (Option-cases (find (has_id s.user_id) users)) [
          | inl gone ↦ IsActive-later (select_active-IsActive rest r (rw (fits, gone) at h))
          | inr (u, found) ↦ record {
            row = s;
            user = u;
            stored = head;
            its_token = ground (arith, fits, eq_iff s.token token);
            fresh = ground (arith, fits);
            known = found;
            its_user = ground (arith, fits, found, h);
            its_name = ground (arith, fits, found, h);
            its_expiry = ground (arith, fits, found, h);
          }
        ]
      ]

  -- After a logout no session has the token.
  pub select_active-delete :
      (sessions : List SessionRow)
      → select_active token now users (retain (λ s. not (with_token token s)) sessions) ≡ none
  unfolding select_active retain
  select_active-delete [] = refl
  select_active-delete (s ∷ rest) = ground (arith, select_active-delete rest)

  -- The purge takes no active session away: its clock is not ahead of the reader's.
  pub select_active-purge :
      (cutoff : ℤ) (sessions : List SessionRow)
      → cutoff ≤ℤ now
      → select_active token now users (retain (λ s. not (is_expired cutoff s)) sessions)
        ≡ select_active token now users sessions
  unfolding select_active retain
  select_active-purge cutoff [] h = refl
  select_active-purge cutoff (s ∷ rest) h = ground (arith, select_active-purge cutoff rest h)

  -- A session with a new token is found at once, until it expires.
  pub select_active-append :
      (sessions : List SessionRow) (s : SessionRow) (u : UserRow)
      → any (with_token token) sessions ≡ false
      → s.token ≡ token
      → now <ℤ s.expires_at
      → find (has_id s.user_id) users ≡ some u
      → select_active token now users (sessions ++ s ∷ [])
        ≡ some (record { user_id = s.user_id; username = u.username; expires_at = s.expires_at })
  unfolding select_active any
  select_active-append [] s u new same fresh known = ground (arith, eq_iff s.token token)
  select_active-append (t ∷ rest) s u new same fresh known =
      ground (arith, select_active-append rest s u (ground arith) same fresh known)

  -- Touching another token changes nothing for this one.
  pub select_active-touch_ne :
      (other : String) (f : SessionRow → SessionRow) (sessions : List SessionRow)
      → other ≢ token
      → ((s : SessionRow) → (f s).token ≡ s.token)
      → select_active token now users (update_token other f sessions)
        ≡ select_active token now users sessions
  unfolding select_active update_token
  select_active-touch_ne other f [] ne same = refl
  select_active-touch_ne other f (s ∷ rest) ne same = ground (
    arith,
    select_active-touch_ne other f rest ne same,
    same s,
    eq_iff s.token other,
    eq_iff s.token token,
    eq_iff (f s).token token,
  )
