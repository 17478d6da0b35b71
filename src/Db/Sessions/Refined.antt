-- ===== src/Db/Sessions/Refined.antt =====
-- src/db/sessions.rs: the table of sessions against the map of Db/Sessions/Store.
use vps_monitor_webui.Prelude.{String, ◌≡◌, refl, arith, subst}
use vps_monitor_webui.Prelude.Int.{ℤ}
use vps_monitor_webui.Result.{ok_snd}
use vps_monitor_webui.Db.{Database}
use vps_monitor_webui.Db.Users.{insert_user, update_failures, update_password}
use vps_monitor_webui.Db.Sessions.{update_session, delete_session, delete_expired, select_active}
use vps_monitor_webui.Db.Sessions.Laws.{insert_session_ok}
use vps_monitor_webui.Db.Sessions.Store.{
  Store, view, Change, issued, extended, ended, purged, unchanged, view-none, view-append,
  view-slid, view-seen, view-delete, view-purge, found, select_active-view,
}
use vps_monitor_webui.Db.Audit.{insert_audit, delete_older}
use vps_monitor_webui.Db.Consistent.{IsConsistent}
use vps_monitor_webui.Db.Consistent.Statements.{Stable-IsConsistent}
use vps_monitor_webui.Db.History.{
  Write, user_added, failures_set, hash_set, session_added, session_seen, session_slid,
  session_ended, sessions_purged, entry_added, entries_purged, Reach, start, next, Reach-Stable,
}

-- A row that is written is a change of the map.
Write-Change :
    (a b : Database) → IsConsistent a → Write a b → Change (view a.sessions) (view b.sessions)
unfolding insert_user update_failures update_password update_session delete_session delete_expired
    insert_audit delete_older
Write-Change a b c (user_added name hash now id e) =
    let same : b.sessions ≡ a.sessions = ground arith in unchanged λ t. rw same refl
Write-Change a b c (failures_set n lock id u e) =
    let same : b.sessions ≡ a.sessions = ground arith in unchanged λ t. rw same refl
Write-Change a b c (hash_set name hash n e) =
    let same : b.sessions ≡ a.sessions = ground arith in unchanged λ t. rw same refl
Write-Change a b c (session_added s u e) =
    let p = insert_session_ok s a b u e in
    issued s.token s.user_id s.expires_at (view-none s.token a.sessions p.0)
      λ t. rw p.2 (view-append a.sessions s t p.0)
Write-Change a b c (session_seen token now u e) =
    subst (λ db. Change (view a.sessions) (view db.sessions)) (ok_snd e)
      (unchanged (view-seen token now a.sessions))
Write-Change a b c (session_slid token now x u e) =
    subst (λ db. Change (view a.sessions) (view db.sessions)) (ok_snd e)
      (extended token x (view-slid token now x a.sessions))
Write-Change a b c (session_ended token u e) =
    subst (λ db. Change (view a.sessions) (view db.sessions)) (ok_snd e)
      (ended token (view-delete token a.sessions))
Write-Change a b c (sessions_purged now n e) =
    subst (λ db. Change (view a.sessions) (view db.sessions)) (ok_snd e)
      (purged now λ t. view-purge a.users now a.sessions t c.sessions)
Write-Change a b c (entry_added now w u e) =
    let same : b.sessions ≡ a.sessions = ground arith in unchanged λ t. rw same refl
Write-Change a b c (entries_purged cut n e) =
    let same : b.sessions ≡ a.sessions = ground arith in unchanged λ t. rw same refl

-- The maps that some changes make of `m`.
pub data Changes (m : Store) : Store → Type 0 where
  begun : Changes m m
  then_by : {n o : Store} → Changes m n → Change n o → Changes m o

stored-Changes :
    (a b : Database) → IsConsistent a → Reach a b → Changes (view a.sessions) (view b.sessions)
stored-Changes a b c start = begun
stored-Changes a b c (next {b = d} r w) =
    then_by (stored-Changes a d c r) (Write-Change d b (Reach-Stable Stable-IsConsistent r c) w)

-- From consistent tables on, whatever statements run in whatever order, the table of sessions is a map
-- from tokens to a user and an expiry that moves only by the steps of such a map: a token that is not
-- there is issued, the expiry of one is moved, one is ended, the expired ones are ended. The query for
-- an active session looks the token up in that map, and answers with the name of the user if the expiry
-- lies ahead.
pub Reach-Changes :
    (a b : Database)
    → IsConsistent a
    → Reach a b
    → Changes (view a.sessions) (view b.sessions)
      × ((token : String) (now : ℤ)
          → select_active token now b.users b.sessions ≡ found b.users now (view b.sessions token))
Reach-Changes a b c r = (
  stored-Changes a b c r,
  λ token now.
      select_active-view b.users b.users token now b.sessions
        (Reach-Stable Stable-IsConsistent r c).sessions,
)
