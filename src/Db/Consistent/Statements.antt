-- ===== src/Db/Consistent/Statements.antt =====
-- src/db: each statement of the program keeps the tables consistent.
use vps_monitor_webui.Prelude.{
  ℕ, ◌+◌, String, ◌≡◌, refl, ◌∙◌, true, false, not, Option, none, arith, any, subst, Bool, List, [],
  ◌∷◌, ◌++◌,
}
use vps_monitor_webui.Prelude.Int.{ℤ}
use vps_monitor_webui.Result.{ok, ok_snd}
use vps_monitor_webui.Db.{Database, UserRow, SessionRow, fresh_database}
use vps_monitor_webui.Db.Keeps.{Preserves}
use vps_monitor_webui.Db.Stable.{Stable}
use vps_monitor_webui.Db.Users.{
  named, has_id, update, insert_user, select_next_count, update_failures, update_password,
  with_failures, with_password,
}
use vps_monitor_webui.Db.Sessions.{
  with_token, is_expired, insert_session, update_session, delete_session, delete_expired, seen,
  slid,
}
use vps_monitor_webui.Db.Sessions.Laws.{insert_session_ok}
use vps_monitor_webui.Db.Audit.{AuditWrite, audit_row, is_older, insert_audit, delete_older}
use vps_monitor_webui.Db.Consistent.{
  IsConsistent, any-append, Users-append, Users-update, any-has_id-update, Sessions-users,
  Sessions-append, Sessions-retain, Sessions-update, Log-append, Log-retain,
}

pub fresh_database-IsConsistent : IsConsistent fresh_database
fresh_database-IsConsistent = record { users = tt; sessions = tt; log = tt }

any_known-append :
    (us : List UserRow) (u : UserRow) (id : ℕ)
    → any (has_id id) us ≡ true
    → any (has_id id) (us ++ u ∷ []) ≡ true
any_known-append us u id h = ground (arith, any-append (has_id id) us u)

insert_user_added :
    (name hash : String) (now : ℤ) (db db' : Database) (id : ℕ)
    → insert_user name hash now db ≡ ok (id, db')
    → (u : UserRow) × (u.id ≡ db.next_user)
      × (any (named u.username) db.users ≡ false)
      × (db' ≡ record db { users = db.users ++ u ∷ []; next_user = db.next_user + 1 })
unfolding insert_user
insert_user_added name hash now db db' id e = (
  record {
    id = db.next_user;
    username = name;
    password_hash = hash;
    failed_count = 0;
    locked_until = none;
    created_at = now;
  },
  refl,
  ground arith,
  ground arith,
)

pub insert_user-IsConsistent :
    (name hash : String) (now : ℤ) → Preserves IsConsistent (insert_user name hash now)
insert_user-IsConsistent name hash now = record {
  at = λ db db' id e c.
      let p = insert_user_added name hash now db db' id e in
      rw p.3 (record {
        users = Users-append db.next_user db.users p.0 c.users p.1 p.2;
        sessions =
            Sessions-users db.users (db.users ++ p.0 ∷ []) db.sessions
              (λ k. any_known-append db.users p.0 k) c.sessions;
        log = c.log;
      });
}

pub select_next_count_db :
    (id n : ℕ) (db db' : Database) → select_next_count id db ≡ ok (n, db') → db ≡ db'
unfolding select_next_count
select_next_count_db id n db db' e = ground arith

pub select_next_count-IsConsistent : (id : ℕ) → Preserves IsConsistent (select_next_count id)
select_next_count-IsConsistent id = record {
  at = λ db db' n e c. subst IsConsistent (select_next_count_db id n db db' e) c;
}

-- A change of rows that keeps ids and names.
pub changed-IsConsistent :
    (p : UserRow → Bool) (f : UserRow → UserRow)
    → ((r : UserRow) → (f r).id ≡ r.id)
    → ((r : UserRow) → (f r).username ≡ r.username)
    → (db : Database) → IsConsistent db
    → IsConsistent (record db { users = update p f db.users })
changed-IsConsistent p f same_id same_name db c = record {
  users = Users-update p f same_id same_name db.next_user db.users c.users;
  sessions =
      Sessions-users db.users (update p f db.users) db.sessions
        (λ id h. any-has_id-update p f same_id same_name id db.users ∙ h) c.sessions;
  log = c.log;
}

pub update_failures-IsConsistent :
    (next : ℕ) (lock : Option ℤ) (id : ℕ) → Preserves IsConsistent (update_failures next lock id)
unfolding update_failures
update_failures-IsConsistent next lock id = record {
  at = λ db db' n e c.
      subst IsConsistent (ok_snd e)
        (changed-IsConsistent (has_id id) (with_failures next lock) (λ r. refl) (λ r. refl) db c);
}

pub update_password-IsConsistent :
    (name hash : String) → Preserves IsConsistent (update_password name hash)
unfolding update_password
update_password-IsConsistent name hash = record {
  at = λ db db' n e c.
      subst IsConsistent (ok_snd e)
        (changed-IsConsistent (named name) (with_password hash) (λ r. refl) (λ r. refl) db c);
}

pub insert_session-IsConsistent : (s : SessionRow) → Preserves IsConsistent (insert_session s)
insert_session-IsConsistent s = record {
  at = λ db db' u e c.
      let p = insert_session_ok s db db' u e in
      rw p.2 (record {
        users = c.users;
        sessions = Sessions-append db.users db.sessions s c.sessions p.0 p.1;
        log = c.log;
      });
}

pub update_session-IsConsistent :
    (token : String) (f : SessionRow → SessionRow)
    → ((s : SessionRow) → (f s).token ≡ s.token)
    → ((s : SessionRow) → (f s).user_id ≡ s.user_id)
    → Preserves IsConsistent (update_session token f)
unfolding update_session
update_session-IsConsistent token f same_token same_user = record {
  at = λ db db' u e c. subst IsConsistent (ok_snd e) (record {
    users = c.users;
    sessions = Sessions-update token f same_token same_user db.users db.sessions c.sessions;
    log = c.log;
  });
}

pub delete_session-IsConsistent : (token : String) → Preserves IsConsistent (delete_session token)
unfolding delete_session
delete_session-IsConsistent token = record {
  at = λ db db' u e c. subst IsConsistent (ok_snd e) (record {
    users = c.users;
    sessions = Sessions-retain db.users (λ s. not (with_token token s)) db.sessions c.sessions;
    log = c.log;
  });
}

pub delete_expired-IsConsistent : (now : ℤ) → Preserves IsConsistent (delete_expired now)
unfolding delete_expired
delete_expired-IsConsistent now = record {
  at = λ db db' n e c. subst IsConsistent (ok_snd e) (record {
    users = c.users;
    sessions = Sessions-retain db.users (λ s. not (is_expired now s)) db.sessions c.sessions;
    log = c.log;
  });
}

pub insert_audit-IsConsistent :
    (now : ℤ) (e : AuditWrite) → Preserves IsConsistent (insert_audit now e)
unfolding insert_audit
insert_audit-IsConsistent now w = record {
  at = λ db db' u e c. subst IsConsistent (ok_snd e) (record {
    users = c.users;
    sessions = c.sessions;
    log = Log-append db.next_audit db.audit_log (audit_row db.next_audit now w) c.log refl;
  });
}

pub delete_older-IsConsistent : (cutoff : ℤ) → Preserves IsConsistent (delete_older cutoff)
unfolding delete_older
delete_older-IsConsistent cutoff = record {
  at = λ db db' n e c. subst IsConsistent (ok_snd e) (record {
    users = c.users;
    sessions = c.sessions;
    log = Log-retain db.next_audit (λ r. not (is_older cutoff r)) db.audit_log c.log;
  });
}

pub Stable-IsConsistent : Stable IsConsistent
Stable-IsConsistent = record {
  add_user = insert_user-IsConsistent;
  next_count = select_next_count-IsConsistent;
  set_failures = update_failures-IsConsistent;
  set_hash = update_password-IsConsistent;
  add_session = insert_session-IsConsistent;
  see = λ token now. update_session-IsConsistent token (seen now) (λ s. refl) (λ s. refl);
  extend = λ token now e. update_session-IsConsistent token (slid now e) (λ s. refl) (λ s. refl);
  end_session = delete_session-IsConsistent;
  purge_sessions = delete_expired-IsConsistent;
  add_entry = insert_audit-IsConsistent;
  purge_entries = delete_older-IsConsistent;
}
