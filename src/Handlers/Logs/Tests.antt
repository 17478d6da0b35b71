-- ===== src/Handlers/Logs/Tests.antt =====
-- Runs of src/handlers/logs.rs on one host, on a file of three bytes and on short streams.
use vps_monitor_webui.Prelude.{
  Bool, not, ◌&&◌, ℕ, ◌≤◌, utf8_len, is_ascii_alphanumeric, ◌≡◌, refl, true, [], ◌∷◌, ◌++◌, some,
  none, arith, find, take, drop, trim,
}
use vps_monitor_webui.Prelude.Int.{as_i64, sub_i64, half_ℤ}
use vps_monitor_webui.Result.{Result, ok, err}
use vps_monitor_webui.Regex.{is_match}
use vps_monitor_webui.Error.{Anyhow, msg}
use vps_monitor_webui.Exec.{◌>>=◌, map_err}
use vps_monitor_webui.Db.{World, reading, now_unix, get_conn, statement}
use vps_monitor_webui.Db.Sessions.{select_active, update_token, update_session, find_active, touch}
use vps_monitor_webui.Auth.Middleware.{client_ip, slide, active_session, from_request_parts}
use vps_monitor_webui.Collectors.Systemd.{validate_unit}
use vps_monitor_webui.Collectors.Systemd.Units.{IsUnitName}
use vps_monitor_webui.Collectors.Pm2
use vps_monitor_webui.Collectors.Pm2.{find_app}
use vps_monitor_webui.Handlers.Logs.{
  pm2_name_re, Upgrade, pm2_stream, journal_stream, ws_pm2, ws_journal,
}
use vps_monitor_webui.Handlers.Logs.Opened.{Viewed, Followed, ws_pm2-Viewed, ws_journal-Viewed}
use vps_monitor_webui.Handlers.Logs.Tail.{
  Bytes, Tail, tick, opened, close, running, tail_start, tail_step, tail_loop, tail_file, received,
  returned,
}
use vps_monitor_webui.Handlers.Logs.Tail.Follow.{concat, ReadsFrom, Follows}
use vps_monitor_webui.Handlers.Logs.Tail.Traces.{same, grows, ticks, rotates, tail-Follows}
use vps_monitor_webui.Handlers.Logs.Tail.CatchUp.{rounds, tail_file_catches_up}
use vps_monitor_webui.Handlers.Logs.Tail.Twice.{tail_sends_twice}
use vps_monitor_webui.Handlers.Logs.Streams.{
  finished, log_bytes, chunk, from_client, line, heard, stream_docker, stream_journal, Tokio,
}
use vps_monitor_webui.Handlers.Logs.Streams.Forwarded.{
  at_start, then_event, taken, empty_chunk, on_close, stream_docker-Passed, no_lines, taken_line,
  heard_close, TokioLaws, stream_journal-Lines,
}
use vps_monitor_webui.Example.{floats, quiet, settings, before, parts, machine}

abbrev after_pm2 : World
after_pm2 = (ws_pm2 floats quiet settings machine parts "web" before).1

abbrev opened_pm2 : Upgrade
opened_pm2 = record {
  stream = pm2_stream "/var/log/web.log";
  spawned = record {
    user_id = some 1;
    username = some "admin";
    ip = some "127.0.0.1";
    action = "view_logs";
    target = some "pm2:web";
    detail = none;
  };
}

pm2_runs : ws_pm2 floats quiet settings machine parts "web" before ≡ (ok opened_pm2, after_pm2)
unfolding ws_pm2 from_request_parts active_session ◌>>=◌ map_err get_conn statement now_unix reading
    find_active select_active touch update_session update_token client_ip slide as_i64 find sub_i64
    half_ℤ is_match find_app Pm2.list trim is_ascii_alphanumeric Pm2.list_for_home
pm2_runs = refl

ws_pm2-Viewed_example :
    Viewed floats quiet settings machine parts before "pm2:web" opened_pm2 after_pm2
    × (is_match pm2_name_re "web" ≡ true)
    × Followed floats quiet settings machine parts "web" (pm2_stream "/var/log/web.log")
ws_pm2-Viewed_example =
    ws_pm2-Viewed floats quiet settings machine parts "web" before after_pm2 opened_pm2 pm2_runs

abbrev after_journal : World
after_journal = (ws_journal floats quiet settings machine parts "sshd.service" before).1

abbrev opened_journal : Upgrade
opened_journal = record {
  stream = journal_stream "sshd.service";
  spawned = record {
    user_id = some 1;
    username = some "admin";
    ip = some "127.0.0.1";
    action = "view_logs";
    target = some "journal:sshd.service";
    detail = none;
  };
}

journal_runs :
    ws_journal floats quiet settings machine parts "sshd.service" before
    ≡ (ok opened_journal, after_journal)
unfolding ws_journal from_request_parts active_session ◌>>=◌ map_err get_conn statement now_unix
    reading find_active select_active touch update_session update_token client_ip slide as_i64 find
    sub_i64 half_ℤ validate_unit is_match utf8_len is_ascii_alphanumeric
journal_runs = refl

ws_journal-Viewed_example :
    Viewed floats quiet settings machine parts before "journal:sshd.service" opened_journal
      after_journal
    × IsUnitName "sshd.service"
    × (utf8_len "sshd.service" ≤ 256)
    × (journal_stream "sshd.service" ≡ journal_stream "sshd.service")
ws_journal-Viewed_example =
    ws_journal-Viewed floats quiet settings machine parts "sshd.service" before after_journal
      opened_journal journal_runs

abbrev file : Bytes
file = 104 ∷ 105 ∷ 10 ∷ []

-- A read that gives all that it is asked for.
abbrev read_all : Bytes → ℕ → ℕ → Result Anyhow Bytes
read_all f p n = ok (take n (drop p f))

abbrev reads_all : (f : Bytes) → ReadsFrom f (read_all f)
reads_all f = record {
  count = λ p n. n;
  reads = λ p n. refl;
  some_bytes = λ p n h. h;
  at_most = λ p n. omega arith;
}

abbrev first_tail : Tail
first_tail = record { pos = 3; sent = file ∷ [] }

abbrev second_tail : Tail
second_tail = record { pos = 4; sent = file ∷ (33 ∷ []) ∷ [] }

-- The file gets one byte more, and is then replaced by one of two bytes.
abbrev fresh_file : Bytes
fresh_file = 121 ∷ 10 ∷ []

abbrev third_tail : Tail
third_tail = record { pos = 2; sent = file ∷ (33 ∷ []) ∷ fresh_file ∷ [] }

tail-Follows_example :
    Follows (record { past = file ++ 33 ∷ []; start = 0; file = fresh_file }) third_tail
unfolding tail_start tail_step drop take
tail-Follows_example = tail-Follows file {t = first_tail} refl (
    rotates fresh_file (read_all fresh_file)
      (ticks {t'' = second_tail} (read_all (file ++ 33 ∷ [])) (grows (33 ∷ []) same)
        (reads_all (file ++ 33 ∷ [])) refl)
      (omega arith) (reads_all fresh_file) refl)

tail_file_catches_up_example :
    (t : Tail) × (tail_file
        (ok 3)
        (λ p. ok (drop p file))
        true
        (rounds 1 (tick (opened (ok 4) (read_all (file ++ 33 ∷ []))) true))
      ≡ running t)
    × (t.pos ≡ 4)
    × (concat t.sent ≡ drop 0 (file ++ 33 ∷ []))
unfolding drop take
tail_file_catches_up_example =
    tail_file_catches_up file (33 ∷ []) (read_all (file ++ 33 ∷ [])) (reads_all (file ++ 33 ∷ [])) 1
      (λ p n. refl) (omega arith)

-- A client that closes ends the function.
close_returns :
    tail_file (ok 3) (λ p. ok (drop p file)) true (received close ∷ []) ≡ returned first_tail
unfolding tail_file tail_start tail_loop tail_step drop
close_returns = refl

abbrev twice : Tail
twice = record { pos = 4; sent = (file ++ 33 ∷ []) ∷ (33 ∷ []) ∷ [] }

tail_sends_twice_example : concat twice.sent ≡ drop 0 (file ++ 33 ∷ []) ++ 33 ∷ []
unfolding tail_start tail_step drop take
tail_sends_twice_example =
    tail_sends_twice file (33 ∷ []) (record { pos = 3; sent = (file ++ 33 ∷ []) ∷ [] }) twice
      (read_all (file ++ 33 ∷ [])) (reads_all (file ++ 33 ∷ [])) (λ p n. refl) (omega arith)
      (omega arith) refl refl

stream_docker-Passed_example :
    stream_docker
      (chunk (some (ok (7 ∷ []))) true ∷ chunk (some (ok [])) true ∷ from_client close ∷ [])
    ≡ record { sent = log_bytes (7 ∷ []) ∷ []; ending = finished }
stream_docker-Passed_example =
    stream_docker-Passed (chunk (some (ok (7 ∷ []))) true ∷ chunk (some (ok [])) true ∷ []) []
      (from_client close) (log_bytes (7 ∷ []) ∷ []) []
      (then_event (taken 7 []) (then_event (empty_chunk true) at_start)) on_close

-- A child as whether it runs and is killed when it is dropped; its kill fails.
abbrev processes : Tokio
processes = record {
  Child = Bool × Bool;
  spawn = λ kill_on_drop program args. ok (true, kill_on_drop);
  take = λ c. some c;
  kill = λ c. (err (msg "no such process"), c);
  drop = λ (runs, kill_on_drop). (runs && not kill_on_drop, kill_on_drop);
}

processes-TokioLaws : TokioLaws processes
processes-TokioLaws = record {
  KilledOnDrop = λ (runs, kill_on_drop). kill_on_drop ≡ true;
  Runs = λ (runs, kill_on_drop). runs ≡ true;
  spawned = λ program args c e. ground (arith, e);
  taken = λ c d e k. ground (arith, e, k);
  killed = λ c k. k;
  dropped = λ c k runs. ground (arith, k, runs);
}

stream_journal-Lines_example :
    (child : Bool × Bool) × (stream_journal processes "ssh.service"
        (line (ok (some "up")) true ∷ heard close ∷ [])
      ≡ record { sent = "up\n" ∷ []; returned = some (ok tt); child = some child })
    × ¬ processes-TokioLaws.Runs child
stream_journal-Lines_example =
    stream_journal-Lines processes processes-TokioLaws "ssh.service" (true, true) (true, true)
      (line (ok (some "up")) true ∷ []) [] (heard close) ("up\n" ∷ []) finished refl refl
      (taken_line "up" no_lines) heard_close
