-- ===== src/Handlers/Logs/Streams.antt =====
-- src/handlers/logs.rs, `stream_docker` and `stream_journal`: the loops over what the daemon or the
-- command gives and what the client says. A chunk is kept as its bytes, of which `from_utf8_lossy`
-- makes the text that is sent.
pub mod Forwarded
use Prim.Native.String.{◌++◌}
use mathlib.Core.List.{◌++◌ as append}
use vps_monitor_webui.Prelude.{ℕ, String, Bool, true, false, List, [], ◌∷◌, Option, none, some}
use vps_monitor_webui.Result.{Result, ok, err}
use vps_monitor_webui.Error.{Anyhow, msg}
use vps_monitor_webui.Handlers.Logs.Tail.{Bytes, Received, close, ended, failed, other_message}

-- What a loop has sent, whether it runs on, and how it ended.
pub data Ending : Type 0 where
  going : Ending
  finished : Ending
  broken : Anyhow → Ending

pub record Forwarding (M : Type 0) : Type 0 where
  pub sent : List M
  pub ending : Ending

module _ {M : Type 0} where
  -- sock.send(m): a client that does not take it ends the loop.
  abbrev pub send_to : Bool → M → List M → Forwarding M
  send_to true m sent = record { sent = append sent (m ∷ []); ending = going }
  send_to false m sent = record { sent = sent; ending = finished }

  abbrev pub stop : List M → Forwarding M
  stop sent = record { sent = sent; ending = finished }

  abbrev pub go_on : List M → Forwarding M
  go_on sent = record { sent = sent; ending = going }

  -- The arm of `sock.recv()`.
  abbrev pub on_received : Received → List M → Forwarding M
  on_received close sent = stop sent
  on_received ended sent = stop sent
  on_received failed sent = stop sent
  on_received other_message sent = go_on sent

pub data DockerMessage : Type 0 where
  log_bytes : Bytes → DockerMessage
  error_text : String → DockerMessage

-- What wakes the loop; `delivers` is whether the client takes a message that is sent. The error of a
-- chunk is its text.
pub data DockerEvent : Type 0 where
  chunk : Option (Result String Bytes) → (delivers : Bool) → DockerEvent
  from_client : Received → DockerEvent

abbrev pub on_bytes : Bool → Bytes → List DockerMessage → Forwarding DockerMessage
on_bytes delivers [] sent = go_on sent
on_bytes delivers (b ∷ bs) sent = send_to delivers (log_bytes (b ∷ bs)) sent

-- The stream's error is told to the client if it takes it, and ends the loop.
abbrev pub on_error : Bool → String → List DockerMessage → Forwarding DockerMessage
on_error true e sent = stop (append sent (error_text ("\n[stream error] " ++ e ++ "\n") ∷ []))
on_error false e sent = stop sent

unfoldable pub docker_step : DockerEvent → List DockerMessage → Forwarding DockerMessage
docker_step (chunk none delivers) sent = stop sent
docker_step (chunk (some (ok bytes)) delivers) sent = on_bytes delivers bytes sent
docker_step (chunk (some (err e)) delivers) sent = on_error delivers e sent
docker_step (from_client m) sent = on_received m sent

-- `next_line()`: a line, the end, or an error, which leaves the function by `?`.
pub data JournalEvent : Type 0 where
  line : Result Anyhow (Option String) → (delivers : Bool) → JournalEvent
  heard : Received → JournalEvent

unfoldable pub journal_step : JournalEvent → List String → Forwarding String
journal_step (line (ok (some l)) delivers) sent = send_to delivers (l ++ "\n") sent
journal_step (line (ok none) delivers) sent = stop sent
journal_step (line (err e) delivers) sent = record { sent = sent; ending = broken e }
journal_step (heard m) sent = on_received m sent

-- A loop over what wakes it, from what it has sent so far.
module _ {E M : Type 0} (step : E → List M → Forwarding M) where
  abbrev resume : (List M → Forwarding M) → Ending → List M → Forwarding M
  resume f going sent = f sent
  resume f finished sent = record { sent = sent; ending = finished }
  resume f (broken e) sent = record { sent = sent; ending = broken e }

  unfoldable pub forward : List E → List M → Forwarding M
  forward [] sent = go_on sent
  forward (e ∷ es) sent = let r = step e sent in resume (λ more. forward es more) r.ending r.sent

unfoldable pub stream_docker : List DockerEvent → Forwarding DockerMessage
unfolding forward docker_step
stream_docker es = forward docker_step es []

-- What tokio gives for a child process. `spawn` has its output piped; `take` takes the pipe out of the
-- child, if there is one; `kill` gives its own result and what became of the child; `drop` is what
-- becomes of a child that goes out of scope.
pub record Tokio : Type 1 where
  pub Child : Type 0
  pub spawn :
      (kill_on_drop : Bool) → (program : String) → (args : List String) → Result Anyhow Child
  pub take : Child → Option Child
  pub kill : Child → Result Anyhow (Unit {0}) × Child
  pub drop : Child → Child

-- What a call has sent, what it has returned, if it has, and the child, if one was spawned.
pub record JournalRun (tokio : Tokio) : Type 0 where
  pub sent : List String
  pub returned : Option (Result Anyhow (Unit {0}))
  pub child : Option tokio.Child

-- journalctl -fu UNIT …
abbrev pub journal_args : String → List String
journal_args unit = "-fu" ∷ unit ∷ "--no-pager" ∷ "--output=short-iso" ∷ "-n" ∷ "200" ∷ []

module _ (tokio : Tokio) where
  -- A return before the kill: the child is dropped.
  abbrev give_up : List String → Anyhow → tokio.Child → JournalRun tokio
  give_up sent e child = record {
    sent = sent;
    returned = some (err e);
    child = some (tokio.drop child);
  }

  -- After the loop: `let _ = child.kill().await`, whose result is not looked at, and the child is dropped.
  abbrev pub after_loop : List String → Ending → tokio.Child → JournalRun tokio
  after_loop sent going child = record { sent = sent; returned = none; child = some child }
  after_loop sent finished child =
      let killed = (tokio.kill child).1 in
      record { sent = sent; returned = some (ok tt); child = some (tokio.drop killed) }
  after_loop sent (broken e) child = give_up sent e child

  abbrev with_stdout : List JournalEvent → tokio.Child → Option tokio.Child → JournalRun tokio
  with_stdout es child none = give_up [] (msg "no stdout") child
  with_stdout es child (some taken) =
      let r = forward journal_step es [] in after_loop r.sent r.ending taken

  abbrev with_child : List JournalEvent → Result Anyhow tokio.Child → JournalRun tokio
  with_child es (err e) = record { sent = []; returned = some (err e); child = none }
  with_child es (ok child) = with_stdout es child (tokio.take child)

  unfoldable pub stream_journal : String → List JournalEvent → JournalRun tokio
  unfolding forward journal_step
  stream_journal unit es = with_child es (tokio.spawn true "journalctl" (journal_args unit))
