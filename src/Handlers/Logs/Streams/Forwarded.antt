-- ===== src/Handlers/Logs/Streams/Forwarded.antt =====
-- src/handlers/logs.rs, `stream_docker` and `stream_journal`: what is sent, in what order, until when.
use Prim.Native.String.{◌++◌}
use mathlib.Core.List.{◌++◌ as append, append-nil, append_assoc}
use vps_monitor_webui.Prelude.{
  ℕ, String, Bool, true, false, ◌≡◌, refl, ap, ◌∙◌, List, [], ◌∷◌, Option, none, some, arith,
}
use vps_monitor_webui.Result.{Result, ok, err}
use vps_monitor_webui.Error.{Anyhow}
use vps_monitor_webui.Handlers.Logs.Tail.{Bytes, other_message, close, ended, failed}
use vps_monitor_webui.Handlers.Logs.Streams.{
  Ending, going, finished, broken, DockerMessage, log_bytes, error_text, DockerEvent, chunk,
  from_client, docker_step, JournalEvent, line, heard, journal_step, forward, stream_docker,
  stream_journal, Tokio, journal_args, after_loop,
}

-- An event that the Docker loop goes on after, and what it makes the loop send: a chunk that the
-- client takes, an empty chunk, or a word of the client.
pub data Ordinary : DockerEvent → List DockerMessage → Type 0 where
  taken :
      (b : ℕ) (bs : Bytes) → Ordinary (chunk (some (ok (b ∷ bs))) true) (log_bytes (b ∷ bs) ∷ [])
  empty_chunk : (delivers : Bool) → Ordinary (chunk (some (ok [])) delivers) []
  spoken : Ordinary (from_client other_message) []

-- An event that ends it, and what is still sent.
pub data Last : DockerEvent → List DockerMessage → Type 0 where
  stream_over : (delivers : Bool) → Last (chunk none delivers) []
  told :
      (e : String)
      → Last (chunk (some (err e)) true) (error_text ("\n[stream error] " ++ e ++ "\n") ∷ [])
  untold : (e : String) → Last (chunk (some (err e)) false) []
  not_taken : (b : ℕ) (bs : Bytes) → Last (chunk (some (ok (b ∷ bs))) false) []
  on_close : Last (from_client close) []
  on_end : Last (from_client ended) []
  on_failure : Last (from_client failed) []

-- The events of a list with what each makes the loop send.
pub data Passed : List DockerEvent → List DockerMessage → Type 0 where
  at_start : Passed [] []
  then_event :
      {e : DockerEvent} {es : List DockerEvent} {m ms : List DockerMessage}
      → Ordinary e m
      → Passed es ms
      → Passed (e ∷ es) (append m ms)

Ordinary-step :
    {e : DockerEvent} {m : List DockerMessage} (sent : List DockerMessage)
    → Ordinary e m
    → docker_step e sent ≡ record { sent = append sent m; ending = going }
unfolding docker_step
Ordinary-step sent (taken b bs) = refl
Ordinary-step sent (empty_chunk delivers) = ground (arith, append-nil sent)
Ordinary-step sent spoken = ground (arith, append-nil sent)

Last-step :
    {e : DockerEvent} {m : List DockerMessage} (sent : List DockerMessage)
    → Last e m
    → docker_step e sent ≡ record { sent = append sent m; ending = finished }
unfolding docker_step
Last-step sent (told e) = refl
Last-step sent (stream_over delivers) = ground (arith, append-nil sent)
Last-step sent (untold e) = ground (arith, append-nil sent)
Last-step sent (not_taken b bs) = ground (arith, append-nil sent)
Last-step sent on_close = ground (arith, append-nil sent)
Last-step sent on_end = ground (arith, append-nil sent)
Last-step sent on_failure = ground (arith, append-nil sent)

forward-Passed :
    (rest : List DockerEvent) {es : List DockerEvent} {ms : List DockerMessage} {e : DockerEvent}
    {m : List DockerMessage} (sent : List DockerMessage)
    → Passed es ms
    → Last e m
    → forward docker_step (append es (e ∷ rest)) sent
      ≡ record { sent = append (append sent ms) m; ending = finished }
unfolding forward
forward-Passed rest {m} sent at_start l = rw (Last-step sent l, append-nil sent)
forward-Passed rest {m} sent (then_event {m = n} {ms = ns} o p) l = rw (Ordinary-step sent o) (
    forward-Passed rest (append sent n) p l
    ∙ ap (λ x. record { sent = append x m; ending = finished }) (append_assoc sent n ns))

-- The Docker loop sends the chunks that are not empty, in their order, up to the first event that
-- ends it, and after that nothing: it ends where the stream is over or fails, of which it tells, where
-- a chunk is not taken, and where the client closes, ends or fails.
pub stream_docker-Passed :
    (es rest : List DockerEvent) (e : DockerEvent) (ms m : List DockerMessage)
    → Passed es ms
    → Last e m
    → stream_docker (append es (e ∷ rest)) ≡ record { sent = append ms m; ending = finished }
unfolding stream_docker
stream_docker-Passed es rest e ms m p l = forward-Passed rest [] p l

-- The lines of the journal that the client takes, and words of the client in between.
pub data Lines : List JournalEvent → List String → Type 0 where
  no_lines : Lines [] []
  taken_line :
      (l : String) {es : List JournalEvent} {ls : List String}
      → Lines es ls
      → Lines (line (ok (some l)) true ∷ es) ((l ++ "\n") ∷ ls)
  spoken_line :
      {es : List JournalEvent} {ls : List String}
      → Lines es ls
      → Lines (heard other_message ∷ es) ls

-- How the journal loop ends.
pub data LastLine : JournalEvent → Ending → Type 0 where
  journal_over : (delivers : Bool) → LastLine (line (ok none) delivers) finished
  line_failed : (e : Anyhow) (delivers : Bool) → LastLine (line (err e) delivers) (broken e)
  line_not_taken : (l : String) → LastLine (line (ok (some l)) false) finished
  heard_close : LastLine (heard close) finished
  heard_end : LastLine (heard ended) finished
  heard_failure : LastLine (heard failed) finished

forward-Lines :
    (rest : List JournalEvent) {es : List JournalEvent} {ls : List String} {e : JournalEvent}
    {how : Ending} (sent : List String)
    → Lines es ls
    → LastLine e how
    → forward journal_step (append es (e ∷ rest)) sent
      ≡ record { sent = append sent ls; ending = how }
unfolding forward journal_step
forward-Lines rest sent no_lines (journal_over d) = ground (arith, append-nil sent)
forward-Lines rest sent no_lines (line_failed e d) = ground (arith, append-nil sent)
forward-Lines rest sent no_lines (line_not_taken l) = ground (arith, append-nil sent)
forward-Lines rest sent no_lines heard_close = ground (arith, append-nil sent)
forward-Lines rest sent no_lines heard_end = ground (arith, append-nil sent)
forward-Lines rest sent no_lines heard_failure = ground (arith, append-nil sent)
forward-Lines rest {how} sent (taken_line l {ls = ls} p) last =
    forward-Lines rest (append sent ((l ++ "\n") ∷ [])) p last
    ∙ ap (λ x. record { sent = x; ending = how }) (append_assoc sent ((l ++ "\n") ∷ []) ls)
forward-Lines rest sent (spoken_line p) last = forward-Lines rest sent p last

-- What tokio documents of a child: whether it is one that is killed when it is dropped is settled by the
-- spawn, and neither taking its pipe nor a kill, one that fails too, changes that; and such a child does
-- not run on after it was dropped.
pub record TokioLaws (tokio : Tokio) : Type 1 where
  pub KilledOnDrop : tokio.Child → Type 0
  pub Runs : tokio.Child → Type 0
  pub spawned :
      (program : String) (args : List String) (c : tokio.Child)
      → tokio.spawn true program args ≡ ok c
      → KilledOnDrop c
  pub taken : (c d : tokio.Child) → tokio.take c ≡ some d → KilledOnDrop c → KilledOnDrop d
  pub killed : (c : tokio.Child) → KilledOnDrop c → KilledOnDrop (tokio.kill c).1
  pub dropped : (c : tokio.Child) → KilledOnDrop c → ¬ Runs (tokio.drop c)

-- What the function returns after the event that ends its loop.
abbrev returned_by : Ending → Option (Result Anyhow (Unit {0}))
returned_by going = none
returned_by finished = some (ok tt)
returned_by (broken e) = some (err e)

module _ (tokio : Tokio) (laws : TokioLaws tokio) (unit : String) where
  after_loop-Lines :
      (c : tokio.Child) (ls : List String) {e : JournalEvent} {how : Ending}
      → laws.KilledOnDrop c
      → LastLine e how
      → (child : tokio.Child) × (after_loop tokio ls how c
          ≡ record { sent = ls; returned = returned_by how; child = some child })
        × ¬ laws.Runs child
  after_loop-Lines c ls k (journal_over d) =
      (tokio.drop (tokio.kill c).1, refl, laws.dropped (tokio.kill c).1 (laws.killed c k))
  after_loop-Lines c ls k (line_failed e d) = (tokio.drop c, refl, laws.dropped c k)
  after_loop-Lines c ls k (line_not_taken l) =
      (tokio.drop (tokio.kill c).1, refl, laws.dropped (tokio.kill c).1 (laws.killed c k))
  after_loop-Lines c ls k heard_close =
      (tokio.drop (tokio.kill c).1, refl, laws.dropped (tokio.kill c).1 (laws.killed c k))
  after_loop-Lines c ls k heard_end =
      (tokio.drop (tokio.kill c).1, refl, laws.dropped (tokio.kill c).1 (laws.killed c k))
  after_loop-Lines c ls k heard_failure =
      (tokio.drop (tokio.kill c).1, refl, laws.dropped (tokio.kill c).1 (laws.killed c k))

  -- Where journalctl is started with its output piped: the loop sends each line with a line feed, in their
  -- order, up to the first event that ends it, and after that nothing; the function then returns, with the
  -- error of the line if that is what ended it and else with success; and by what tokio documents of a child
  -- that is killed when it is dropped, the child does not run on, even where the kill fails.
  pub stream_journal-Lines :
      (c d : tokio.Child) (es rest : List JournalEvent) (e : JournalEvent) (ls : List String)
      (how : Ending)
      → tokio.spawn true "journalctl" (journal_args unit) ≡ ok c
      → tokio.take c ≡ some d
      → Lines es ls
      → LastLine e how
      → (child : tokio.Child) × (stream_journal tokio unit (append es (e ∷ rest))
          ≡ record { sent = ls; returned = returned_by how; child = some child })
        × ¬ laws.Runs child
  unfolding stream_journal
  stream_journal-Lines c d es rest e ls how started piped p last =
      let k = laws.taken c d piped (laws.spawned "journalctl" (journal_args unit) c started) in
      let r = after_loop-Lines d ls k last in
      (
        r.0,
        rw (started, piped)
            (ap (λ f. after_loop tokio f.sent f.ending d) (forward-Lines rest [] p last) ∙ r.1),
        r.2,
      )
