-- ===== src/Handlers/Logs/Tail/CatchUp.antt =====
-- src/handlers/logs.rs, `tail_file`: how many ticks the rest of a file takes.
use vps_monitor_webui.Prelude.{
  drop, take, ℕ, zero, suc, ◌+◌, ◌-◌, ◌*◌, ◌≤◌, ◌≡◌, refl, ◌∙◌, ap, true, List, [], ◌∷◌, arith,
  length, length-append, ◌++◌, ltb, Bool-cases, inl, inr,
}
use vps_monitor_webui.Result.{Result, ok}
use vps_monitor_webui.Error.{Anyhow}
use vps_monitor_webui.Handlers.Logs.Tail.{
  Bytes, Tail, Event, tick, opened, running, max_chunk, tail_initial_bytes, send, tail_step,
  tail_loop, tail_start, tail_file,
}
use vps_monitor_webui.Handlers.Logs.Tail.Follow.{
  ReadsFrom, Source, Follows, grown, asked, got, length-got, tick_lem, tick-Follows, concat,
  take-length,
}
use vps_monitor_webui.Handlers.Logs.Tail.Traces.{same, grows, first_source, tail-Follows}

abbrev pub rounds : ℕ → Event → List Event
rounds zero e = []
rounds (suc n) e = e ∷ rounds n e

send_runs :
    (pos : ℕ) (chunk : Bytes) (sent : List Bytes)
    → (t : Tail) × (send true pos chunk sent ≡ running t) × (t.pos ≡ pos)
send_runs pos [] sent = (record { pos = pos; sent = sent }, refl, refl)
send_runs pos (b ∷ bs) sent = (_, refl, refl)

module _ (s : Source) (read : ℕ → ℕ → Result Anyhow Bytes) (r : ReadsFrom s.file read)
    (full : (p n : ℕ) → r.count p n ≡ n) where
  step_runs :
      (t : Tail)
      → t.pos ≤ length s.file
      → (t' : Tail) × (tail_step t (tick (opened (ok (length s.file)) read) true) ≡ running t')
        × (t'.pos ≡ t.pos + asked s.file t)
  step_runs t w = elim (Bool-cases (ltb t.pos (length s.file))) [
    | inl more ↦
        let bytes = got s.file t read r in
        let p = send_runs (t.pos + length bytes) bytes t.sent in
        (
          p.0,
          rw (tick_lem s.file t read r w, more) p.1,
          omega (arith, p.2, length-got s.file t read r w, full t.pos (asked s.file t)),
        )
    | inr done ↦
        let over : length s.file ≤ t.pos = ground arith in
        (t, rw (tick_lem s.file t read r w, done), omega arith)
  ]

  loop_catches_up :
      (k : ℕ) (t : Tail)
      → Follows s t
      → length s.file - t.pos ≤ k * max_chunk
      → (t' : Tail) × (tail_loop t (rounds k (tick (opened (ok (length s.file)) read) true))
          ≡ running t')
        × (t'.pos ≡ length s.file)
        × (concat t'.sent ≡ s.past ++ drop s.start s.file)
  unfolding tail_loop
  loop_catches_up zero t f left =
      let at_end : t.pos ≡ length s.file = omega (arith, f.within) in
      (
        t,
        refl,
        at_end,
        f.exact
            ∙ ap (λ n. s.past ++ drop s.start (take n s.file)) at_end
            ∙ ap (λ l. s.past ++ drop s.start l) (take-length s.file),
      )
  loop_catches_up (suc k) t f left =
      let turn = step_runs t f.within in
      let rest =
        loop_catches_up k turn.0 (tick-Follows s t turn.0 f read r turn.1)
          (omega (arith, turn.2, left)) in
      (rest.0, rw turn.1 rest.1, rest.2, rest.3)

-- If the file gets `more` bytes after the first chunk was read, and the client takes what is sent, then
-- after as many ticks as these bytes have chunks of 1 MiB, each of which reads all that it asks for,
-- the function still runs, and what it has sent is the file from 8 KiB before its first end up to its
-- new end, once.
pub tail_file_catches_up :
    (file more : Bytes) (read : ℕ → ℕ → Result Anyhow Bytes) (r : ReadsFrom (file ++ more) read)
    (k : ℕ)
    → ((p n : ℕ) → r.count p n ≡ n)
    → length more ≤ k * max_chunk
    → (t : Tail) × (tail_file
          (ok (length file))
          (λ p. ok (drop p file))
          true
          (rounds k (tick (opened (ok (length (file ++ more))) read) true))
        ≡ running t)
      × (t.pos ≡ length (file ++ more))
      × (concat t.sent ≡ drop (length file - tail_initial_bytes) (file ++ more))
unfolding tail_file tail_start
tail_file_catches_up file more read r k full few =
    let begun = send_runs (length file) (drop (length file - tail_initial_bytes) file) [] in
    let f = tail-Follows file begun.1 (grows more same) in
    let rest =
      loop_catches_up (grown (first_source file) more) read r full k begun.0 f
        (omega (arith, begun.2, length-append {0} file more, few)) in
    (rest.0, rw begun.1 rest.1, rest.2, rest.3)
