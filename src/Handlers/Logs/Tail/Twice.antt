-- ===== src/Handlers/Logs/Tail/Twice.antt =====
-- src/handlers/logs.rs, `tail_file`: bytes that come between `metadata` and `read_to_end`.
use vps_monitor_webui.Prelude.{
  ℕ, ◌+◌, ◌-◌, ◌≤◌, ◌<◌, ◌≡◌, refl, ap, ◌∙◌, true, [], ◌∷◌, ◌++◌, arith, ltb, length, drop, take,
  length-append,
}
use vps_monitor_webui.Result.{Result, ok}
use vps_monitor_webui.Error.{Anyhow}
use vps_monitor_webui.Handlers.Logs.Tail.{
  Bytes, Tail, tick, opened, running, max_chunk, tail_initial_bytes, tail_start, tail_step,
}
use vps_monitor_webui.Handlers.Logs.Tail.Follow.{
  ReadsFrom, concat, asked, got, tick_lem, start_lem, send_taken, take-length,
}

drop-append : (file more : Bytes) → drop (length file) (file ++ more) ≡ more
unfolding drop
drop-append [] more = refl
drop-append (b ∷ file) more = drop-append file more

-- If the file grows by `more`, of at most 1 MiB, between the reading of its length and that of its
-- bytes, the first chunk has these bytes already, and the next tick that reads all it asks for
-- sends them again.
pub tail_sends_twice :
    (file more : Bytes) (t t' : Tail) (read : ℕ → ℕ → Result Anyhow Bytes)
    (r : ReadsFrom (file ++ more) read)
    → ((p n : ℕ) → r.count p n ≡ n)
    → 0 < length more
    → length more ≤ max_chunk
    → tail_start (ok (length file)) (λ p. ok (drop p (file ++ more))) true ≡ running t
    → tail_step t (tick (opened (ok (length (file ++ more))) read) true) ≡ running t'
    → concat t'.sent ≡ drop (length file - tail_initial_bytes) (file ++ more) ++ more
tail_sends_twice file more t t' read r full some_more few begun goes =
    let s = start_lem (length file) (λ p. drop p (file ++ more)) t begun in
    let size = length-append {0} file more in
    let within : t.pos ≤ length (file ++ more) = omega (arith, s.0, size) in
    let behind : t.pos < length (file ++ more) = omega (arith, s.0, size) in
    let test : ltb t.pos (length (file ++ more)) ≡ true = ground (arith, behind) in
    let p =
      send_taken (t.pos + length (got (file ++ more) t read r)) (got (file ++ more) t read r) t.sent
        t' (rw (tick_lem (file ++ more) t read r within, test) at goes) in
    let n : r.count t.pos (asked (file ++ more) t) ≡ length more =
      omega (arith, full t.pos (asked (file ++ more) t), s.0, size) in
    p.1
    ∙ ap (λ l. l ++ got (file ++ more) t read r) s.1
    ∙ ap (λ l. drop (length file - tail_initial_bytes) (file ++ more) ++ l)
        (ap (λ k. take k (drop t.pos (file ++ more))) n
          ∙ ap (λ q. take (length more) (drop q (file ++ more))) s.0
          ∙ ap (take (length more)) (drop-append file more)
          ∙ take-length more)
