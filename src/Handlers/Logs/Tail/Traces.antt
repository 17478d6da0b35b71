-- ===== src/Handlers/Logs/Tail/Traces.antt =====
-- src/handlers/logs.rs, `tail_file` on a file that grows and is rotated, over any number of turns.
use vps_monitor_webui.Prelude.{
  ℕ, ◌-◌, ◌<◌, ◌≡◌, sym, ap, ◌∙◌, subst, true, [], arith, length, take, drop, Bool,
}
use vps_monitor_webui.Result.{Result, ok}
use vps_monitor_webui.Error.{Anyhow}
use vps_monitor_webui.Handlers.Logs.Tail.{
  Bytes, Tail, tick, received, missing, opened, other_message, running, tail_start, tail_step,
  tail_initial_bytes,
}
use vps_monitor_webui.Handlers.Logs.Tail.Follow.{
  ReadsFrom, Source, Follows, tick-Follows, grown, grows-Follows, replaced, replaced-Follows,
  take-length, start_lem,
}

-- The loop from `s` and `t` on, while the client takes what is sent, the file only grows, or is replaced
-- by one that is shorter than the position.
pub data Following (s : Source) (t : Tail) : Source → Tail → Type 0 where
  same : Following s t s t
  grows :
      {s' : Source} {t' : Tail} (more : Bytes)
      → Following s t s' t'
      → Following s t (grown s' more) t'
  ticks :
      {s' : Source} {t' t'' : Tail} (read : ℕ → ℕ → Result Anyhow Bytes)
      → Following s t s' t'
      → ReadsFrom s'.file read
      → tail_step t' (tick (opened (ok (length s'.file)) read) true) ≡ running t''
      → Following s t s' t''
  rotates :
      {s' : Source} {t' t'' : Tail} (fresh : Bytes) (read : ℕ → ℕ → Result Anyhow Bytes)
      → Following s t s' t'
      → length fresh < t'.pos
      → ReadsFrom fresh read
      → tail_step t' (tick (opened (ok (length fresh)) read) true) ≡ running t''
      → Following s t (replaced s' t' fresh) t''
  skips :
      {s' : Source} {t' t'' : Tail} (delivers : Bool)
      → Following s t s' t'
      → tail_step t' (tick missing delivers) ≡ running t''
      → Following s t s' t''
  hears :
      {s' : Source} {t' t'' : Tail}
      → Following s t s' t'
      → tail_step t' (received other_message) ≡ running t''
      → Following s t s' t''

Following-Follows :
    {s : Source} {t : Tail} {s' : Source} {t' : Tail}
    → Follows s t
    → Following s t s' t'
    → Follows s' t'
unfolding tail_step
Following-Follows f same = f
Following-Follows f (grows more g) = grows-Follows _ more _ (Following-Follows f g)
Following-Follows f (ticks read g r h) = tick-Follows _ _ _ (Following-Follows f g) read r h
Following-Follows f (rotates fresh read g shorter r h) =
    replaced-Follows _ _ _ fresh read (Following-Follows f g) shorter r h
Following-Follows f (skips delivers g h) =
    subst (Follows _) (ground (arith, h)) (Following-Follows f g)
Following-Follows f (hears g h) = subst (Follows _) (ground (arith, h)) (Following-Follows f g)

-- The file at the start, of which the last 8 KiB are sent.
abbrev pub first_source : Bytes → Source
first_source file = record { past = []; start = length file - tail_initial_bytes; file = file }

-- If the file does not change while the first chunk is read, and from then on grows or is replaced by
-- one that is shorter than the position, then at any time the messages together are, of the first file,
-- the bytes from its last 8 KiB on, of each later one all from its start on, each up to the position
-- that was reached: none of them is lost, repeated or out of order, whatever the sizes of the reads, and
-- however often the file cannot be opened or the client says something.
pub tail-Follows :
    (file : Bytes) {s : Source} {t t' : Tail}
    → tail_start (ok (length file)) (λ p. ok (drop p file)) true ≡ running t
    → Following (first_source file) t s t'
    → Follows s t'
tail-Follows file {t} h g =
    let s = start_lem (length file) (λ p. drop p file) t h in
    Following-Follows
      (record {
        within = omega (arith, s.0);
        begun = omega (arith, s.0);
        exact =
            s.1
            ∙ ap (λ l. drop (length file - tail_initial_bytes) l)
                (sym (take-length file) ∙ ap (λ n. take n file) (sym s.0));
      })
      g
