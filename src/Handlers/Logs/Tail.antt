-- ===== src/Handlers/Logs/Tail.antt =====
-- src/handlers/logs.rs, `tail_file`: following a file that grows. The file is known by what the
-- system answers; a message is kept as the bytes that `from_utf8_lossy` makes a text of.
pub mod Follow
pub mod Traces
pub mod CatchUp
pub mod Twice
use Prim.Native.Nat.{min}
use vps_monitor_webui.Prelude.{
  ℕ, ◌+◌, ◌-◌, ◌*◌, ◌^◌, Bool, true, false, List, [], ◌∷◌, ◌++◌, ltb, leb, length, if◌then◌else◌,
}
use vps_monitor_webui.Result.{Result, ok, err}
use vps_monitor_webui.Error.{Anyhow}

abbrev pub Bytes : Type 0
Bytes = List ℕ

abbrev pub tail_initial_bytes : ℕ
tail_initial_bytes = 8 * 1024

-- The most that one tick reads: 1 << 20.
abbrev pub max_chunk : ℕ
max_chunk = 2 ^ 20

-- What `recv` gives: a message to close, the end, an error, or any other message.
pub data Received : Type 0 where
  close ended failed other_message : Received

-- The file at a tick. `read p n` is what a read of at most `n` bytes gives after a seek to `p`.
pub data Seen : Type 0 where
  missing : Seen
  opened : (metadata : Result Anyhow ℕ) → (read : ℕ → ℕ → Result Anyhow Bytes) → Seen

-- What wakes the loop; `delivers` is whether the client takes the message that is sent, if any.
pub data Event : Type 0 where
  tick : (file : Seen) → (delivers : Bool) → Event
  received : Received → Event

-- `pos`, and the messages that were sent.
pub record Tail : Type 0 where
  pub pos : ℕ
  pub sent : List Bytes

-- A loop that goes on, one that has returned, and one that has failed.
pub data Outcome : Type 0 where
  running : Tail → Outcome
  returned : Tail → Outcome
  stopped : Anyhow → Tail → Outcome

-- Nothing is sent for no bytes, and a message that is not taken ends the loop.
abbrev pub send : Bool → ℕ → Bytes → List Bytes → Outcome
send delivers pos [] sent = running (record { pos = pos; sent = sent })
send true pos (b ∷ bs) sent = running (record { pos = pos; sent = sent ++ (b ∷ bs) ∷ [] })
send false pos (b ∷ bs) sent = returned (record { pos = pos; sent = sent })

abbrev first_chunk : ℕ → Bool → Result Anyhow Bytes → Outcome
first_chunk len delivers (ok buf) = send delivers len buf []
first_chunk len delivers (err e) = stopped e (record { pos = len; sent = [] })

-- The first chunk. `len` is the length by the metadata, and `read_to_end p` all bytes from `p` on.
unfoldable pub tail_start : Result Anyhow ℕ → (ℕ → Result Anyhow Bytes) → Bool → Outcome
tail_start (ok len) read_to_end delivers =
    first_chunk len delivers (read_to_end (len - tail_initial_bytes))
tail_start (err e) read_to_end delivers = stopped e (record { pos = 0; sent = [] })

abbrev pub on_read : Bool → Tail → ℕ → Result Anyhow Bytes → Outcome
on_read delivers t pos (ok chunk) = send delivers (pos + length chunk) chunk t.sent
on_read delivers t pos (err e) = stopped e (record t { pos = pos })

-- A shorter file was truncated or rotated, and is read from its start.
abbrev pub position : ℕ → ℕ → ℕ
position new_len pos = if ltb new_len pos then 0 else pos

abbrev pub on_length : Bool → Tail → (ℕ → ℕ → Result Anyhow Bytes) → ℕ → Outcome
on_length delivers t read new_len =
    let pos = position new_len t.pos in
    if ltb pos new_len
    then on_read delivers t pos (read pos (min (new_len - pos) max_chunk))
    else running (record t { pos = pos })

abbrev pub on_tick : Tail → Seen → Bool → Outcome
on_tick t missing delivers = running t
on_tick t (opened (err e) read) delivers = stopped e t
on_tick t (opened (ok new_len) read) delivers = on_length delivers t read new_len

abbrev pub on_message : Tail → Received → Outcome
on_message t other_message = running t
on_message t close = returned t
on_message t ended = returned t
on_message t failed = returned t

unfoldable pub tail_step : Tail → Event → Outcome
tail_step t (tick file delivers) = on_tick t file delivers
tail_step t (received m) = on_message t m

abbrev resume : (Tail → Outcome) → Outcome → Outcome
resume f (running t) = f t
resume f o = o

-- The loop over what wakes it.
unfoldable pub tail_loop : Tail → List Event → Outcome
unfolding tail_step
tail_loop t [] = running t
tail_loop t (e ∷ es) = resume (λ t'. tail_loop t' es) (tail_step t e)

-- The whole function: the first chunk, then the loop.
unfoldable pub tail_file : Result Anyhow ℕ → (ℕ → Result Anyhow Bytes) → Bool → List Event → Outcome
unfolding tail_start tail_loop
tail_file metadata read_to_end delivers es =
    resume (λ t. tail_loop t es) (tail_start metadata read_to_end delivers)
