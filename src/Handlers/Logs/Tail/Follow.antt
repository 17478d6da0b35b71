-- ===== src/Handlers/Logs/Tail/Follow.antt =====
-- src/handlers/logs.rs, `tail_file`: what one tick sends of a file that has grown or is a new one.
use Prim.Native.Nat.{min}
use vps_monitor_webui.Prelude.{
  ℕ, zero, suc, ◌+◌, ◌-◌, ◌≤◌, ◌<◌, ◌≡◌, refl, sym, ap, ◌∙◌, subst, true, false, List, [], ◌∷◌,
  ◌++◌, arith, ltb, length, take, drop, if◌then◌else◌, Bool-cases, inl, inr, length-append,
  length-take,
}
use native.Mathlib.Nat.{zero-add, suc-add}
use mathlib.Core.List.{append-nil, append_assoc}
use vps_monitor_webui.Result.{Result, ok}
use vps_monitor_webui.Error.{Anyhow}
use vps_monitor_webui.Handlers.Logs.Tail.{
  Bytes, Tail, tick, opened, running, max_chunk, send, tail_start, tail_step, tail_initial_bytes,
}

-- The bytes of several messages.
abbrev pub concat : List Bytes → Bytes
concat [] = []
concat (m ∷ ms) = m ++ concat ms

concat-append : (ms : List Bytes) (m : Bytes) → concat (ms ++ m ∷ []) ≡ concat ms ++ m
concat-append [] m = append-nil m
concat-append (n ∷ ms) m =
    ap (λ x. n ++ x) (concat-append ms m) ∙ sym (append_assoc n (concat ms) m)

-- The bytes of the file from `from` up to `to`.
abbrev pub slice : ℕ → ℕ → Bytes → Bytes
slice from to file = drop from (take to file)

-- A read that gives some of the bytes that are there, at least one and at most those asked for.
pub record ReadsFrom (file : Bytes) (read : ℕ → ℕ → Result Anyhow Bytes) : Type 0 where
  pub count : ℕ → ℕ → ℕ
  pub reads : (p n : ℕ) → read p n ≡ ok (take (count p n) (drop p file))
  pub some_bytes : (p n : ℕ) → 0 < n → 0 < count p n
  pub at_most : (p n : ℕ) → count p n ≤ n

-- What is followed: the bytes that were sent of former files, the place in the file where the sending
-- began, and the file.
pub record Source : Type 0 where
  pub past : Bytes
  pub start : ℕ
  pub file : Bytes

-- Behind those of former files, all bytes of the file from `start` up to the position were sent, once
-- and in order.
pub record Follows (s : Source) (t : Tail) : Type 0 where
  pub within : t.pos ≤ length s.file
  pub begun : s.start ≤ t.pos
  pub exact : concat t.sent ≡ s.past ++ slice s.start t.pos s.file

take-append : (n : ℕ) (file more : Bytes) → n ≤ length file → take n (file ++ more) ≡ take n file
unfolding take
take-append zero file more h = refl
take-append (suc n) [] more h = absurd (omega arith)
take-append (suc n) (b ∷ file) more h = ap (λ l. b ∷ l) (take-append n file more (omega arith))

-- One slice after another.
slice-append :
    (start p k : ℕ) (file : Bytes)
    → start ≤ p
    → p ≤ length file
    → slice start p file ++ take k (drop p file) ≡ slice start (p + k) file
unfolding take drop
slice-append zero zero k file h w = rw zero-add
slice-append zero (suc p) k [] h w = absurd (omega arith)
slice-append zero (suc p) k (b ∷ file) h w =
    rw suc-add (ap (λ l. b ∷ l) (slice-append zero p k file (omega arith) (omega arith)))
slice-append (suc s) zero k file h w = absurd (omega arith)
slice-append (suc s) (suc p) k [] h w = absurd (omega arith)
slice-append (suc s) (suc p) k (b ∷ file) h w =
    rw suc-add (slice-append s p k file (omega arith) (omega arith))

length-drop : (n : ℕ) (l : Bytes) → length (drop n l) ≡ length l - n
unfolding drop
length-drop zero l = omega arith
length-drop (suc n) [] = omega arith
length-drop (suc n) (x ∷ xs) = omega (arith, length-drop n xs)

pub send_taken :
    (pos : ℕ) (chunk : Bytes) (sent : List Bytes) (t : Tail)
    → send true pos chunk sent ≡ running t
    → (t.pos ≡ pos) × (concat t.sent ≡ concat sent ++ chunk)
send_taken pos [] sent t h = (ground arith, ground (arith, append-nil (concat sent)))
send_taken pos (b ∷ bs) sent t h = (ground arith, ground (arith, concat-append sent (b ∷ bs)))

-- What a tick asks for, and what it gets.
abbrev pub asked : Bytes → Tail → ℕ
asked file t = min (length file - t.pos) max_chunk

abbrev pub got :
    (file : Bytes) (t : Tail) (read : ℕ → ℕ → Result Anyhow Bytes) → ReadsFrom file read → Bytes
got file t read r = take (r.count t.pos (asked file t)) (drop t.pos file)

module _ (file : Bytes) (t : Tail) (read : ℕ → ℕ → Result Anyhow Bytes)
    (r : ReadsFrom file read) where
  pub length-got : t.pos ≤ length file → length (got file t read r) ≡ r.count t.pos (asked file t)
  length-got w = omega (
    arith,
    length-take (r.count t.pos (asked file t)) (drop t.pos file),
    length-drop t.pos file,
    r.at_most t.pos (asked file t),
  )

  -- A tick on a file that is not shorter than the position sends what it reads from there.
  pub tick_lem :
      t.pos ≤ length file
      → tail_step t (tick (opened (ok (length file)) read) true) ≡ (
          if ltb t.pos (length file)
          then send true (t.pos + length (got file t read r)) (got file t read r) t.sent
          else running t)
  unfolding tail_step
  tick_lem w =
      let back : ltb (length file) t.pos ≡ false = ground arith in
      rw (back, r.reads t.pos (asked file t))

module _ (s : Source) (t t' : Tail) (f : Follows s t) where
  pub tick-Follows :
      (read : ℕ → ℕ → Result Anyhow Bytes)
      → ReadsFrom s.file read
      → tail_step t (tick (opened (ok (length s.file)) read) true) ≡ running t'
      → Follows s t'
  tick-Follows read r h = elim (Bool-cases (ltb t.pos (length s.file))) [
    | inl more ↦
        let p =
          send_taken (t.pos + length (got s.file t read r)) (got s.file t read r) t.sent t'
            (rw (tick_lem s.file t read r f.within, more) at h) in
        let size = length-got s.file t read r f.within in
        record {
          within = omega (arith, p.0, size, r.at_most t.pos (asked s.file t), f.within);
          begun = omega (arith, p.0, f.begun);
          exact =
              p.1
              ∙ ap (λ l. l ++ got s.file t read r) f.exact
              ∙ append_assoc s.past (slice s.start t.pos s.file) (got s.file t read r)
              ∙ ap (λ l. s.past ++ l)
                  (slice-append s.start t.pos (r.count t.pos (asked s.file t)) s.file f.begun
                      f.within
                    ∙ ap (λ n. slice s.start n s.file) (omega (arith, p.0, size)));
        }
    | inr done ↦
        subst (Follows s) (ground (arith, rw (tick_lem s.file t read r f.within, done) at h)) f
  ]

abbrev pub grown : Source → Bytes → Source
grown s more = record s { file = s.file ++ more }

pub grows-Follows : (s : Source) (more : Bytes) (t : Tail) → Follows s t → Follows (grown s more) t
grows-Follows s more t f = record {
  within = omega (arith, f.within, length-append {0} s.file more);
  begun = f.begun;
  exact =
      f.exact ∙ ap (λ l. s.past ++ drop s.start l) (sym (take-append t.pos s.file more f.within));
}

-- A new file in the place of the old one, none of which was sent yet.
abbrev pub replaced : Source → Tail → Bytes → Source
replaced s t fresh = record { past = s.past ++ slice s.start t.pos s.file; start = 0; file = fresh }

abbrev rewound : Tail → Tail
rewound t = record t { pos = 0 }

rewound-Follows :
    (s : Source) (t : Tail) (fresh : Bytes) → Follows s t → Follows (replaced s t fresh) (rewound t)
unfolding take drop
rewound-Follows s t fresh f = record {
  within = omega arith;
  begun = omega arith;
  exact = f.exact ∙ sym (append-nil (s.past ++ slice s.start t.pos s.file));
}

-- A tick on a shorter file is one from its start.
tail_step-rewound :
    (t : Tail) (n : ℕ) (read : ℕ → ℕ → Result Anyhow Bytes)
    → n < t.pos
    → tail_step t (tick (opened (ok n) read) true)
      ≡ tail_step (rewound t) (tick (opened (ok n) read) true)
unfolding tail_step
tail_step-rewound t n read h =
    let shorter : ltb n t.pos ≡ true = ground (arith, h) in
    let start : ltb n 0 ≡ false = ground arith in rw shorter (rw start refl)

pub replaced-Follows :
    (s : Source) (t t' : Tail) (fresh : Bytes) (read : ℕ → ℕ → Result Anyhow Bytes)
    → Follows s t
    → length fresh < t.pos
    → ReadsFrom fresh read
    → tail_step t (tick (opened (ok (length fresh)) read) true) ≡ running t'
    → Follows (replaced s t fresh) t'
replaced-Follows s t t' fresh read f shorter r h =
    tick-Follows (replaced s t fresh) (rewound t) t' (rewound-Follows s t fresh f) read r
      (sym (tail_step-rewound t (length fresh) read shorter) ∙ h)

pub take-length : (l : Bytes) → take (length l) l ≡ l
unfolding take
take-length [] = refl
take-length (x ∷ l) = ap (λ k. x ∷ k) (take-length l)

pub start_lem :
    (len : ℕ) (bytes : ℕ → Bytes) (t : Tail)
    → tail_start (ok len) (λ p. ok (bytes p)) true ≡ running t
    → (t.pos ≡ len) × (concat t.sent ≡ bytes (len - tail_initial_bytes))
unfolding tail_start
start_lem len bytes t h = send_taken len (bytes (len - tail_initial_bytes)) [] t h
