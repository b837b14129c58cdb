-- ===== src/Io/Queue.antt =====
-- The ring of kernel/src/dawn.c as the list of the writes that wait, and `dawn_io_write` on it.
use mathlib.Core.Option
use subleq_emu.Prelude.{
  ℕ, zero, suc, ◌+◌, ◌-◌, ◌%◌, ◌<◌, ◌≡◌, refl, ap, inl, inr, true, false, Option, none, some, List,
  [], ◌∷◌, ◌++◌, arith, ◌==◌, ltb, ==_self, Bool-cases, if◌then◌else◌, update, length,
}
use subleq_emu.Io.{Entry, Io, io_stack_max, io_write}

abbrev pub waiting : Io → ℕ
waiting s = (s.tail + io_stack_max - s.head) % io_stack_max

-- The `n` entries from index `h` on.
abbrev pub entries : (ℕ → Entry) → ℕ → ℕ → List Entry
entries stack h zero = []
entries stack h (suc n) = stack h ∷ entries stack ((h + 1) % io_stack_max) n

abbrev pub contents : Io → List Entry
contents s = entries s.stack s.head (waiting s)

abbrev pub InRing : Io → Type 0
InRing s = (s.head < io_stack_max) × (s.tail < io_stack_max)

pub length-entries : (stack : ℕ → Entry) (h n : ℕ) → length (entries stack h n) ≡ n
length-entries stack h zero = refl
length-entries stack h (suc n) = ap suc (length-entries stack ((h + 1) % io_stack_max) n)

-- An entry written just behind the last is the new last.
entries-update :
    (stack : ℕ → Entry) (h n t : ℕ) (e : Entry)
    → h < io_stack_max
    → n + 1 < io_stack_max
    → t ≡ (h + n) % io_stack_max
    → entries (update stack t e) h (suc n) ≡ entries stack h n ++ (e ∷ [])
entries-update stack h zero t e hh hn at = let here : t ≡ h = omega arith in rw (here, ==_self h)
entries-update stack h (suc n) t e hh hn at =
    let apart : (t == h) ≡ false = ground arith in
    rw apart (
      ap (λ r. stack h ∷ r)
        (entries-update stack ((h + 1) % io_stack_max) n t e (omega arith) (omega arith)
          (omega arith)))

-- The specification: a queue of at most `io_stack_max - 1` entries.
abbrev pub enqueue : List Entry → Entry → Option (List Entry)
enqueue q e = if ltb (length q + 1) io_stack_max then some (q ++ (e ∷ [])) else none

-- On a valid ring `dawn_io_write` appends the write to the waiting ones, and panics exactly when
-- they are 4095 already.
pub io_write-enqueue :
    (s : Io) (loc v : ℕ)
    → InRing s
    → Option.map contents (io_write s loc v)
      ≡ enqueue (contents s) (record { io_loc = loc; value = v })
unfolding io_write
io_write-enqueue s loc v r = elim (Bool-cases ((s.tail + 1) % io_stack_max == s.head)) [
  | inl full ↦
      let over : ltb (length (contents s) + 1) io_stack_max ≡ false =
        ground (arith, length-entries s.stack s.head (waiting s)) in
      rw (full, over)
  | inr room ↦
      let under : ltb (length (contents s) + 1) io_stack_max ≡ true =
        ground (arith, length-entries s.stack s.head (waiting s)) in
      let one_more : ((s.tail + 1) % io_stack_max + io_stack_max - s.head) % io_stack_max
          ≡ suc (waiting s) =
        ground arith in
      rw (room, under, one_more)
        (ap some
          (entries-update s.stack s.head (waiting s) s.tail _ (r.0) (ground arith) (ground arith)))
]

pub io_write-InRing :
    (s : Io) (loc v : ℕ) {t : Io} → InRing s → io_write s loc v ≡ some t → InRing t
unfolding io_write
io_write-InRing s loc v r e = ground arith
