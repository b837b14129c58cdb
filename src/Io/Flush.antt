-- ===== src/Io/Flush.antt =====
-- `dawn_io_flush` of kernel/src/dawn.c as the delivery of the queued writes in order.
use subleq_emu.Prelude.{
  ℕ, zero, suc, ◌+◌, ◌%◌, ◌≤◌, ◌≡◌, refl, inl, inr, true, false, List, [], ◌∷◌, arith, ◌==◌,
  Bool-cases, if◌then◌else◌,
}
use subleq_emu.Ram.{Ram, readram, writeram}
use subleq_emu.Io.{Entry, Io, io_stack_max, flush_loop, io_flush}
use subleq_emu.Io.Queue.{waiting, contents, InRing}

unfoldable pub deliver : List Entry → Ram → List Entry × Ram
deliver [] m = ([], m)
deliver (e ∷ q) m =
    if readram m e.io_loc == 0 then deliver q (writeram m e.io_loc e.value) else (e ∷ q, m)

abbrev advance : Io → Io
advance s = record s { head = (s.head + 1) % io_stack_max }

contents_nil : (s : Io) → InRing s → (s.head == s.tail) ≡ true → contents s ≡ []
contents_nil s r e = let none_left : waiting s ≡ 0 = ground arith in rw none_left

contents_cons :
    (s : Io)
    → InRing s
    → (s.head == s.tail) ≡ false
    → contents s ≡ s.stack s.head ∷ contents (advance s)
contents_cons s r e = let left : waiting s ≡ suc (waiting (advance s)) = ground arith in rw left

module _ (rounds : ℕ) (s : Io) (m : Ram) where
  flush_done : (s.head == s.tail) ≡ true → flush_loop (suc rounds) s m ≡ (s, m)
  unfolding flush_loop
  flush_done e = rw e

  flush_blocked :
      (s.head == s.tail) ≡ false
      → (readram m (s.stack s.head).io_loc == 0) ≡ false
      → flush_loop (suc rounds) s m ≡ (s, m)
  unfolding flush_loop
  flush_blocked e b = rw (e, b)

  flush_more :
      (s.head == s.tail) ≡ false
      → (readram m (s.stack s.head).io_loc == 0) ≡ true
      → flush_loop (suc rounds) s m
        ≡ flush_loop rounds (advance s) (writeram m (s.stack s.head).io_loc (s.stack s.head).value)
  unfolding flush_loop
  flush_more e b = rw (e, b)

abbrev pub Delivers : Io → Ram → Io × Ram → Type 0
Delivers s m (t, after) =
    (◌≡◌ {A = List Entry × Ram} (contents t, after) (deliver (contents s) m)) × InRing t

flush_loop-deliver :
    (rounds : ℕ) (s : Io) (m : Ram)
    → InRing s
    → waiting s ≤ rounds
    → Delivers s m (flush_loop rounds s m)
unfolding deliver
flush_loop-deliver zero s m r le =
    let e : (s.head == s.tail) ≡ true = ground arith in
    unfold flush_loop in (rw (contents_nil s r e) refl, r)
flush_loop-deliver (suc rounds) s m r le = elim (Bool-cases (s.head == s.tail)) [
  | inl done ↦ rw (flush_done rounds s m done) (rw (contents_nil s r done) refl, r)
  | inr more ↦ elim (Bool-cases (readram m (s.stack s.head).io_loc == 0)) [
    | inl clear ↦
        rw (flush_more rounds s m more clear, contents_cons s r more)
          (rw clear (
            flush_loop-deliver rounds (advance s)
              (writeram m (s.stack s.head).io_loc (s.stack s.head).value) (omega arith, r.1)
              (ground arith)))
    | inr set ↦
        rw (flush_blocked rounds s m more set) (rw (contents_cons s r more) (rw set refl), r)
  ]
]

-- On a valid ring `dawn_io_flush` delivers the waiting writes in order, each only into a register
-- that reads 0 then, stops at the first whose register does not, and leaves exactly the rest
-- waiting, in a valid ring.
pub io_flush-deliver : (s : Io) (m : Ram) → InRing s → Delivers s m (io_flush s m)
unfolding io_flush
io_flush-deliver s m r = flush_loop-deliver io_stack_max s m r (omega arith)
