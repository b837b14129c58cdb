-- ===== src/Io.antt =====
-- The deferred writes to Dawn's device registers, kernel/src/dawn.c: `dawn_io_write` queues one and
-- `dawn_io_flush` delivers them as Dawn clears the registers.
pub mod Queue
pub mod Flush
pub mod Reg
mod Tests
use subleq_emu.Prelude.{ℕ, zero, suc, ◌+◌, ◌%◌, Option, none, some, ◌==◌, if◌then◌else◌, update}
use subleq_emu.Ram.{Ram, readram, writeram}

abbrev pub io_stack_max : ℕ
io_stack_max = 4096

-- `io_stack_t`
pub record Entry : Type 0 where
  pub io_loc : ℕ
  pub value : ℕ

pub record Io : Type 0 where
  pub stack : ℕ → Entry
  pub head : ℕ
  pub tail : ℕ

-- `none` is the panic on an overflow.
unfoldable pub io_write : Io → ℕ → ℕ → Option Io
io_write s io_loc value =
    let next_tail = (s.tail + 1) % io_stack_max in
    if next_tail == s.head
    then none
    else some (record s {
      stack = update s.stack s.tail (record { io_loc = io_loc; value = value });
      tail = next_tail;
    })

-- The loop of `dawn_io_flush`, for at most `rounds` deliveries.
unfoldable pub flush_loop : ℕ → Io → Ram → Io × Ram
flush_loop zero s m = (s, m)
flush_loop (suc rounds) s m =
    let e = s.stack s.head in
    let rest =
      flush_loop rounds (record s { head = (s.head + 1) % io_stack_max })
        (writeram m e.io_loc e.value) in
    if s.head == s.tail then (s, m) else if readram m e.io_loc == 0 then rest else (s, m)

-- The queue holds fewer than `io_stack_max` entries, so these rounds suffice.
unfoldable pub io_flush : Io → Ram → Io × Ram
io_flush s m = flush_loop io_stack_max s m
