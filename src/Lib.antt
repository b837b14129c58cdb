-- ===== src/Lib.antt =====
-- subleq-emu runs Dawn OS, a program for a one-instruction machine (SUBLEQ), on x86-64.
--
-- Parts and files. Paths are those of the repository.
-- - Prelude: shared names, tests, machine words (`add64` wraps at 2 ^ 64, `signed_le` is the signed
--   comparison), integers, and single bits of words at every width (Prelude.Bits, Prelude.Bitmap).
-- - Ram: Dawn's memory, a function from addresses to bytes, and its big-endian words
--   (`dawn_readram`, `dawn_writeram` of kernel/src/dawn.c, `rd`, `wr` of kernel/src/jit.c).
-- - Subleq: the interpreter of kernel/src/subleq.asm, and how it agrees with the C step.
-- - Jit: the translator, kernel/src/jit.c. State has its structures, Maps the static map, Cache the
--   table of blocks and the links between them, Smc the stores to translated code and the queues
--   by which CPUs tell one another of them, Reval the later checks of new blocks, Emit the
--   x86-64 emitter with a decoder for what it writes, Copy the word copy loop that `match_copy`
--   finds and `jit_copy` runs (Exec, Pass, Steps and Turn have its nineteen instructions), and Regs the registers, constants and aliases that stand for words of
--   memory while a block is translated, and the one word whose store is held back. There the code
--   emitted is a list of instructions, and Regs.Code says what each does to registers and memory.
-- - Bank: the loop of a CPU, kernel/src/subleq.c, over its bank in Dawn's memory.
-- - Paging: `map_page`, `map_page_2m` of kernel/src/paging.c over the page allocator, and the
--   processor's walk of the tables.
-- - Io: the queue of deferred register writes of kernel/src/dawn.c (`dawn_io_write`, `dawn_io_flush`).
-- - Keyboard: the scan code handler of kernel/src/keyboard.c (`keyboard_handler`).
-- - Mouse: the packets, position and queue of kernel/src/mouse.c (`mouse_handler`, `mouse_update`).
-- - Memory: memcpy, memmove, memset and memcmp of kernel/src/memory.c.
-- - Klib: kernel/src/klib.c, the number printing (`kprn_ui`, `kprn_x`), `kprint` as the bytes that
--   it prints (Klib.Format), `kalloc`, `kfree`, `krealloc` (Klib.Heap), and the string functions
--   (Klib.Text), which have as much fuel as bytes they may look at.
-- - Pmm: the page allocator, kernel/src/pmm.c, and its set-up from the memory map (Pmm.Init).
--
-- State is a record for each structure or file of variables, and a function that changes it returns
-- the new record. Pointers to blocks are indices; the chain of a hash bucket is a list. Loops recur
-- on the rounds left. `revalidate` has PENDING_LEN rounds and `drain_queue` QUEUE_LEN, which empty
-- any ring, `subleq_interp` as many turns as its fuel, and `dawn_io_flush` has as many as its ring has places. The search of `stub_store` for a
-- register looks at three, since at most two are ruled out.
--
-- Not modelled: page faults and accesses that wrap at 2 ^ 64, the interleaving of CPUs within one
-- call, the translation of whole instructions, their exits and the flags, the device protocols and the
-- drawing, and the boot code. A byte that the mouse or keyboard sends is an argument.
mod Prelude
pub mod Ram
pub mod Io
pub mod Keyboard
pub mod Memory
pub mod Klib
pub mod Mouse
pub mod Pmm
pub mod Jit
pub mod Subleq
pub mod Bank
pub mod Paging
