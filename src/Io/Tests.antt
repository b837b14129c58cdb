-- ===== src/Io/Tests.antt =====
-- A queue whose ring has wrapped, and a memory of zeros.
use mathlib.Core.Option
use subleq_emu.Prelude.{◌≡◌, arith}
use subleq_emu.Ram.{Ram}
use subleq_emu.Io.{Io, io_write, io_flush}
use subleq_emu.Io.Queue.{contents, enqueue, InRing, io_write-enqueue}
use subleq_emu.Io.Flush.{Delivers, io_flush-deliver}

abbrev ring : Io
ring = record { stack = λ i. record { io_loc = 64; value = i }; head = 4095; tail = 1 }

abbrev zeros : Ram
zeros = λ a. 0

ring-InRing : InRing ring
ring-InRing = (omega arith, omega arith)

io_write-enqueue_example :
    Option.map contents (io_write ring 72 5)
    ≡ enqueue (contents ring) (record { io_loc = 72; value = 5 })
io_write-enqueue_example = io_write-enqueue ring 72 5 ring-InRing

io_flush-deliver_example : Delivers ring zeros (io_flush ring zeros)
io_flush-deliver_example = io_flush-deliver ring zeros ring-InRing
