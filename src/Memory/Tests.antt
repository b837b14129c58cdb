-- ===== src/Memory/Tests.antt =====
-- A memory whose byte at an address is the address, and ranges that overlap.
use subleq_emu.Prelude.{◌≡◌, refl}
use subleq_emu.Ram.{Ram}
use subleq_emu.Memory.{memmove, memcmp, copy_up, copy_down}
use subleq_emu.Memory.Copy.{IsCopy, memmove-IsCopy}
use subleq_emu.Memory.Compare.{Says, memcmp-Says}

abbrev numbered : Ram
numbered = λ a. a

overlapping : memmove numbered 12 10 4 13 ≡ 11
unfolding memmove copy_up copy_down
overlapping = refl

memmove-IsCopy_example : IsCopy numbered 12 10 4 (memmove numbered 12 10 4)
memmove-IsCopy_example = memmove-IsCopy 12 10 numbered 4

memcmp-Says_example : Says numbered 3 4 0 2 (memcmp numbered 3 4 2)
memcmp-Says_example = memcmp-Says numbered 3 4 2
