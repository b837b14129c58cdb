-- ===== src/Memory.antt =====
-- The byte routines of kernel/src/memory.c over a memory of bytes. The ranges do not wrap at 2 ^ 64.
-- Each routine returns its destination in the source; here it returns the memory after it.
pub mod Copy
pub mod Compare
mod Tests
use subleq_emu.Prelude.{ℕ, zero, suc, ◌+◌, ◌%◌, ◌==◌, ltb, if◌then◌else◌, update, ℤ, pos, negsuc}
use subleq_emu.Ram.{Ram}

-- `rounds` rounds of the loop that counts up, from `i` on.
unfoldable pub copy_up : ℕ → Ram → ℕ → ℕ → ℕ → Ram
copy_up zero m dest src i = m
copy_up (suc rounds) m dest src i =
    copy_up rounds (update m (dest + i) (m (src + i))) dest src (i + 1)

-- The loop that counts down to 0.
unfoldable pub copy_down : ℕ → Ram → ℕ → ℕ → Ram
copy_down zero m dest src = m
copy_down (suc i) m dest src = copy_down i (update m (dest + i) (m (src + i))) dest src

unfoldable pub memcpy : Ram → ℕ → ℕ → ℕ → Ram
memcpy m dest src n = copy_up n m dest src 0

unfoldable pub memmove : Ram → ℕ → ℕ → ℕ → Ram
memmove m dest src n =
    if ltb dest src
    then copy_up n m dest src 0
    else if ltb src dest
    then copy_down n m dest src
    else m

unfoldable pub fill : ℕ → Ram → ℕ → ℕ → ℕ → Ram
fill zero m s c i = m
fill (suc rounds) m s c i = fill rounds (update m (s + i) (c % 256)) s c (i + 1)

unfoldable pub memset : Ram → ℕ → ℕ → ℕ → Ram
memset m s c n = fill n m s c 0

unfoldable pub compare_from : ℕ → Ram → ℕ → ℕ → ℕ → ℤ
compare_from zero m s1 s2 i = pos 0
compare_from (suc rounds) m s1 s2 i =
    let rest = compare_from rounds m s1 s2 (i + 1) in
    if m (s1 + i) == m (s2 + i)
    then rest
    else if ltb (m (s1 + i)) (m (s2 + i))
    then negsuc 0
    else pos 1

unfoldable pub memcmp : Ram → ℕ → ℕ → ℕ → ℤ
memcmp m s1 s2 n = compare_from n m s1 s2 0
