-- ===== src/Klib.antt =====
-- The number printing of kernel/src/klib.c, by the bytes that go to port 0xe9. The result `none`
-- is a write below the start of the buffer.
pub mod Print
pub mod Format
pub mod Pieces
pub mod Heap
pub mod Text
mod Tests
use subleq_emu.Prelude.{
  ℕ, zero, suc, ◌+◌, ◌/◌, ◌%◌, Option, none, some, List, [], ◌∷◌, ◌==◌, if◌then◌else◌, get_or,
}
use mathlib.Core.Option

-- The loop that fills `buf` from its end, with `room` places left before its first; `text` is what
-- stands in it from `i + 1` on.
unfoldable pub fill_buf : ℕ → (ℕ → ℕ) → ℕ → ℕ → List ℕ → Option (List ℕ)
fill_buf base digit zero x text = if x == 0 then some text else none
fill_buf base digit (suc room) x text =
    let rest = fill_buf base digit room (x / base) (digit (x % base) ∷ text) in
    if x == 0 then some text else rest

abbrev pub decimal_digit : ℕ → ℕ
decimal_digit d = d + 0x30

unfoldable pub kprn_ui : ℕ → Option (List ℕ)
kprn_ui x = if x == 0 then some (48 ∷ []) else fill_buf 10 decimal_digit 20 x []

abbrev pub hex_to_ascii_tab : List ℕ
hex_to_ascii_tab =
    48 ∷ 49 ∷ 50 ∷ 51 ∷ 52 ∷ 53 ∷ 54 ∷ 55 ∷ 56 ∷ 57 ∷ 97 ∷ 98 ∷ 99 ∷ 100 ∷ 101 ∷ 102 ∷ []

abbrev pub hex_digit : ℕ → ℕ
hex_digit d = get_or hex_to_ascii_tab d 0

unfoldable pub kprn_x : ℕ → Option (List ℕ)
kprn_x x =
    if x == 0
    then some (48 ∷ 120 ∷ 48 ∷ [])
    else Option.map (λ s. 48 ∷ 120 ∷ s) (fill_buf 16 hex_digit 16 x [])
