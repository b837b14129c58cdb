-- ===== src/Jit/Maps.antt =====
-- `bit_get`, `bit_set`, `bit_clr` and `mark_static` of kernel/src/jit.c.
use subleq_emu.Prelude.{
  ℕ, ◌+◌, ◌-◌, ◌*◌, ◌/◌, ◌<◌, ◌≡◌, arith, Bool, true, false, ◌==◌, if◌then◌else◌, update,
  Bool-cases, inl, inr,
}
use subleq_emu.Prelude.Bitmap
use subleq_emu.Jit.State.{Machine}

unfoldable pub bit_get : (ℕ → ℕ) → ℕ → Bool
bit_get m w = Bitmap.get 8 m w == 1

unfoldable pub bit_set : (ℕ → ℕ) → ℕ → ℕ → ℕ
bit_set m w = Bitmap.set 8 m w

unfoldable pub bit_clr : (ℕ → ℕ) → ℕ → ℕ → ℕ
bit_clr m w = Bitmap.clear 8 m w

unfoldable pub mark_static : Machine → ℕ → Machine
mark_static m w =
    let pg = w * 8 / 4096 in
    let one = update m.page_map pg 1 in
    record m {
      static_map = bit_set m.static_map w;
      page_map = if pg == 0 then one else update one (pg - 1) 1;
    }

abbrev pub IsBytes : (ℕ → ℕ) → Type 0
IsBytes m = Bitmap.IsWords 8 m

pub bit_get-bit_set :
    (m : ℕ → ℕ) (w v : ℕ) → bit_get (bit_set m w) v ≡ (if w == v then true else bit_get m v)
unfolding bit_get bit_set
bit_get-bit_set m w v =
    rw (Bitmap.get-set 8 m w v) (elim (Bool-cases (w == v)) [ inl e ↦ rw e | inr e ↦ rw e ])

pub bit_get-bit_clr :
    (m : ℕ → ℕ) (w v : ℕ)
    → IsBytes m
    → bit_get (bit_clr m w) v ≡ (if w == v then false else bit_get m v)
unfolding bit_get bit_clr
bit_get-bit_clr m w v h =
    rw (Bitmap.get-clear 8 m w v (omega arith) h)
      (elim (Bool-cases (w == v)) [ inl e ↦ rw e | inr e ↦ rw e ])

pub bit_set-IsBytes : (m : ℕ → ℕ) (w : ℕ) → IsBytes m → IsBytes (bit_set m w)
unfolding bit_set
bit_set-IsBytes m w h = Bitmap.set-IsWords 8 m w (omega arith) h

pub bit_clr-IsBytes : (m : ℕ → ℕ) (w : ℕ) → IsBytes m → IsBytes (bit_clr m w)
unfolding bit_clr
bit_clr-IsBytes m w h = Bitmap.clear-IsWords 8 m w h

-- A store to the byte `x` of a marked word finds the flag of its page set, also where the word's
-- store begins up to seven bytes before the word, in the page before: one look at `page_map`
-- at the store's first byte is enough.
pub mark_static-page_map :
    (m : Machine) (w x : ℕ)
    → w * 8 < x + 8
    → x < w * 8 + 8
    → (mark_static m w).page_map (x / 4096) ≡ 1
unfolding mark_static
mark_static-page_map m w x h h' = ground arith
