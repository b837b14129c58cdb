-- ===== src/Jit/Copy.antt =====
-- The word copy loop of kernel/src/jit.c: `match_copy` finds it in memory, and `jit_copy` runs many
-- of its iterations at once. The copy itself is `copy_fn`, an argument: the file's `move`, or a
-- routine of kernel/src/copy.asm. Addresses below `mem_size` do not wrap at 2 ^ 64.
pub mod Iterate
pub mod Exec
pub mod Pass
pub mod Steps
pub mod Turn
pub mod Runs
pub mod Match
pub mod Refine
pub mod Vars
pub mod Plan
pub mod Whole
mod Tests
use subleq_emu.Prelude.{
  ℕ, zero, suc, ◌+◌, ◌-◌, ◌*◌, ◌/◌, Bool, true, false, not, ◌&&◌, ◌||◌, Option, none, some, List,
  [], ◌∷◌, ◌==◌, leb, ltb, if◌then◌else◌, two64, add64, sub64, signed_le,
}
use subleq_emu.Ram.{Ram, readram, writeram}
use subleq_emu.Prelude.{update}
use subleq_emu.Memory.{memmove}
use subleq_emu.Jit.State.{Machine}
use subleq_emu.Jit.Maps.{bit_get}

-- The enumeration of the template's symbols.
abbrev pub x_any : ℕ
x_any = 0

abbrev pub x_t1 : ℕ
x_t1 = 1

abbrev pub x_t2 : ℕ
x_t2 = 2

abbrev pub x_s : ℕ
x_s = 3

abbrev pub x_d : ℕ
x_d = 4

abbrev pub x_c : ℕ
x_c = 5

abbrev pub x_m : ℕ
x_m = 6

abbrev pub x_f1 : ℕ
x_f1 = 7

abbrev pub x_f2 : ℕ
x_f2 = 8

abbrev pub x_f3 : ℕ
x_f3 = 9

abbrev pub x_f4 : ℕ
x_f4 = 10

abbrev pub x_sd : ℕ
x_sd = 11

unfoldable pub copy_tmpl : List (ℕ × ℕ)
copy_tmpl =
    (x_t1, x_t1)
    ∷ (x_t2, x_t2)
    ∷ (x_f1, x_f1)
    ∷ (x_s, x_t1)
    ∷ (x_t1, x_f1)
    ∷ (x_any, x_t2)
    ∷ (x_t1, x_t1)
    ∷ (x_f2, x_f2)
    ∷ (x_f3, x_f3)
    ∷ (x_f4, x_f4)
    ∷ (x_d, x_t1)
    ∷ (x_t1, x_f2)
    ∷ (x_t1, x_f3)
    ∷ (x_t1, x_f4)
    ∷ (x_any, x_any)
    ∷ (x_t2, x_any)
    ∷ (x_m, x_sd)
    ∷ (x_m, x_sd)
    ∷ (x_m, x_c)
    ∷ []

-- `sym`, `bound` and `sd`
pub record Matching : Type 0 where
  pub sym : ℕ → ℕ
  pub bound : ℕ → Bool
  pub sd : ℕ

-- `desc`
pub record Desc : Type 0 where
  pub start : ℕ
  pub t1 : ℕ
  pub t2 : ℕ
  pub sv : ℕ
  pub dv : ℕ
  pub cv : ℕ
  pub mv : ℕ

-- The four fields that the loop itself writes.
unfoldable pub first_matching : ℕ → Matching
first_matching start = record {
  sym = λ x.
      if x == x_f1
      then start + 5 * 24
      else if x == x_f2
      then start + 15 * 24 + 8
      else if x == x_f3
      then start + 14 * 24
      else if x == x_f4
      then start + 14 * 24 + 8
      else 0;
  bound = λ x. x == x_f1 || (x == x_f2 || (x == x_f3 || x == x_f4));
  sd = 0;
}

-- S and D in either order, by instructions 16 and 17.
unfoldable pub match_sd : ℕ → ℕ → Matching → Option Matching
match_sd k v t =
    if not (v == t.sym x_s) && not (v == t.sym x_d)
    then none
    else if k == 16
    then some (record t { sd = v })
    else if v == t.sd
    then none
    else some t

-- One field of instruction `k`, at address `a`, against symbol `x`.
unfoldable pub match_field : Machine → ℕ → ℕ → ℕ → Matching → Option Matching
match_field m k a x t =
    let v = readram m.mem a in
    if x == x_any
    then some t
    else if bit_get m.dyn_map (a / 8)
    then none
    else if x == x_sd
    then match_sd k v t
    else if not (t.bound x)
    then some (record t { sym = update t.sym x v; bound = update t.bound x true })
    else if t.sym x == v
    then some t
    else none

-- The instructions from `k` on, `p` the address of the next.
unfoldable pub match_insns : Machine → ℕ → List (ℕ × ℕ) → ℕ → Matching → Option Matching
match_insns m start [] k t = some t
match_insns m start ((x, y) ∷ insns) k t =
    let p = start + 24 * k in
    if not (readram m.mem (p + 16) == (if k == 18 then start else p + 24))
      || bit_get m.dyn_map ((p + 16) / 8)
    then none
    else elim (match_field m k p x t) [
      | none ↦ none
      | some u ↦ elim (match_field m k (p + 8) y u) [
        | none ↦ none
        | some w ↦ match_insns m start insns (k + 1) w
      ]
    ]

-- The variables are distinct aligned words outside the loop.
unfoldable pub is_among : ℕ → List ℕ → Bool
is_among v [] = false
is_among v (w ∷ ws) = w == v || is_among v ws

abbrev pub is_variable : Machine → ℕ → ℕ → Bool
is_variable m start v =
    v / 8 * 8 == v
    && (leb (add64 v 8) m.mem_size && (leb (add64 v 8) start || leb (start + 19 * 24) v))

unfoldable pub are_variables : Machine → ℕ → List ℕ → List ℕ → Bool
are_variables m start earlier [] = true
are_variables m start earlier (v ∷ vs) =
    is_variable m start v && (not (is_among v earlier) && are_variables m start (v ∷ earlier) vs)

abbrev pub desc_of : ℕ → Matching → Desc
desc_of start t = record {
  start = start;
  t1 = t.sym x_t1;
  t2 = t.sym x_t2;
  sv = t.sym x_s;
  dv = t.sym x_d;
  cv = t.sym x_c;
  mv = t.sym x_m;
}

abbrev pub variables : Desc → List ℕ
variables e = e.t1 ∷ e.t2 ∷ e.sv ∷ e.dv ∷ e.cv ∷ e.mv ∷ []

unfoldable pub match_copy : Machine → ℕ → Option Desc
match_copy m start =
    if ltb m.mem_size (start + 19 * 24)
    then none
    else elim (match_insns m start copy_tmpl 0 (first_matching start)) [
      | none ↦ none
      | some t ↦
          if are_variables m start [] (variables (desc_of start t))
          then some (desc_of start t)
          else none
    ]

pub record CopyResult : Type 0 where
  pub n : ℕ
  pub done : Bool

abbrev pub copy_min : ℕ
copy_min = 4

-- HW_LO and HW_HI
abbrev pub hw_lo : ℕ
hw_lo = 0x13e00000

abbrev pub hw_hi : ℕ
hw_hi = 0x14000000

abbrev pub move : Ram → ℕ → ℕ → ℕ → Ram
move = memmove

abbrev pub overlaps : ℕ → ℕ → ℕ → ℕ → Bool
overlaps a alen b blen = ltb a (add64 b blen) && ltb b (add64 a alen)

-- The iterations that are left with counter `c`.
abbrev pub iterations : ℕ → ℕ
iterations c = if signed_le c (two64 - 8) then sub64 (two64 - 8) c / 8 + 2 else 1

-- A page of the `rounds` from `pg` on holds translated code.
unfoldable pub any_page : (ℕ → ℕ) → ℕ → ℕ → Bool
any_page page_map zero pg = false
any_page page_map (suc rounds) pg = not (page_map pg == 0) || any_page page_map rounds (pg + 1)

unfoldable pub overlaps_any : ℕ → ℕ → ℕ → List ℕ → Bool
overlaps_any s d bytes [] = false
overlaps_any s d bytes (v ∷ vs) =
    overlaps s bytes v 8 || (overlaps d bytes v 8 || overlaps_any s d bytes vs)

-- The variables and fields as the last iteration leaves them, for a last word copied to `dl`.
unfoldable pub last_writes : Desc → ℕ → ℕ → ℕ → ℕ → Ram → Ram
last_writes e sl dl c last m =
    let m1 = writeram m e.sv (sl + 8) in
    let m2 = writeram m1 e.dv (dl + 8) in
    let m3 = writeram m2 e.cv c in
    let m4 = writeram m3 e.t1 (sub64 0 dl) in
    let m5 = writeram m4 e.t2 (sub64 0 last) in
    let m6 = writeram m5 (e.start + 5 * 24) sl in
    let m7 = writeram m6 (e.start + 14 * 24) dl in
    let m8 = writeram m7 (e.start + 14 * 24 + 8) dl in writeram m8 (e.start + 15 * 24 + 8) dl

abbrev pub is_past_end : Machine → ℕ → ℕ → ℕ → Bool
is_past_end m s d bytes =
    ltb m.mem_size s
    || (ltb (m.mem_size - s) bytes || (ltb m.mem_size d || ltb (m.mem_size - d) bytes))

abbrev pub is_loop_or_device : Desc → ℕ → ℕ → ℕ → Bool
is_loop_or_device e s d bytes =
    overlaps s bytes e.start (19 * 24)
    || (overlaps d bytes e.start (19 * 24)
        || (overlaps s bytes hw_lo (hw_hi - hw_lo) || overlaps d bytes hw_lo (hw_hi - hw_lo)))

abbrev pub holds_code : Machine → ℕ → ℕ → Bool
holds_code m d bytes = any_page m.page_map ((d + bytes - 1) / 0x1000 + 1 - d / 0x1000) (d / 0x1000)

-- The ranges that keep the loop from being run here.
unfoldable pub is_refused : Machine → Desc → ℕ → ℕ → ℕ → Bool
is_refused m e s d bytes =
    is_past_end m s d bytes
    || ((ltb s d && ltb d (s + bytes))
        || (overlaps_any s d bytes (e.t1 ∷ e.t2 ∷ e.sv ∷ e.dv ∷ e.cv ∷ [])
            || (overlaps d bytes e.mv 8
                || (is_loop_or_device e s d bytes || holds_code m d bytes))))

-- The iterations to run: 0 leaves the loop to its translated code.
unfoldable pub planned : Machine → Desc → ℕ → ℕ
planned m e budget =
    let s = readram m.mem e.sv in
    let d = readram m.mem e.dv in
    let total = iterations (readram m.mem e.cv) in
    let n = if ltb total (budget / 19 + 1) then total else budget / 19 + 1 in
    if not (readram m.mem e.mv == two64 - 8)
    then 0
    else if ltb n copy_min
    then 0
    else if is_refused m e s d (8 * n)
    then 0
    else n

-- What `n` iterations leave.
unfoldable pub run_copy : (Ram → ℕ → ℕ → ℕ → Ram) → Ram → Desc → ℕ → Ram
run_copy copy_fn m e n =
    let s = readram m e.sv in
    let d = readram m e.dv in
    let bytes = 8 * n in
    last_writes e (s + bytes - 8) (d + bytes - 8) (add64 (readram m e.cv) bytes)
      (readram m (s + bytes - 8)) (copy_fn m d s bytes)

unfoldable pub jit_copy : (Ram → ℕ → ℕ → ℕ → Ram) → Machine → Desc → ℕ → Machine × CopyResult
jit_copy copy_fn m e budget =
    let n = planned m e budget in
    if n == 0 then (m, record { n = 0; done = false }) else (
      record m { mem = run_copy copy_fn m.mem e n },
      record { n = n; done = n == iterations (readram m.mem e.cv) },
    )
