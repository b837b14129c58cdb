-- ===== src/Jit/Regs.antt =====
-- The register cache of kernel/src/jit.c's translator: which registers, constants and aliases stand
-- for which words of memory while a block is translated. The fields are those of `jit_cpu_t` that
-- the translation of straight code uses. An array is a function of its index; `out` is what has been
-- emitted at `cp`, the newest first. An index that the code would take from `reg_index` as -1 is 11.
pub mod Code
pub mod Alloc
pub mod Values
pub mod Find
pub mod Entries
pub mod Lookup
pub mod Change
pub mod Room
pub mod Kept
pub mod Take
pub mod Store
pub mod Flush
pub mod Pending
pub mod Known
pub mod Taken
pub mod Load
pub mod Get
pub mod Span
pub mod Goes
pub mod Shift
pub mod Join
pub mod Combine
pub mod Ready
pub mod Static
pub mod Stub
pub mod Leave
mod Tests
use subleq_emu.Prelude.{
  ℕ, zero, suc, ◌+◌, ◌%◌, Bool, true, false, not, ◌&&◌, ◌||◌, List, [], ◌∷◌, ◌==◌, leb, ltb,
  if◌then◌else◌, update, two32,
}
use Code.{Op}

abbrev pub nregs : ℕ
nregs = 11

abbrev pub nconst : ℕ
nconst = 16

abbrev pub nalias : ℕ
nalias = 16

-- `creg_t`, `cconst_t`, `calias_t`
pub record Creg : Type 0 where
  pub used : Bool
  pub addr : ℕ
  pub pinned : Bool
  pub lru : ℕ

pub record Cconst : Type 0 where
  pub used : Bool
  pub addr : ℕ
  pub val : ℕ

pub record Calias : Type 0 where
  pub used : Bool
  pub addr : ℕ
  pub reg : ℕ
  pub neg : Bool

-- `cval_t`, by its kinds 0 to 3
pub data Cval : Type 0 where
  unknown : Cval
  in_reg constant negated : ℕ → Cval

-- `v.kind`
abbrev pub is_known : Cval → Bool
is_known unknown = false
is_known (in_reg s) = true
is_known (constant s) = true
is_known (negated s) = true

pub record Translator : Type 0 where
  pub use_movbe : Bool
  pub pend : Bool
  pub pend_addr : ℕ
  pub flags_live : Bool
  pub regs : ℕ → Creg
  pub lru_clock : ℕ
  pub consts : ℕ → Cconst
  pub const_next : ℕ
  pub aliases : ℕ → Calias
  pub alias_next : ℕ
  pub out : List Op

abbrev pub emit : Translator → Op → Translator
emit j op = record j { out = op ∷ j.out }

-- RAX, RCX, RDX, RBX, RSI, RDI, R8, R9, R10, R11, R13
unfoldable pub alloc_regs : ℕ → ℕ
alloc_regs i =
    if i == 0
    then 0
    else if i == 1
    then 1
    else if i == 2
    then 2
    else if i == 3
    then 3
    else if i == 4
    then 6
    else if i == 5
    then 7
    else if i == 6
    then 8
    else if i == 7
    then 9
    else if i == 8
    then 10
    else if i == 9
    then 11
    else 13

-- Outside the device registers and CPU banks, HW_LO to HW_HI.
abbrev pub cacheable : ℕ → Bool
cacheable a = a % 8 == 0 && (ltb a 0x13e00000 || leb 0x14000000 a)

-- The loop of `reg_index` from `i` on.
unfoldable pub index_from : ℕ → ℕ → ℕ → ℕ
index_from zero i r = nregs
index_from (suc rounds) i r =
    let rest = index_from rounds (i + 1) r in if alloc_regs i == r then i else rest

unfoldable pub reg_index : ℕ → ℕ
reg_index r = index_from nregs 0 r

-- The three loops of `cache_drop`.
abbrev pub drop_reg : ℕ → Creg → Creg
drop_reg a c = if c.used && c.addr == a then record c { used = false } else c

abbrev pub drop_const : ℕ → Cconst → Cconst
drop_const a c = if c.used && c.addr == a then record c { used = false } else c

abbrev pub drop_alias : ℕ → Calias → Calias
drop_alias a c = if c.used && c.addr == a then record c { used = false } else c

unfoldable pub cache_drop : Translator → ℕ → Translator
cache_drop j a = record j {
  regs = λ i. drop_reg a (j.regs i);
  consts = λ i. drop_const a (j.consts i);
  aliases = λ i. drop_alias a (j.aliases i);
}

unfoldable pub cache_drop_all : Translator → Translator
cache_drop_all j = record j {
  regs = λ i. record (j.regs i) { used = false };
  consts = λ i. record (j.consts i) { used = false };
  aliases = λ i. record (j.aliases i) { used = false };
}

-- The first of the `rounds` indices from `i` on that passes, or `end`.
unfoldable pub first_index : ℕ → ℕ → (ℕ → Bool) → ℕ → ℕ
first_index zero i test end = end
first_index (suc rounds) i test end =
    let rest = first_index rounds (i + 1) test end in if test i then i else rest

-- `J->regs[i].lru = ++J->lru_clock`
unfoldable pub touch : Translator → ℕ → Translator
touch j i =
    let clock = (j.lru_clock + 1) % two32 in
    record j { lru_clock = clock; regs = update j.regs i (record (j.regs i) { lru = clock }) }

abbrev pub const_at : Translator → ℕ → ℕ
const_at j a = first_index nconst 0 (λ i. (j.consts i).used && (j.consts i).addr == a) nconst

abbrev pub reg_at : Translator → ℕ → ℕ
reg_at j a = first_index nregs 0 (λ i. (j.regs i).used && (j.regs i).addr == a) nregs

abbrev pub alias_at : Translator → ℕ → ℕ
alias_at j a = first_index nalias 0 (λ i. (j.aliases i).used && (j.aliases i).addr == a) nalias

unfoldable pub cache_find : Translator → ℕ → Translator × Cval
cache_find j a =
    if not (cacheable a)
    then (j, unknown)
    else if ltb (const_at j a) nconst
    then (j, constant (j.consts (const_at j a)).val)
    else if ltb (reg_at j a) nregs
    then (touch j (reg_at j a), in_reg (alloc_regs (reg_at j a)))
    else if ltb (alias_at j a) nalias
    then (
      touch j (reg_index (j.aliases (alias_at j a)).reg),
      (if (j.aliases (alias_at j a)).neg
          then negated (j.aliases (alias_at j a)).reg
          else in_reg (j.aliases (alias_at j a)).reg),
    )
    else (j, unknown)

-- Whether a word stands for register `r`'s value or negation.
unfoldable pub aliased : Translator → ℕ → Bool
aliased j r =
    ltb (first_index nalias 0 (λ i. (j.aliases i).used && (j.aliases i).reg == r) nalias) nalias

abbrev pub put_const : Translator → ℕ → ℕ → ℕ → Translator
put_const j i a val = record j {
  consts = update j.consts i (record { used = true; addr = a; val = val });
}

-- A free entry, or the next one in turn.
unfoldable pub set_const : Translator → ℕ → ℕ → Translator
set_const j0 a val =
    let j = cache_drop j0 a in
    let free = first_index nconst 0 (λ i. not (j.consts i).used) nconst in
    if not (cacheable a)
    then j
    else if ltb free nconst
    then put_const j free a val
    else put_const (record j { const_next = (j.const_next + 1) % two32 }) (j.const_next % nconst) a
        val

abbrev pub set_pinned : Translator → ℕ → Bool → Translator
set_pinned j i b = record j { regs = update j.regs i (record (j.regs i) { pinned = b }) }

unfoldable pub pin : Translator → ℕ → Translator
pin j r = if ltb (reg_index r) nregs then set_pinned j (reg_index r) true else j

unfoldable pub unpin : Translator → ℕ → Translator
unpin j r = if ltb (reg_index r) nregs then set_pinned j (reg_index r) false else j

-- Register `r` caches the value at `a`.
unfoldable pub bind : Translator → ℕ → ℕ → Translator
bind j0 r a =
    let j = cache_drop j0 a in
    let clock = (j.lru_clock + 1) % two32 in
    let i = reg_index r in
    if not (cacheable a) then j0 else record j {
      lru_clock = clock;
      regs = update j.regs i (record (j.regs i) { used = true; addr = a; lru = clock });
    }
