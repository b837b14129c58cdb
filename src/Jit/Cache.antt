-- ===== src/Jit/Cache.antt =====
-- A CPU's translated blocks: `hash`, `lookup`, `patch_rel32`, `invalidate`, `invalidate_word`,
-- `flush` and `link_to` of kernel/src/jit.c.
pub mod Find
pub mod Drop
pub mod Word
pub mod Jump
use subleq_emu.Prelude.{
  ℕ, zero, suc, ◌+◌, ◌-◌, ◌*◌, ◌/◌, ◌%◌, ◌^◌, Bool, true, false, Option, none, some, List, [], ◌∷◌,
  ◌&&◌, ◌==◌, leb, ltb, if◌then◌else◌, update, length, add64, mul64, sub64, two32,
}
use subleq_emu.Ram.{Ram, byte}
use subleq_emu.Jit.State.{Block, Cpu, Stats, max_block}

unfoldable pub hash : ℕ → ℕ
hash a = mul64 (a / 8) 0x9e3779b97f4a7c15 / 2 ^ 48

unfoldable pub find : (ℕ → Block) → ℕ → List ℕ → Option ℕ
find blocks a [] = none
find blocks a (i ∷ chain) = if (blocks i).start == a then some i else find blocks a chain

unfoldable pub lookup : Cpu → ℕ → Option ℕ
lookup j a = find j.blocks a (j.htab (hash a))

-- A `memcpy` of the four bytes of an `int32_t`.
unfoldable pub store32 : Ram → ℕ → ℕ → Ram
store32 m a v q = if leb a q && ltb q (a + 4) then byte v (q - a) else m q

unfoldable pub patch_rel32 : Ram → ℕ → ℕ → Ram
patch_rel32 code site target = store32 code site (sub64 target (site + 4) % two32)

unfoldable pub unlink : ℕ → List ℕ → List ℕ
unlink i [] = []
unlink i (k ∷ chain) = if k == i then chain else k ∷ unlink i chain

-- The loop over `incoming`: each jump goes back to its slow path, behind it.
unfoldable pub unpatch : Ram → List ℕ → Ram
unpatch code [] = code
unpatch code (site ∷ sites) = unpatch (patch_rel32 code site (site + 4)) sites

unfoldable pub invalidate : Cpu → ℕ → Cpu
invalidate j i =
    let b = j.blocks i in
    if b.valid
    then (let code = unpatch j.code b.incoming in
        record j {
          blocks = update j.blocks i (record b { valid = false; incoming = [] });
          htab = update j.htab (hash b.start) (unlink i (j.htab (hash b.start)));
          free_links = j.free_links + length b.incoming;
          code = patch_rel32 (update code b.entry 0xe9) (b.entry + 1) b.inv_stub;
          stats = record (j.stats) { invalidations = j.stats.invalidations + 1 };
        })
    else j

-- The body of the loop of `invalidate_word` at `s`.
unfoldable pub drop_at : Cpu → ℕ → ℕ → Cpu
drop_at j s a = elim (lookup j s) [
  | none ↦ j
  | some i ↦ if ltb a (s + 24 * (j.blocks i).n) then invalidate j i else j
]

-- Its `rounds` rounds from `s` on.
unfoldable pub drop_from : ℕ → Cpu → ℕ → ℕ → Cpu
drop_from zero j s a = j
drop_from (suc rounds) j s a = drop_from rounds (drop_at j s a) (s + 8) a

unfoldable pub invalidate_word : Cpu → ℕ → Cpu
invalidate_word j w =
    let a = w * 8 in
    let lo = if leb (24 * max_block) a then a - 24 * max_block + 8 else 0 in
    drop_from ((a - lo) / 8 + 1) j lo a

unfoldable pub flush : Cpu → Cpu
flush j = record j {
  htab = λ h. [];
  code_ptr = j.code_base;
  nblocks = 0;
  nlinks = 0;
  free_links = 0;
  nmeta = 0;
  phead = 0;
  ptail = 0;
  stats = record (j.stats) { flushes = j.stats.flushes + 1 };
}

-- The jump at `site` goes straight to block `t`, once a link record is at hand.
unfoldable pub linked : Cpu → ℕ → ℕ → Cpu
linked j site t = record j {
  blocks = update j.blocks t (record (j.blocks t) { incoming = site ∷ (j.blocks t).incoming });
  code = patch_rel32 j.code site (j.blocks t).entry;
  stats = record (j.stats) { links = j.stats.links + 1 };
}

unfoldable pub link_to : Cpu → ℕ → ℕ → Cpu
link_to j site t =
    if ltb 0 j.free_links
    then linked (record j { free_links = j.free_links - 1 }) site t
    else if ltb j.nlinks j.max_links
    then linked (record j { nlinks = j.nlinks + 1 }) site t
    else j
