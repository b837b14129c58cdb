-- ===== src/Jit/State.antt =====
-- The structures of kernel/src/jit.c that outlive a translation. Pointers to blocks are indices
-- into `blocks`; a bucket of `htab` is its chain through `hnext`, as a list; the nodes of the link
-- pool are interchangeable, so `incoming` is the list of the sites and `free_links` a count.
use subleq_emu.Prelude.{ℕ, Bool, List}
use subleq_emu.Ram.{Ram}

-- `JIT_MAX_BLOCK`, `QUEUE_LEN`, `PENDING_LEN`
abbrev pub max_block : ℕ
max_block = 64

abbrev pub queue_len : ℕ
queue_len = 1024

abbrev pub pending_len : ℕ
pending_len = 4096

-- `jit_block_t`. The three words of `smask` are a function of their index.
pub record Block : Type 0 where
  pub start : ℕ
  pub n : ℕ
  pub entry : ℕ
  pub inv_stub : ℕ
  pub incoming : List ℕ
  pub hoist : List ℕ
  pub smask : ℕ → ℕ
  pub shash : ℕ
  pub valid : Bool

-- The counters of `jit_stats_t` that the dispatcher keeps.
pub record Stats : Type 0 where
  pub executed : ℕ
  pub entries : ℕ
  pub links : ℕ
  pub smc_exits : ℕ
  pub hoist_exits : ℕ
  pub smc_words : ℕ
  pub invalidations : ℕ
  pub revalidations : ℕ
  pub interp_steps : ℕ
  pub flushes : ℕ

-- An entry of `pending`: a block and the epoch it was made in.
pub record Pending : Type 0 where
  pub block : ℕ
  pub stamp : ℕ

-- `jit_cpu_t`, without the registers and tables that live only while a block is translated.
-- `code` is the memory of the code cache, by address.
pub record Cpu : Type 0 where
  pub code : Ram
  pub code_base : ℕ
  pub code_ptr : ℕ
  pub blocks : ℕ → Block
  pub nblocks : ℕ
  pub free_links : ℕ
  pub nlinks : ℕ
  pub max_links : ℕ
  pub nmeta : ℕ
  pub htab : ℕ → List ℕ
  pub last_eip : ℕ
  pub strong : Bool
  pub weak_steps : ℕ
  pub exact : Bool
  pub qhead : ℕ
  pub qtail : ℕ
  pub qoverflow : Bool
  pub queue : ℕ → ℕ
  pub phead : ℕ
  pub ptail : ℕ
  pub pending : ℕ → Pending
  pub stats : Stats

-- The file's variables, with Dawn's memory. The maps are arrays of bytes.
pub record Machine : Type 0 where
  pub mem : Ram
  pub mem_size : ℕ
  pub static_map : ℕ → ℕ
  pub dyn_map : ℕ → ℕ
  pub page_map : ℕ → ℕ
  pub ncpus : ℕ
  pub cpus : ℕ → Cpu
  pub epoch : ℕ
  pub quiet : ℕ → ℕ
