-- ===== src/Jit/Regs/Ready.antt =====
-- The values found for the two words that an unaligned one lies in.
use subleq_emu.Prelude.{ℕ, ◌+◌, ◌<◌, ◌≡◌, refl, sym, ◌∙◌, true, if◌then◌else◌, two64}
use subleq_emu.Ram.{Ram, readram}
use subleq_emu.Ram.Words.{IsBytes}
use subleq_emu.Jit.Regs.{
  Translator, Cval, unknown, in_reg, constant, negated, is_known, reg_index, pin,
}
use subleq_emu.Jit.Regs.Code.{Processor, run}
use subleq_emu.Jit.Regs.Entries.{Means}
use subleq_emu.Jit.Regs.Values.{pin_val, get_if}
use subleq_emu.Jit.Regs.Room.{room}
use subleq_emu.Jit.Regs.Store.{if_rule}
use subleq_emu.Jit.Regs.Pending.{Holds, Moves, Moves-refl, need}
use subleq_emu.Jit.Regs.Load.{Got, Usable}
use subleq_emu.Jit.Regs.Get.{get_word-Got, pin-Got}

-- A value of the cache, in a pinned register if it is in one.
pub record Ready (s : Processor) (m : Ram) (n : ℕ) (j : Translator) (a : ℕ) (k : Translator)
    (v : Cval) : Type 0 where
  pub holds : Holds s m k
  pub moves : Moves s n j k
  pub out : k.out ≡ j.out
  pub means : Means (run k.out s).gpr v (readram m a)
  pub usable : is_known v ≡ true → Usable k v

-- The registers pinned for a value that is found, and for one that is not.
abbrev pub when_found : Cval → ℕ
when_found v = if is_known v then 1 else 0

abbrev pub when_new : Cval → ℕ
when_new v = if is_known v then 0 else 1

pub found_or_new : (v : Cval) → when_found v + when_new v ≡ 1
found_or_new unknown = refl
found_or_new (in_reg r) = refl
found_or_new (constant c) = refl
found_or_new (negated r) = refl

pin_out : (j : Translator) (r : ℕ) → (pin j r).out ≡ j.out
unfolding pin
pin_out j r = if_rule (λ (k : Translator). k.out ≡ j.out) _ _ _ (λ e. refl) (λ e. refl)

module _ (s : Processor) (m : Ram) where
  pub steady-Means :
      (n : ℕ) (j k : Translator) (v : Cval) (w : ℕ)
      → Moves s n j k
      → (is_known v ≡ true → Usable j v)
      → Means (run j.out s).gpr v w
      → Means (run k.out s).gpr v w × (is_known v ≡ true → Usable k v)
  steady-Means n j k unknown w h u e = (tt, λ bad. bad)
  steady-Means n j k (constant c) w h u e = (e, λ o. tt)
  steady-Means n j k (in_reg r) w h u (al, e) =
      let ((lt, is_r), p) = u refl in
      let same = h.values (reg_index r) lt p in
      ((al, e ∙ sym (rw is_r at same)), λ o. ((lt, is_r), h.pinned (reg_index r) p))
  steady-Means n j k (negated r) w h u (al, small, e) =
      let ((lt, is_r), p) = u refl in
      let same : (run k.out s).gpr r ≡ (run j.out s).gpr r =
        rw is_r at (h.values (reg_index r) lt p) in
      ((al, rw same small, e ∙ rw same refl), λ o. ((lt, is_r), h.pinned (reg_index r) p))

  pub pin_val-Ready :
      (j : Translator) (a : ℕ) (v : Cval)
      → Holds s m j
      → Means (run j.out s).gpr v (readram m a)
      → Ready s m (when_found v) j a (pin_val j v) v
  pin_val-Ready j a unknown h e = record {
    holds = h;
    moves = Moves-refl s 0 j;
    out = refl;
    means = tt;
    usable = λ bad. bad;
  }
  pin_val-Ready j a (constant c) h e = record {
    holds = h;
    moves = Moves-refl s 1 j;
    out = refl;
    means = e;
    usable = λ o. tt;
  }
  pin_val-Ready j a (in_reg r) h e =
      let g = pin-Got s m j a r (in_reg r) h e.0 e (λ l. l) in
      record {
        holds = g.holds;
        moves = g.moves;
        out = pin_out j r;
        means = g.means;
        usable = λ o. g.usable;
      }
  pin_val-Ready j a (negated r) h e =
      let g = pin-Got s m j a r (negated r) h e.0 e (λ l. l) in
      record {
        holds = g.holds;
        moves = g.moves;
        out = pin_out j r;
        means = g.means;
        usable = λ o. g.usable;
      }

  pub get_if-Got :
      (j : Translator) (a : ℕ) (v : Cval)
      → IsBytes m
      → need j.pend < room j
      → Holds s m j
      → a < two64
      → Means (run j.out s).gpr v (readram m a)
      → (is_known v ≡ true → Usable j v)
      → Got s m (when_new v) j a (get_if j a v).0 (get_if j a v).1
  unfolding get_if
  get_if-Got j a unknown bytes free h lt e u = get_word-Got s m j a bytes free h lt
  get_if-Got j a (in_reg r) bytes free h lt e u = record {
    holds = h;
    moves = Moves-refl s 0 j;
    means = e;
    usable = u refl;
  }
  get_if-Got j a (constant c) bytes free h lt e u = record {
    holds = h;
    moves = Moves-refl s 0 j;
    means = e;
    usable = u refl;
  }
  get_if-Got j a (negated r) bytes free h lt e u = record {
    holds = h;
    moves = Moves-refl s 0 j;
    means = e;
    usable = u refl;
  }
