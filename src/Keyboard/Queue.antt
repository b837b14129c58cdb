-- ===== src/Keyboard/Queue.antt =====
-- What `keyboard_handler` of kernel/src/keyboard.c does to the queue of deferred writes, and what it
-- reads of its tables.
use mathlib.Core.Option
use subleq_emu.Prelude.{
  ℕ, ◌+◌, ◌≤◌, ◌≡◌, refl, ◌∙◌, sym, ap, inl, inr, ◌⊎◌, Bool, true, false, ◌||◌, Option, none, some,
  List, [], ◌∷◌, ◌++◌, arith, ◌==◌, ltb, Option-cases, if◌then◌else◌, length,
}
use subleq_emu.Io.{Entry, Io, io_write, io_stack_max}
use subleq_emu.Io.Reg
use subleq_emu.Io.Queue.{
  contents, enqueue, InRing, waiting, length-entries, io_write-enqueue, io_write-InRing,
}
use subleq_emu.Keyboard.{
  Keyboard, put, move, click, extra_key, keypad, modifier, plain_key, keyboard_handler,
}

-- The queue `t` is `s` or has one write more.
abbrev pub Grows : Io → Io → Type 0
Grows s t =
    InRing t × ((contents t ≡ contents s) ⊎ ((e : Entry) × (contents t ≡ contents s ++ (e ∷ []))))

-- A panic needs a full queue.
abbrev pub Reacts : Io → Option Keyboard → Type 0
Reacts s none = length (contents s) + 1 ≡ io_stack_max
Reacts s (some k) = Grows s k.io

stays : (s : Io) → InRing s → Grows s s
stays s r = (r, inl refl)

enqueued_list :
    (q : List Entry) (e : Entry) {p : List Entry} → some p ≡ enqueue q e → p ≡ q ++ (e ∷ [])
enqueued_list q e eq = ground arith

enqueue_full : (q : List Entry) (e : Entry) → none ≡ enqueue q e → io_stack_max ≤ length q + 1
enqueue_full q e eq = ground arith

-- The queue that `io_write` leaves, and the one that makes it panic.
written_queue :
    (s : Io) (loc v : ℕ) {t : Io}
    → InRing s
    → io_write s loc v ≡ some t
    → contents t ≡ contents s ++ (record { io_loc = loc; value = v } ∷ [])
written_queue s loc v r done =
    enqueued_list (contents s) _ (sym (ap (Option.map contents) done) ∙ io_write-enqueue s loc v r)

panic_queue :
    (s : Io) (loc v : ℕ)
    → InRing s
    → io_write s loc v ≡ none
    → length (contents s) + 1 ≡ io_stack_max
panic_queue s loc v r panic =
    let least =
      enqueue_full (contents s) _
        (sym (ap (Option.map contents) panic) ∙ io_write-enqueue s loc v r) in
    omega (arith, least, length-entries s.stack s.head (waiting s))

put-Reacts : (k : Keyboard) (loc v : ℕ) → InRing k.io → Reacts k.io (put k loc v)
unfolding put
put-Reacts k loc v r = elim (Option-cases (io_write k.io loc v)) [
  | inl panic ↦ rw (Reacts, panic) (panic_queue k.io loc v r panic)
  | inr (t, done) ↦
      rw (Reacts, done)
        (io_write-InRing k.io loc v r done, inr (_, written_queue k.io loc v r done))
]

move-Reacts : (k : Keyboard) (loc v : ℕ) → InRing k.io → Reacts k.io (move k loc v)
unfolding move
move-Reacts k loc v r = put-Reacts (record k { hw_mouse_enabled = false }) loc v r

click-Reacts : (k : Keyboard) (loc v : ℕ) → InRing k.io → Reacts k.io (click k loc v)
unfolding click
click-Reacts k loc v r = stays k.io r

-- A conditional has a property that both of its branches have.
both_branches :
    {A : Type 0} (P : A → Type 0) (c : Bool) (x y : A) → P x → P y → P (if c then x else y)
both_branches P true x y hx hy = hx
both_branches P false x y hx hy = hy

-- The same of a stage of the handler, which may leave the code to the next.
abbrev StageReacts : Io → Option (Option Keyboard) → Type 0
StageReacts s none = ℕ
StageReacts s (some r) = Reacts s r

module _ (k : Keyboard) (b : ℕ) (r : InRing k.io) where
  extra_key-Reacts : Reacts k.io (extra_key k b)
  unfolding extra_key
  extra_key-Reacts =
      let R = Reacts k.io in
      both_branches R (b == 0x48) _ _ (put-Reacts k Reg.keyboard_base _ r) (
        both_branches R (b == 0x4b) _ _ (put-Reacts k Reg.keyboard_base _ r) (
          both_branches R (b == 0x50) _ _ (put-Reacts k Reg.keyboard_base _ r) (
            both_branches R (b == 0x4d) _ _ (put-Reacts k Reg.keyboard_base _ r) (
              both_branches R (b == 0x49) _ _ (put-Reacts k Reg.keyboard_base _ r) (
                both_branches R (b == 0x51) _ _ (put-Reacts k Reg.keyboard_base _ r) (
                  both_branches R (b == 0x53) _ _ (put-Reacts k Reg.keyboard_base _ r) (
                    both_branches R (b == 0x1d) _ _ (stays k.io r)
                      (both_branches R (b == 0x9d) _ _ (stays k.io r) (stays k.io r)))))))))

  keypad-Reacts : StageReacts k.io (keypad k b)
  unfolding keypad
  keypad-Reacts =
      let S = StageReacts k.io in
      both_branches S (b == 0x4b) _ _ (move-Reacts k _ _ r) (
        both_branches S (b == 0x4d) _ _ (move-Reacts k _ _ r) (
          both_branches S (b == 0x48) _ _ (move-Reacts k _ _ r) (
            both_branches S (b == 0x50) _ _ (move-Reacts k _ _ r) (
              both_branches S (b == 0x47) _ _ (click-Reacts k _ _ r) (
                both_branches S (b == 0xc7) _ _ (click-Reacts k _ _ r) (
                  both_branches S (b == 0x49) _ _ (click-Reacts k _ _ r) (
                    both_branches S (b == 0xc9) _ _ (click-Reacts k _ _ r) (
                      both_branches S (b == 0x4c) _ _ (click-Reacts k _ _ r)
                        (both_branches S (b == 0xcc) _ _ (click-Reacts k _ _ r) (0))))))))))

  modifier-Reacts : StageReacts k.io (Option.map some (modifier k b))
  unfolding modifier
  modifier-Reacts =
      let S = λ (o : Option Keyboard). StageReacts k.io (Option.map some o) in
      both_branches S (b == 0x2a || b == 0x36) _ _ (stays k.io r) (
        both_branches S (b == 0xaa || b == 0xb6) _ _ (stays k.io r) (
          both_branches S (b == 0x1d) _ _ (stays k.io r) (
            both_branches S (b == 0x9d) _ _ (stays k.io r)
              (both_branches S (b == 0x3a) _ _ (stays k.io r) 0))))

  plain_key-Reacts : (beyond : ℕ → ℕ) → Reacts k.io (plain_key beyond k b)
  unfolding plain_key
  plain_key-Reacts beyond =
      both_branches (Reacts k.io) (ltb b 0x57) _ _ (put-Reacts k Reg.keyboard_base _ r)
        (stays k.io r)

  later_stage :
      (o : Option (Option Keyboard)) (rest : Option Keyboard)
      → StageReacts k.io o
      → Reacts k.io rest
      → Reacts k.io (elim o [ some t ↦ t | none ↦ rest ])
  later_stage none rest ho hr = hr
  later_stage (some t) rest ho hr = ho

  later_key :
      (o : Option Keyboard) (rest : Option Keyboard)
      → StageReacts k.io (Option.map some o)
      → Reacts k.io rest
      → Reacts k.io (elim o [ some t ↦ some t | none ↦ rest ])
  later_key none rest ho hr = hr
  later_key (some t) rest ho hr = ho

-- Any byte from the keyboard, on a valid ring: the handler keeps the ring valid and leaves the queue
-- as it was or puts one write behind it, and it panics only when 4095 writes wait already.
pub keyboard_handler-Reacts :
    (beyond : ℕ → ℕ) (k : Keyboard) (b : ℕ)
    → InRing k.io
    → Reacts k.io (keyboard_handler beyond k b)
unfolding keyboard_handler
keyboard_handler-Reacts beyond k b r = both_branches (Reacts k.io) (b == 0xe0) _ _ (stays k.io r) (
    both_branches (Reacts k.io) k.extra_scancodes _ _
      (extra_key-Reacts (record k { extra_scancodes = false }) b r)
      (later_stage k b r (keypad k b) _ (keypad-Reacts k b r)
        (later_key k b r (modifier k b) _ (modifier-Reacts k b r) (plain_key-Reacts k b r beyond))))
