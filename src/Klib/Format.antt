-- ===== src/Klib/Format.antt =====
-- `kprint` of kernel/src/klib.c: the time, the kind of message and the format, as the bytes that go
-- to port 0xe9. A format is its characters without the terminator, and `args` what `va_arg` finds.
-- `none` is behaviour that C leaves undefined: an argument of another type, a missing one, or a
-- format that ends in `%`, past whose terminator the loop reads on.
use mathlib.Core.Option
use subleq_emu.Prelude.{
  ℕ, zero, suc, ◌+◌, ◌*◌, ◌/◌, ◌%◌, Option, none, some, List, [], ◌∷◌, ◌++◌, ◌==◌, if◌then◌else◌,
}
use subleq_emu.Klib.{kprn_ui, kprn_x}

pub data Arg : Type 0 where
  null : Arg
  text : List ℕ → Arg
  size : ℕ → Arg
  int32 : ℕ → Arg
  int64 : ℕ → Arg

-- Output `out` before that of `rest`.
abbrev pub then_print : Option (List ℕ) → Option (List ℕ) → Option (List ℕ)
then_print (some out) (some rest) = some (out ++ rest)
then_print out rest = none

-- `%s`, with `(null)` for a null pointer
abbrev pub string : List Arg → Option (List ℕ) × List Arg
string (null ∷ args) = (some (40 ∷ 110 ∷ 117 ∷ 108 ∷ 108 ∷ 41 ∷ []), args)
string (text s ∷ args) = (some s, args)
string args = (none, args)

-- The first `n` bytes; the text has as many.
abbrev pub first_bytes : ℕ → List ℕ → Option (List ℕ)
first_bytes zero s = some []
first_bytes (suc n) [] = none
first_bytes (suc n) (c ∷ s) = Option.map (λ r. c ∷ r) (first_bytes n s)

-- `%k`, a text and how many of its bytes
abbrev pub counted : List Arg → Option (List ℕ) × List Arg
counted (text s ∷ size n ∷ args) = (first_bytes n s, args)
counted args = (none, args)

-- `%u`, `%x` and `%U`, `%X`
abbrev pub number32 : (ℕ → Option (List ℕ)) → List Arg → Option (List ℕ) × List Arg
number32 print (int32 n ∷ args) = (print n, args)
number32 print args = (none, args)

abbrev pub number64 : (ℕ → Option (List ℕ)) → List Arg → Option (List ℕ) × List Arg
number64 print (int64 n ∷ args) = (print n, args)
number64 print args = (none, args)

-- `%c`
abbrev pub character : List Arg → Option (List ℕ) × List Arg
character (int32 c ∷ args) = (some (c % 256 ∷ []), args)
character args = (none, args)

-- The directive with letter `d`: its output, and the arguments behind those that it takes.
unfoldable pub directive : ℕ → List Arg → Option (List ℕ) × List Arg
directive d args =
    if d == 115
    then string args
    else if d == 107
    then counted args
    else if d == 117
    then number32 kprn_ui args
    else if d == 85
    then number64 kprn_ui args
    else if d == 120
    then number32 kprn_x args
    else if d == 88
    then number64 kprn_x args
    else if d == 99
    then character args
    else (some (63 ∷ []), args)

-- The loop over the format, which ends with a new line.
unfoldable pub format : List ℕ → List Arg → Option (List ℕ)
format [] args = some (10 ∷ [])
format (c ∷ []) args = if c == 37 then none else some (c ∷ 10 ∷ [])
format (c ∷ d ∷ fmt) args =
    let plain = then_print (some (c ∷ [])) (format (d ∷ fmt) args) in
    let (out, rest) = directive d args in
    let formatted = then_print out (format fmt rest) in if c == 37 then formatted else plain

-- `uptime_raw` in seconds and milliseconds, in brackets; KRNL_PIT_FREQ is 1000.
unfoldable pub timestamp : ℕ → Option (List ℕ)
timestamp ticks =
    let ms = ticks % 1000 * 1000 / 1000 in
    then_print (some (91 ∷ [])) (
      then_print (kprn_ui (ticks / 1000))
        (some (46 ∷ (48 + ms / 100) ∷ (48 + ms / 10 % 10) ∷ (48 + ms % 10) ∷ 93 ∷ 32 ∷ [])))

-- The kinds, each in its colour; a message of another kind ends after the time.
abbrev pub kind_label : ℕ → Option (List ℕ)
kind_label kind =
    if kind == 0
    then some
        (27 ∷ 91 ∷ 51 ∷ 54 ∷ 109 ∷ 105 ∷ 110 ∷ 102 ∷ 111 ∷ 27 ∷ 91 ∷ 51 ∷ 55 ∷ 109 ∷ 58 ∷ 32 ∷ [])
    else if kind == 1
    then some (
        27 ∷ 91 ∷ 51 ∷ 51 ∷ 109 ∷ 119 ∷ 97 ∷ 114 ∷ 110 ∷ 105 ∷ 110 ∷ 103 ∷ 27 ∷ 91 ∷ 51 ∷ 55 ∷ 109
        ∷ 58 ∷ 32 ∷ [])
    else if kind == 2
    then some
        (27 ∷ 91 ∷ 51 ∷ 49 ∷ 109 ∷ 69 ∷ 82 ∷ 82 ∷ 79 ∷ 82 ∷ 27 ∷ 91 ∷ 51 ∷ 55 ∷ 109 ∷ 58 ∷ 32 ∷ [])
    else if kind == 3
    then some
        (27 ∷ 91 ∷ 51 ∷ 54 ∷ 109 ∷ 68 ∷ 69 ∷ 66 ∷ 85 ∷ 71 ∷ 27 ∷ 91 ∷ 51 ∷ 55 ∷ 109 ∷ 58 ∷ 32 ∷ [])
    else none

unfoldable pub kprint : ℕ → ℕ → List ℕ → List Arg → Option (List ℕ)
kprint ticks kind fmt args = elim (kind_label kind) [
  | none ↦ timestamp ticks
  | some label ↦ then_print (timestamp ticks) (then_print (some label) (format fmt args))
]
