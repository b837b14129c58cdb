-- ===== src/Klib/Pieces.antt =====
-- A message of kernel/src/klib.c's `kprint` as a list of pieces, each with its text in the format,
-- its arguments and its output.
use subleq_emu.Prelude.{
  ℕ, ◌%◌, ◌≡◌, ◌≢◌, refl, ap, ◌∙◌, false, Option, some, List, [], ◌∷◌, ◌==◌, All, arith,
}
use subleq_emu.Klib.{kprn_ui, kprn_x}
use subleq_emu.Klib.Format.{
  Arg, null, text, size, int32, int64, then_print, first_bytes, directive, format,
}

pub data Piece : Type 0 where
  plain : ℕ → Piece
  string : List ℕ → Piece
  no_string : Piece
  counted : List ℕ → ℕ → Piece
  decimal hex : ℕ → Piece
  decimal64 hex64 : ℕ → Piece
  character : ℕ → Piece
  unknown : ℕ → Piece

abbrev pub piece_format : Piece → List ℕ → List ℕ
piece_format (plain c) rest = c ∷ rest
piece_format (string s) rest = 37 ∷ 115 ∷ rest
piece_format no_string rest = 37 ∷ 115 ∷ rest
piece_format (counted s n) rest = 37 ∷ 107 ∷ rest
piece_format (decimal n) rest = 37 ∷ 117 ∷ rest
piece_format (hex n) rest = 37 ∷ 120 ∷ rest
piece_format (decimal64 n) rest = 37 ∷ 85 ∷ rest
piece_format (hex64 n) rest = 37 ∷ 88 ∷ rest
piece_format (character c) rest = 37 ∷ 99 ∷ rest
piece_format (unknown d) rest = 37 ∷ d ∷ rest

abbrev pub piece_args : Piece → List Arg → List Arg
piece_args (plain c) rest = rest
piece_args (string s) rest = text s ∷ rest
piece_args no_string rest = null ∷ rest
piece_args (counted s n) rest = text s ∷ size n ∷ rest
piece_args (decimal n) rest = int32 n ∷ rest
piece_args (hex n) rest = int32 n ∷ rest
piece_args (decimal64 n) rest = int64 n ∷ rest
piece_args (hex64 n) rest = int64 n ∷ rest
piece_args (character c) rest = int32 c ∷ rest
piece_args (unknown d) rest = rest

abbrev pub piece_output : Piece → Option (List ℕ)
piece_output (plain c) = some (c ∷ [])
piece_output (string s) = some s
piece_output no_string = some (40 ∷ 110 ∷ 117 ∷ 108 ∷ 108 ∷ 41 ∷ [])
piece_output (counted s n) = first_bytes n s
piece_output (decimal n) = kprn_ui n
piece_output (hex n) = kprn_x n
piece_output (decimal64 n) = kprn_ui n
piece_output (hex64 n) = kprn_x n
piece_output (character c) = some (c % 256 ∷ [])
piece_output (unknown d) = some (63 ∷ [])

-- `%` stands in no plain piece, and an unknown directive has none of the seven letters.
abbrev pub IsPiece : Piece → Type 0
IsPiece (plain c) = c ≢ 37
IsPiece (unknown d) = (d ≢ 115) × (d ≢ 107) × (d ≢ 117) × (d ≢ 85) × (d ≢ 120) × (d ≢ 88) × (d ≢ 99)
IsPiece p = ◌≡◌ {A = ℕ} 0 0

abbrev pub whole_format : List Piece → List ℕ
whole_format [] = []
whole_format (p ∷ ps) = piece_format p (whole_format ps)

abbrev pub whole_args : List Piece → List Arg
whole_args [] = []
whole_args (p ∷ ps) = piece_args p (whole_args ps)

-- The outputs in order, and a new line.
abbrev pub whole_output : List Piece → Option (List ℕ)
whole_output [] = some (10 ∷ [])
whole_output (p ∷ ps) = then_print (piece_output p) (whole_output ps)

format-plain :
    (c : ℕ) (rest : List ℕ) (args : List Arg)
    → c ≢ 37
    → format (c ∷ rest) args ≡ then_print (some (c ∷ [])) (format rest args)
unfolding format
format-plain c [] args h = ground arith
format-plain c (d ∷ fmt) args h = let other : (c == 37) ≡ false = ground arith in rw other refl

format-piece :
    (p : Piece) (rest : List ℕ) (args : List Arg)
    → IsPiece p
    → format (piece_format p rest) (piece_args p args)
      ≡ then_print (piece_output p) (format rest args)
unfolding format directive
format-piece (plain c) rest args h = format-plain c rest args h
format-piece (string s) rest args h = refl
format-piece no_string rest args h = refl
format-piece (counted s n) rest args h = refl
format-piece (decimal n) rest args h = refl
format-piece (hex n) rest args h = refl
format-piece (decimal64 n) rest args h = refl
format-piece (hex64 n) rest args h = refl
format-piece (character c) rest args h = refl
format-piece (unknown d) rest args h =
    let other : directive d args ≡ (some (63 ∷ []), args) = ground arith in
    ap (λ r. then_print r.0 (format rest r.1)) other

-- The loop of `kprint` prints the pieces of its format in order, each from its own arguments, and a
-- new line; an unknown directive prints a question mark and takes no argument.
pub format-whole_format :
    (ps : List Piece) → All IsPiece ps → format (whole_format ps) (whole_args ps) ≡ whole_output ps
format-whole_format [] h = unfold format in refl
format-whole_format (p ∷ ps) h =
    format-piece p (whole_format ps) (whole_args ps) h.0
    ∙ ap (then_print (piece_output p)) (format-whole_format ps h.1)
