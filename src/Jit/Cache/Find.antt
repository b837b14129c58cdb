-- ===== src/Jit/Cache/Find.antt =====
-- `lookup` and the chains that it walks.
use subleq_emu.Prelude.{
  ℕ, ◌≡◌, refl, ◌≢◌, ◌∙◌, sym, ap, inl, inr, none, some, List, [], ◌∷◌, arith, ◌==◌, ==_iff, ==→ne,
  ne→==, ==_self, Bool-cases,
}
use subleq_emu.Jit.State.{Block}
use subleq_emu.Jit.Cache.{find, unlink}

-- No two blocks of a chain start at the same address.
abbrev pub Distinct : (ℕ → Block) → List ℕ → Type 0
Distinct blocks [] = Unit
Distinct blocks (i ∷ chain) = (find blocks (blocks i).start chain ≡ none) × Distinct blocks chain

pub find-start :
    (blocks : ℕ → Block) (a : ℕ) (chain : List ℕ) {i : ℕ}
    → find blocks a chain ≡ some i
    → (blocks i).start ≡ a
unfolding find
find-start blocks a [] e = cc
find-start blocks a (k ∷ chain) e = elim (Bool-cases ((blocks k).start == a)) [
  | inl here ↦ ground arith
  | inr there ↦ find-start blocks a chain (rw there at e)
]

-- Only the addresses of the blocks matter to a search.
pub find_ext :
    (f g : ℕ → Block) (a : ℕ) (chain : List ℕ)
    → ((i : ℕ) → (f i).start ≡ (g i).start)
    → find f a chain ≡ find g a chain
unfolding find
find_ext f g a [] h = refl
find_ext f g a (k ∷ chain) h = rw (h k, find_ext f g a chain h)

pub Distinct-ext :
    (f g : ℕ → Block) (chain : List ℕ)
    → ((i : ℕ) → (f i).start ≡ (g i).start)
    → Distinct f chain
    → Distinct g chain
Distinct-ext f g [] h d = tt
Distinct-ext f g (k ∷ chain) h d = (
  sym (find_ext f g (g k).start chain h) ∙ ap (λ t. find f t chain) (sym (h k)) ∙ d.0,
  Distinct-ext f g chain h d.1,
)

module _ (blocks : ℕ → Block) (i : ℕ) where
  -- Taking block `i` out of a chain hides its address, and no other.
  pub find-unlink_ne :
      (a : ℕ) (chain : List ℕ)
      → (blocks i).start ≢ a
      → find blocks a (unlink i chain) ≡ find blocks a chain
  unfolding find unlink
  find-unlink_ne a [] ne = refl
  find-unlink_ne a (k ∷ chain) ne = elim (Bool-cases (k == i)) [
    | inl here ↦ let k=i : k ≡ i = (==_iff k i).0 here in rw (here, k=i, ne→== _ _ ne)
    | inr there ↦ rw (there, find-unlink_ne a chain ne)
  ]

  pub find-unlink_self :
      (a : ℕ) (chain : List ℕ)
      → Distinct blocks chain
      → find blocks a chain ≡ some i
      → find blocks a (unlink i chain) ≡ none
  unfolding find unlink
  find-unlink_self a [] d e = refl
  find-unlink_self a (k ∷ chain) d e = elim (Bool-cases ((blocks k).start == a)) [
    | inl here ↦
        let k=i : k ≡ i = ground arith in
        let at : (blocks k).start ≡ a = (==_iff _ _).0 here in
        rw (k=i, ==_self i) (ap (λ t. find blocks t chain) (sym at) ∙ d.0)
    | inr there ↦
        let e' : find blocks a chain ≡ some i = rw there at e in
        let apart : k ≢ i =
          λ p. ==→ne _ _ there (ap (λ t. (blocks t).start) p ∙ find-start blocks a chain e') in
        rw (ne→== k i apart, there, find-unlink_self a chain d.1 e')
  ]

  find-unlink_absent :
      (a : ℕ) (chain : List ℕ) → find blocks a chain ≡ none → find blocks a (unlink i chain) ≡ none
  unfolding find unlink
  find-unlink_absent a [] e = refl
  find-unlink_absent a (k ∷ chain) e = elim (Bool-cases ((blocks k).start == a)) [
    | inl here ↦ cc (rw here at e)
    | inr there ↦ elim (Bool-cases (k == i)) [
      | inl at ↦ rw at (rw there at e)
      | inr off ↦ rw (off, there) (find-unlink_absent a chain (rw there at e))
    ]
  ]

  pub Distinct-unlink : (chain : List ℕ) → Distinct blocks chain → Distinct blocks (unlink i chain)
  unfolding unlink
  Distinct-unlink [] d = tt
  Distinct-unlink (k ∷ chain) d = elim (Bool-cases (k == i)) [
    | inl at ↦ rw at (d.1)
    | inr off ↦ rw off (find-unlink_absent (blocks k).start chain d.0, Distinct-unlink chain d.1)
  ]
