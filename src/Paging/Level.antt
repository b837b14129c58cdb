-- ===== src/Paging/Level.antt =====
-- One level of the tables: what a step of `map_page` does to the processor's walk through an entry.
use mathlib.Core.Bool.{false≢true}
use subleq_emu.Prelude.{
  ℕ, ◌+◌, ◌*◌, ◌/◌, ◌%◌, ◌<◌, ◌≡◌, ◌≢◌, refl, sym, ap, ap₂, subst, ◌∙◌, inl, inr, arith, Bool, true,
  false, Option, none, some, if◌then◌else◌, two64,
}
use subleq_emu.Ram.{Ram}
use subleq_emu.Ram.Words.{load64-store64, store64-other, load64_ext}
use subleq_emu.Pmm.{Pmm}
use subleq_emu.Pmm.Alloc.{IsValid}
use subleq_emu.Paging.{entry, is_present, is_huge, address, set_entry, get_table, pt_idx}
use subleq_emu.Paging.Table.{IsTable, SamePage, Fresh, got, get_table-cases}
use subleq_emu.Paging.Walk.{walk_pt}

entry-SamePage :
    (p q : Pmm) (t i : ℕ) → i < 512 → SamePage t p q → entry q.phys t i ≡ entry p.phys t i
entry-SamePage p q t i lt same =
    load64_ext q.phys p.phys (t + 8 * i) (λ a lo hi. same a (omega arith) (omega arith))

abbrev pub done : Pmm → Pmm × Bool
done q = (q, true)

-- A step that succeeded: the entry is no huge page, there is a table, and the rest succeeded.
record Went (huge : Bool) (r : Pmm × Option ℕ) (next : Pmm → ℕ → Pmm × Bool) (q : Pmm)
    : Type 0 where
  small_page : huge ≡ false
  between : Pmm
  table : ℕ
  found : r ≡ got between table
  rest : next between table ≡ done q

went :
    (p q : Pmm) (huge : Bool) (r : Pmm × Option ℕ) (next : Pmm → ℕ → Pmm × Bool)
    → (if huge then (p, false) else elim r.1 [ none ↦ (r.0, false) | some t ↦ next r.0 t ]) ≡ done q
    → Went huge r next q
went p q true r next h = absurd (false≢true (ap (λ x. x.1) h))
went p q false (b, none) next h = absurd (false≢true (ap (λ x. x.1) h))
went p q false (b, some t) next h = record {
  small_page = refl;
  between = b;
  table = t;
  found = refl;
  rest = h;
}

-- An entry that points to a table.
pub pointer_is_huge : (t : ℕ) → t / 4096 * 4096 ≡ t → is_huge (t + 3) ≡ false
pointer_is_huge t a = ground arith

pointer_is_present : (t : ℕ) → t / 4096 * 4096 ≡ t → is_present (t + 3) ≡ true
pointer_is_present t a = ground arith

pointer_address : (t : ℕ) → t / 4096 * 4096 ≡ t → address (t + 3) ≡ t
pointer_address t a = omega arith

module _ (phys virt : ℕ) (in_phys : phys < two64) where
  -- The result of a whole walk, and what stays.
  pub record Mapped (Off : ℕ → Type 0) (p q : Pmm) (found : Option ℕ) : Type 0 where
    pub walks : found ≡ some (address phys + virt % 0x1000)
    pub same : (u : ℕ) → IsTable p u → Off u → SamePage u p q

  pub set_pt :
      (q : Pmm) (pt : ℕ)
      → IsTable q pt
      → Mapped
          (λ u. u ≢ pt)
          q
          (set_entry q pt (pt_idx virt) (address phys + 3))
          (walk_pt (set_entry q pt (pt_idx virt) (address phys + 3)).phys pt virt)
  unfolding walk_pt
  set_pt q pt here =
      let back = load64-store64 q.phys (pt + 8 * pt_idx virt) (address phys + 3) (omega arith) in
      record {
        walks = rw back (ground arith);
        same =
            λ u t n a lo hi. store64-other q.phys _ _ a (ground (arith, t.aligned, here.aligned));
      }

  -- One level: a walk `onward` behind the entry becomes a walk from table `t` on. `huge` is the
  -- test for a huge page, which gives `large`.
  module _ (huge : ℕ → Bool) (large : ℕ → Option ℕ) (onward : Ram → ℕ → Option ℕ)
      (Off : Pmm → ℕ → ℕ → Type 0) (p : Pmm) (t i : ℕ) (here : IsTable p t) (lt : i < 512) where
    abbrev from : Ram → Option ℕ
    from m =
        if huge (entry m t i)
        then large (entry m t i)
        else if is_present (entry m t i)
        then onward m (address (entry m t i))
        else none

    abbrev OffHere : ℕ → Type 0
    OffHere u =
        (u ≢ t)
        × (if is_present (entry p.phys t i) then Off p (address (entry p.phys t i)) u else Unit)

    through_present :
        (q : Pmm)
        → is_present (entry p.phys t i) ≡ true
        → huge (entry p.phys t i) ≡ false
        → Off p (address (entry p.phys t i)) t
        → Mapped
            (Off p (address (entry p.phys t i)))
            p
            q
            (onward q.phys (address (entry p.phys t i)))
        → Mapped OffHere p q (from q.phys)
    through_present q e small off lower =
        let kept = entry-SamePage p q t i lt (lower.same t here off) in
        record {
          walks = rw (kept, small, e) lower.walks;
          same = λ u k o.
              lower.same u k
                (subst (λ b. if b then Off p (address (entry p.phys t i)) u else Unit) e o.1);
        }

    through_new :
        (between q : Pmm) (next : ℕ)
        → Fresh p t i between next
        → huge (next + 3) ≡ false
        → ((u : ℕ) → u ≢ next → Off between next u)
        → Mapped (Off between next) between q (onward q.phys next)
        → Mapped OffHere p q (from q.phys)
    through_new between q next fresh small off lower =
        let kept =
          entry-SamePage between q t i lt
            (lower.same t (fresh.kept t here) (off t (fresh.apart t here))) in
        let al = fresh.is_table.aligned in
        record {
          walks =
              rw (kept, fresh.pointer, small, pointer_is_present next al, pointer_address next al)
                lower.walks;
          same = λ u k o a lo hi.
              lower.same u (fresh.kept u k) (off u (fresh.apart u k)) a lo hi
              ∙ fresh.same u k o.0 a lo hi;
        }

    -- The level as a whole, where `next` maps from the next table on, over tables in `Good`.
    pub level :
        (next : Pmm → ℕ → Pmm × Bool) (Good : Pmm → ℕ → Type 0) (q : Pmm)
        → IsValid p
        → p.max_page < 0x8000000000000
        → ((n : ℕ) → n / 4096 * 4096 ≡ n → huge (n + 3) ≡ false)
        → ((b : Pmm) (n : ℕ)
            → IsTable b n
            → ((k : ℕ) → k < 512 → entry b.phys n k ≡ 0)
            → Good b n × ((u : ℕ) → u ≢ n → Off b n u))
        → ((b : Pmm) (n : ℕ)
            → IsValid b
            → b.max_page < 0x8000000000000
            → Good b n
            → next b n ≡ done q
            → Mapped (Off b n) b q (onward q.phys n))
        → (if is_present (entry p.phys t i)
            then Good p (address (entry p.phys t i)) × Off p (address (entry p.phys t i)) t
            else Unit)
        → (if huge (entry p.phys t i) then (p, false) else elim (get_table p t i).1 [
          | none ↦ ((get_table p t i).0, false)
          | some n ↦ next (get_table p t i).0 n
        ])
          ≡ done q
        → Mapped OffHere p q (from q.phys)
    level next Good q v small huge_pointer empty lower path h =
        elim (get_table-cases p v small t i here lt w.between w.table w.found) [
          | inl (e, same, at) ↦
              let on =
                subst
                  (λ b.
                    if b
                    then Good p (address (entry p.phys t i)) × Off p (address (entry p.phys t i)) t
                    else Unit)
                  e path in
              let rest : next p (address (entry p.phys t i)) ≡ done q =
                ap₂ next (sym same) (sym at) ∙ w.rest in
              through_present q e w.small_page on.1
                (lower p (address (entry p.phys t i)) v small on.0 rest)
          | inr (e, fresh) ↦
              let new = empty w.between w.table fresh.is_table fresh.empty in
              through_new w.between q w.table fresh (huge_pointer w.table fresh.is_table.aligned)
                new.1 (lower w.between w.table fresh.valid (rw fresh.bound small) new.0 w.rest)
        ]
      where
        w : Went (huge (entry p.phys t i)) (get_table p t i) next q
        w = went p q (huge (entry p.phys t i)) (get_table p t i) next h
