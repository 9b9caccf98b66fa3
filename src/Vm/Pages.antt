-- ===== src/Vm/Pages.antt =====
-- The entries of the addresses on one page, in the tables of kernel/vm.c.
use lainos_fail.Base.{
  ℕ, ◌/◌, ◌^◌, ◌<◌, ◌≡◌, ◌≢◌, ◌⊎◌, inl, inr, refl, ◌∙◌, Bool, true, List, arith, ◌==◌,
  if◌then◌else◌, Bool-cases,
}
use lainos_fail.Kalloc.{page_size, Kmem}
use lainos_fail.Vm.{pdx, ptx, write_word}
use lainos_fail.Vm.Tree.{has_table, slot, entry_at, IsTree, entry_at_written, entry_at_others}

-- Two addresses on one page.
abbrev pub same_page : (a b : ℕ) → Bool
same_page a b = a / page_size == b / page_size

-- Addresses on one page have one entry.
pub same_entry :
    (pgdir : ℕ) (k : Kmem) (x y : ℕ)
    → x / page_size ≡ y / page_size
    → entry_at pgdir x k ≡ entry_at pgdir y k
same_entry pgdir k x y e =
    let pd : pdx x ≡ pdx y = omega (arith, e) in
    let pt : ptx x ≡ ptx y = omega (arith, e) in rw (pd, pt) refl

-- The entry of an address on the same page is the one that is written, and no other.
pub written_entry :
    (kernel_end pgdir a e : ℕ) (k : Kmem) (ps : List ℕ)
    → IsTree kernel_end pgdir k ps
    → has_table pgdir (pdx a) k ≡ true
    → a < 2 ^ 32
    → (va : ℕ) → va < 2 ^ 32
    → entry_at pgdir va (write_word (slot pgdir a k) e k)
      ≡ (if same_page va a then e else entry_at pgdir va k)
written_entry kernel_end pgdir a e k ps t there word va small = elim (Bool-cases (same_page va a)) [
  | inl same ↦
      let pd : pdx va ≡ pdx a = ground (arith, same) in
      let pt : ptx va ≡ ptx a = ground (arith, same) in
      let k' : Kmem = write_word (slot pgdir a k) e k in
      let one : entry_at pgdir va k' ≡ entry_at pgdir a k' = rw (pd, pt) refl in
      rw same (one ∙ entry_at_written kernel_end pgdir a e k ps t there)
  | inr other ↦
      let apart : (pdx va ≢ pdx a) ⊎ (ptx va ≢ ptx a) = elim (Bool-cases (pdx va == pdx a)) [
        | inl pd ↦ inr (ground (arith, other, pd, word, small))
        | inr pd ↦ inl (ground (arith, pd))
      ] in
      rw other (entry_at_others kernel_end pgdir a e k ps t there va apart)
]
