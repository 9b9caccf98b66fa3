-- ===== src/Vm/Guard.antt =====
-- `clearpteu` of kernel/vm.c, which `exec` calls for the page under the stack.
use lainos_fail.Base.{
  ℕ, ◌-◌, ◌^◌, ◌<◌, ◌≡◌, ◌≢◌, inl, inr, refl, sym, ◌∙◌, ap, subst, true, false, List, ◌∷◌, arith,
  if◌then◌else◌, Outcome, done, length,
}
use lainos_fail.Kalloc.{Kmem}
use lainos_fail.Mem.{Memory}
use lainos_fail.Vm.{
  pdx, is_present, is_user, write_word, walkpgdir, clearpteu, copyout, page_round_down,
}
use lainos_fail.Vm.Tree.{has_table, slot, entry_at, IsTree, in_dir, written-IsTree}
use lainos_fail.Vm.Pages.{same_page, written_entry}
use lainos_fail.Vm.Copy.{allows, uva2ka_lem}
use lainos_fail.Vm.Copyout.{round_fails}

-- An entry without its user flag.
abbrev kernel_only : (e : ℕ) → ℕ
kernel_only e = if is_user e then e - 4 else e

kernel_only-is_user : (e : ℕ) → is_user (kernel_only e) ≡ false
kernel_only-is_user e = ground arith

clearpteu_runs :
    (pgdir uva : ℕ) (k : Kmem)
    → has_table pgdir (pdx uva) k ≡ true
    → clearpteu pgdir uva k
      ≡ done (write_word (slot pgdir uva k) (kernel_only (k.word (slot pgdir uva k))) k)
unfolding clearpteu walkpgdir
clearpteu_runs pgdir uva k there = rw there refl

not_allowed :
    (pgdir va : ℕ) (k : Kmem) → is_user (entry_at pgdir va k) ≡ false → allows pgdir k va ≢ true
not_allowed pgdir va k no_user ok = ground (arith, no_user, ok)

copyout_refused :
    (null pgdir va b : ℕ) (bs : List ℕ) (k : Kmem) (mem : Memory)
    → has_table pgdir (pdx (page_round_down va)) k ≡ true
    → is_user (entry_at pgdir (page_round_down va) k) ≡ false
    → copyout null pgdir va (b ∷ bs) k mem ≡ (false, mem)
unfolding copyout
copyout_refused null pgdir va b bs k mem there no_user =
    elim (uva2ka_lem null pgdir (page_round_down va) k there) [
      | inl (no_page, bad) ↦ round_fails (length bs) null pgdir va b bs k mem no_page
      | inr (found, ok) ↦ absurd (not_allowed pgdir (page_round_down va) k no_user ok)
    ]

-- What makes the page of `uva` a guard: the tables stay sound, the entries of other pages are kept, and `copyout`
-- to the page fails without writing.
abbrev pub Guards : (kernel_end pgdir uva : ℕ) → Kmem → List ℕ → Outcome Kmem → Type 0
Guards kernel_end pgdir uva k ps o =
    (k' : Kmem) × (o ≡ done k')
    × IsTree kernel_end pgdir k' ps
    × ((va : ℕ)
        → va < 2 ^ 32
        → same_page va uva ≡ false
        → entry_at pgdir va k' ≡ entry_at pgdir va k)
    × ((null va b : ℕ) (bs : List ℕ) (mem : Memory)
        → va < 2 ^ 32
        → same_page va uva ≡ true
        → copyout null pgdir va (b ∷ bs) k' mem ≡ (false, mem))

-- `clearpteu` of an address with a page table makes its page a guard, to which `copyout` does not write.
pub clearpteu-Guards :
    (kernel_end pgdir uva : ℕ) (k : Kmem) (ps : List ℕ)
    → IsTree kernel_end pgdir k ps
    → has_table pgdir (pdx uva) k ≡ true
    → uva < 2 ^ 32
    → Guards kernel_end pgdir uva k ps (clearpteu pgdir uva k)
clearpteu-Guards kernel_end pgdir uva k ps t there word =
    let e : ℕ = kernel_only (k.word (slot pgdir uva k)) in
    let k' : Kmem = write_word (slot pgdir uva k) e k in
    let entries = written_entry kernel_end pgdir uva e k ps t there word in
    (
      k',
      clearpteu_runs pgdir uva k there,
      written-IsTree kernel_end pgdir uva e k ps t there,
      λ va small other. entries va small ∙ ap (λ q. if q then e else entry_at pgdir va k) other,
      λ null va b bs mem small same.
          let va0 : ℕ = page_round_down va in
          let page : same_page va0 uva ≡ true = ground (arith, same) in
          let pd : pdx va0 ≡ pdx uva = ground (arith, same) in
          let there' : has_table pgdir (pdx va0) k' ≡ true = rw pd (
            ap (λ w. is_present w)
              (in_dir kernel_end pgdir uva e k ps t there (pdx uva) (omega arith))
            ∙ there) in
          let here =
            entries va0 (omega (arith, small))
            ∙ ap (λ q. if q then e else entry_at pgdir va0 k) page in
          copyout_refused null pgdir va b bs k' mem there' (
            subst (λ w. is_user w ≡ false) (sym here)
              (kernel_only-is_user (k.word (slot pgdir uva k)))),
    )
