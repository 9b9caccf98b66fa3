-- ===== src/Vm/Copyout.antt =====
-- `copyout` of kernel/vm.c over all its rounds.
use lainos_fail.Base.{
  ℕ, zero, suc, ◌+◌, ◌-◌, ◌%◌, ◌^◌, ◌≤◌, ◌<◌, ◌≡◌, inl, inr, refl, ap, ap₂, sym, subst, ◌∙◌, true,
  false, List, [], ◌∷◌, arith, ltb, ◌==◌, add32, min, length, take, drop, length-drop, Bool-cases,
}
use lainos_fail.Mem.{Memory}
use lainos_fail.Fs.Inode.{put_bytes}
use lainos_fail.Kalloc.{page_size, Kmem}
use lainos_fail.Vm.{pdx, p2v, pte_addr, uva2ka, page_round_down, copy_loop, copyout}
use lainos_fail.Vm.Tree.{has_table, entry_at}
use lainos_fail.Vm.Pages.{same_entry}
use lainos_fail.Vm.Copy.{
  kernel_address, allows, NoSharing, Copies, uva2ka_lem, copy_loop-nil, last_round, next_round,
}

take-all : (n : ℕ) (xs : List ℕ) → length xs ≤ n → take n xs ≡ xs
take-all zero [] le = refl
take-all zero (x ∷ xs) le = absurd (omega (arith, le))
take-all (suc n) [] le = refl
take-all (suc n) (x ∷ xs) le = ap (λ r. x ∷ r) (take-all n xs (omega (arith, le)))

drop-all : (n : ℕ) (xs : List ℕ) → length xs ≤ n → drop n xs ≡ []
drop-all zero [] le = refl
drop-all zero (x ∷ xs) le = absurd (omega (arith, le))
drop-all (suc n) [] le = refl
drop-all (suc n) (x ∷ xs) le = drop-all n xs (omega (arith, le))

module _ (fuel null pgdir va b : ℕ) (bs : List ℕ) (k : Kmem) (mem : Memory) where
  abbrev buf : List ℕ
  buf = b ∷ bs

  busy : (length buf == 0) ≡ false
  busy = ground arith

  pub round_fails :
      uva2ka null pgdir (page_round_down va) k ≡ 0
      → copy_loop (suc fuel) null pgdir va buf k mem ≡ (false, mem)
  unfolding copy_loop
  round_fails no_page = rw (busy, no_page) refl

  -- A round on a page that the user may use, with `n` bytes.
  round_goes :
      (n pa : ℕ)
      → uva2ka null pgdir (page_round_down va) k ≡ pa
      → (pa == 0) ≡ false
      → min (page_size - va % page_size) (length buf) ≡ n
      → copy_loop (suc fuel) null pgdir va buf k mem
        ≡ copy_loop fuel null pgdir
            (add32 (page_round_down va) page_size)
            (drop n buf)
            k
            (put_bytes (take n buf) (pa + va % page_size) mem)
  unfolding copy_loop
  round_goes n pa found nonzero count =
      let off : va - page_round_down va ≡ va % page_size = omega arith in
      rw (busy, found, nonzero, off, count) refl

-- Every address of a range has a page table.
abbrev pub HasTables : (pgdir va n : ℕ) → Kmem → Type 0
HasTables pgdir va n k = (i : ℕ) → i < n → has_table pgdir (pdx (va + i)) k ≡ true

copy_loop-Copies :
    (fuel null pgdir va : ℕ) (buf : List ℕ) (k : Kmem) (mem : Memory)
    → length buf ≤ fuel
    → va + length buf ≤ 2 ^ 32
    → NoSharing pgdir k
    → HasTables pgdir va (length buf) k
    → Copies pgdir va buf k mem (copy_loop fuel null pgdir va buf k mem)
copy_loop-Copies fuel null pgdir va [] k mem enough fits alone has = inl (
  mem,
  copy_loop-nil fuel null pgdir va k mem,
  λ i lt. absurd (omega (arith, lt)),
  λ x small ok. ground arith,
  λ c free. refl,
)
copy_loop-Copies zero null pgdir va (b ∷ bs) k mem enough fits alone has =
    absurd (omega (arith, enough))
copy_loop-Copies (suc fuel) null pgdir va (b ∷ bs) k mem enough fits alone has =
    let va0 : ℕ = page_round_down va in
    let buf : List ℕ = b ∷ bs in
    let entry : entry_at pgdir va0 k ≡ entry_at pgdir va k =
      same_entry pgdir k va0 va (omega arith) in
    let off : va - va0 ≡ va % page_size = omega arith in
    let start : va + 0 ≡ va = omega arith in
    let there : has_table pgdir (pdx va0) k ≡ true =
      (let pd : pdx va0 ≡ pdx (va + 0) = omega arith in rw pd (has 0 (omega arith))) in
    elim (uva2ka_lem null pgdir va0 k there) [
      | inl (no_page, bad) ↦ inr (
        mem,
        round_fails fuel null pgdir va b bs k mem no_page,
        (0, omega arith, rw (start, sym entry) bad),
        λ c free. refl,
      )
      | inr (found, good) ↦
          let ok : allows pgdir k va ≡ true = rw (sym entry) good in
          let pa : ℕ = p2v (pte_addr (entry_at pgdir va0 k)) in
          let nonzero : (pa == 0) ≡ false = ground (arith, good) in
          let here : (xs : List ℕ)
              → put_bytes xs (pa + va % page_size) mem
                ≡ put_bytes xs (kernel_address pgdir k va) mem =
            λ xs. ap (λ e. put_bytes xs (p2v (pte_addr e) + va % page_size) mem) entry in
          elim (Bool-cases (ltb (page_size - va % page_size) (length buf))) [
            | inl more ↦
                let n : ℕ = page_size - va % page_size in
                let count : min (page_size - va % page_size) (length buf) ≡ n =
                  ground (arith, more) in
                let next : add32 va0 page_size ≡ va + n = ground (arith, more, fits) in
                let less : n < length buf = ground (arith, more) in
                let left : length (drop n buf) ≤ fuel =
                  (let d = length-drop n buf in omega (arith, d, enough)) in
                let fits' : va + n + length (drop n buf) ≤ 2 ^ 32 =
                  (let d = length-drop n buf in omega (arith, d, less, fits)) in
                let page : va % page_size + n ≡ page_size = omega arith in
                let has' : HasTables pgdir (va + n) (length (drop n buf)) k = (λ i lt.
                  (let d = length-drop n buf in
                    let at : va + n + i ≡ va + (n + i) = omega arith in
                    rw at (has (n + i) (omega (arith, d, lt, less))))) in
                subst (λ o. Copies pgdir va buf k mem o)
                  (sym (
                    round_goes fuel null pgdir va b bs k mem n pa found nonzero count
                    ∙ ap₂ (λ a m. copy_loop fuel null pgdir a (drop n buf) k m) next
                        (here (take n buf))))
                  (next_round pgdir va n buf k mem fits page less alone ok _ (
                    copy_loop-Copies fuel null pgdir (va + n) (drop n buf) k _ left fits' alone
                      has'))
            | inr last ↦
                let n : ℕ = length buf in
                let count : min (page_size - va % page_size) (length buf) ≡ n =
                  ground (arith, last) in
                subst (λ o. Copies pgdir va buf k mem o)
                  (sym (
                    round_goes fuel null pgdir va b bs k mem n pa found nonzero count
                    ∙ ap₂ (λ l m. copy_loop fuel null pgdir (add32 va0 page_size) l k m)
                        (drop-all n buf (omega arith)) (here (take n buf))
                    ∙ copy_loop-nil fuel null pgdir (add32 va0 page_size) k _
                    ∙ ap (λ l. (true, put_bytes l (kernel_address pgdir k va) mem))
                        (take-all n buf (omega arith))))
                  (last_round pgdir va buf k mem fits (ground (arith, last)) alone ok)
          ]
    ]

-- `copyout` to a range that does not wrap and has page tables, which map no page twice, writes the bytes as the
-- process sees them, and no other memory; or returns -1 where it meets a page that the process may not
-- use, having written to user pages only.
pub copyout-Copies :
    (null pgdir va : ℕ) (bytes : List ℕ) (k : Kmem) (mem : Memory)
    → va + length bytes ≤ 2 ^ 32
    → NoSharing pgdir k
    → HasTables pgdir va (length bytes) k
    → Copies pgdir va bytes k mem (copyout null pgdir va bytes k mem)
unfolding copyout
copyout-Copies null pgdir va bytes k mem fits alone has =
    copy_loop-Copies (length bytes) null pgdir va bytes k mem (omega arith) fits alone has
