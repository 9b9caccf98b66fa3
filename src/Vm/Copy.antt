-- ===== src/Vm/Copy.antt =====
-- `copyout` of kernel/vm.c writes to user pages only.
use lainos_fail.Base.{
  ℕ, zero, suc, ◌+◌, ◌-◌, ◌*◌, ◌%◌, ◌^◌, ◌≤◌, ◌<◌, ◌≡◌, ◌≢◌, ◌⊎◌, inl, inr, refl, ap, sym, subst,
  ◌∙◌, Bool, true, false, not, ◌&&◌, ◌||◌, List, [], arith, ltb, leb, ◌==◌, length, take, drop,
  length-take, length-drop, Bool-cases,
}
use lainos_fail.Mem.{Memory}
use lainos_fail.Fs.Inode.{put_bytes}
use lainos_fail.Fs.Inode.Overlay.{nth, overlay, overlay-overlay, put_bytes-overlay}
use lainos_fail.Kalloc.{page_size, Kmem}
use lainos_fail.Vm.{pdx, ptx, p2v, pte_addr, is_present, is_user, walkpgdir, uva2ka, copy_loop}
use lainos_fail.Vm.Pages.{same_entry}
use lainos_fail.Vm.Tree.{has_table, entry_at}

-- The kernel address of a user address, and whether the user may use it.
abbrev pub kernel_address : (pgdir : ℕ) → Kmem → (va : ℕ) → ℕ
kernel_address pgdir k va = p2v (pte_addr (entry_at pgdir va k)) + va % page_size

abbrev pub allows : (pgdir : ℕ) → Kmem → (va : ℕ) → Bool
allows pgdir k va =
    is_present (entry_at pgdir va k)
    && is_user (entry_at pgdir va k)
    && not (p2v (pte_addr (entry_at pgdir va k)) == 0)

-- No two user pages are one.
abbrev pub NoSharing : (pgdir : ℕ) → Kmem → Type 0
NoSharing pgdir k =
    (x y : ℕ)
    → x < 2 ^ 32
    → y < 2 ^ 32
    → allows pgdir k x ≡ true
    → allows pgdir k y ≡ true
    → kernel_address pgdir k x ≡ kernel_address pgdir k y
    → x ≡ y

-- The bytes as the process sees them.
abbrev pub user_byte : (pgdir : ℕ) → Kmem → Memory → (va : ℕ) → ℕ
user_byte pgdir k mem va = mem (kernel_address pgdir k va)

-- Memory that is no user page is as before.
abbrev pub KernelKept : (pgdir : ℕ) → Kmem → (mem mem' : Memory) → Type 0
KernelKept pgdir k mem mem' =
    (c : ℕ)
    → ((x : ℕ) → x < 2 ^ 32 → allows pgdir k x ≡ true → kernel_address pgdir k x ≢ c)
    → mem' c ≡ mem c

-- What a copy of `buf` to `va` may do: write all of it and nothing else, or stop at a page that the user may
-- not use.
abbrev pub Copies : (pgdir va : ℕ) → (buf : List ℕ) → Kmem → Memory → Bool × Memory → Type 0
Copies pgdir va buf k mem o =
    ((mem' : Memory) × (o ≡ (true, mem'))
      × ((i : ℕ) → i < length buf → allows pgdir k (va + i) ≡ true)
      × ((x : ℕ)
          → x < 2 ^ 32
          → allows pgdir k x ≡ true
          → user_byte pgdir k mem' x ≡ overlay buf va (user_byte pgdir k mem) x)
      × KernelKept pgdir k mem mem')
    ⊎ ((mem' : Memory) × (o ≡ (false, mem'))
        × ((i : ℕ) × (i < length buf) × (allows pgdir k (va + i) ≡ false))
        × KernelKept pgdir k mem mem')

-- What `uva2ka` gives for the entry of an address with a page table.
pub uva2ka_lem :
    (null pgdir va : ℕ) (k : Kmem)
    → has_table pgdir (pdx va) k ≡ true
    → ((uva2ka null pgdir va k ≡ 0) × (allows pgdir k va ≡ false))
      ⊎ ((uva2ka null pgdir va k ≡ p2v (pte_addr (entry_at pgdir va k)))
          × (allows pgdir k va ≡ true))
unfolding uva2ka walkpgdir
uva2ka_lem null pgdir va k there =
    let e : ℕ = k.word (p2v (pte_addr (k.word (pgdir + 4 * pdx va))) + 4 * ptx va) in
    let here : entry_at pgdir va k ≡ e = rw there refl in
    elim (Bool-cases (not (is_present e) || not (is_user e))) [
      | inl bad ↦ inl (rw (there, bad) refl, rw here (ground (arith, bad)))
      | inr good ↦ elim (Bool-cases (p2v (pte_addr e) == 0)) [
        | inl null_page ↦
            let zero_page : p2v (pte_addr e) ≡ 0 = ground (arith, null_page) in
            inl (rw (there, good, zero_page) refl, rw here (ground (arith, good, null_page)))
        | inr page ↦ inr (rw (there, good) refl, rw here (ground (arith, good, page)))
      ]
    ]

module _ (pgdir va : ℕ) (xs : List ℕ) (k : Kmem) (mem : Memory) (fits : va + length xs ≤ 2 ^ 32)
    (one : va % page_size + length xs ≤ page_size) (ok : allows pgdir k va ≡ true) where
  abbrev to : ℕ
  to = kernel_address pgdir k va

  abbrev copied : Memory
  copied = put_bytes xs to mem

  -- The bytes of the round lie on one page.
  address_in : (j : ℕ) → j < length xs → kernel_address pgdir k (va + j) ≡ to + j
  address_in j lt =
      let e = same_entry pgdir k (va + j) va (omega (arith, one, lt)) in
      rw e (omega (arith, one, lt))

  allowed_in : (j : ℕ) → j < length xs → allows pgdir k (va + j) ≡ true
  allowed_in j lt = let e = same_entry pgdir k (va + j) va (omega (arith, one, lt)) in rw e ok

  copied_kept : KernelKept pgdir k mem copied
  copied_kept c free =
      put_bytes-overlay xs to mem c ∙ elim (Bool-cases (leb to c && ltb c (to + length xs))) [
        | inr out ↦ rw out refl
        | inl inside ↦
            let lt : c - to < length xs = ground (arith, inside) in
            let back : to + (c - to) ≡ c = ground (arith, inside) in
            absurd (
              free (va + (c - to)) (omega (arith, lt, fits)) (allowed_in (c - to) lt)
                (address_in (c - to) lt ∙ back))
      ]

  copied_user :
      NoSharing pgdir k
      → (x : ℕ) → x < 2 ^ 32
      → allows pgdir k x ≡ true
      → user_byte pgdir k copied x ≡ overlay xs va (user_byte pgdir k mem) x
  copied_user alone x small ok' =
      let c : ℕ = kernel_address pgdir k x in
      put_bytes-overlay xs to mem c ∙ elim (Bool-cases (leb va x && ltb x (va + length xs))) [
        | inl inside ↦
            let lt : x - va < length xs = ground (arith, inside) in
            let back : va + (x - va) ≡ x = ground (arith, inside) in
            let at : c ≡ to + (x - va) =
              ap (λ v. kernel_address pgdir k v) (sym back) ∙ address_in (x - va) lt in
            let index : to + (x - va) - to ≡ x - va = omega arith in
            let within : (leb to (to + (x - va)) && ltb (to + (x - va)) (to + length xs)) ≡ true =
              ground (arith, lt) in
            rw (inside, at, within) (ap (λ i. nth xs i) index)
        | inr out ↦ elim (Bool-cases (leb to c && ltb c (to + length xs))) [
          | inr far ↦ rw (out, far) refl
          | inl near ↦
              let lt : c - to < length xs = ground (arith, near) in
              let back : to + (c - to) ≡ c = ground (arith, near) in
              let same : va + (c - to) ≡ x =
                alone (va + (c - to)) x (omega (arith, lt, fits)) small (allowed_in (c - to) lt) ok'
                  (address_in (c - to) lt ∙ back) in
              absurd (ground (arith, out, same, lt))
        ]
      ]

pub copy_loop-nil :
    (fuel null pgdir va : ℕ) (k : Kmem) (mem : Memory)
    → copy_loop fuel null pgdir va [] k mem ≡ (true, mem)
unfolding copy_loop
copy_loop-nil zero null pgdir va k mem = refl
copy_loop-nil (suc fuel) null pgdir va k mem = refl

overlay_at : (zs : List ℕ) (o x : ℕ) (f g : ℕ → ℕ) → f x ≡ g x → overlay zs o f x ≡ overlay zs o g x
overlay_at zs o x f g e = rw e refl

-- The last round: all that is left fits on the page.
pub last_round :
    (pgdir va : ℕ) (buf : List ℕ) (k : Kmem) (mem : Memory)
    → va + length buf ≤ 2 ^ 32
    → va % page_size + length buf ≤ page_size
    → NoSharing pgdir k
    → allows pgdir k va ≡ true
    → Copies pgdir va buf k mem ((true, put_bytes buf (kernel_address pgdir k va) mem))
last_round pgdir va buf k mem fits one alone ok = inl (
  put_bytes buf (kernel_address pgdir k va) mem,
  refl,
  λ i lt. allowed_in pgdir va buf k mem fits one ok i lt,
  λ x small ok'. copied_user pgdir va buf k mem fits one ok alone x small ok',
  copied_kept pgdir va buf k mem fits one ok,
)

-- A round and the rounds after it.
module _ (pgdir va n : ℕ) (buf : List ℕ) (k : Kmem) (mem : Memory) (fits : va + length buf ≤ 2 ^ 32)
    (page : va % page_size + n ≡ page_size) (more : n < length buf) (alone : NoSharing pgdir k)
    (ok : allows pgdir k va ≡ true) where
  front_size : length (take n buf) ≡ n
  front_size = omega (arith, length-take n buf, more)

  back_size : length (drop n buf) ≡ length buf - n
  back_size = length-drop n buf

  front_fits : va + length (take n buf) ≤ 2 ^ 32
  front_fits = omega (arith, front_size, fits, more)

  front_one : va % page_size + length (take n buf) ≤ page_size
  front_one = omega (arith, front_size, page)

  abbrev mem₁ : Memory
  mem₁ = put_bytes (take n buf) (kernel_address pgdir k va) mem

  kept₁ : KernelKept pgdir k mem mem₁
  kept₁ = copied_kept pgdir va (take n buf) k mem front_fits front_one ok

  allowed : (i : ℕ) → i < n → allows pgdir k (va + i) ≡ true
  allowed i lt =
      allowed_in pgdir va (take n buf) k mem front_fits front_one ok i
        (omega (arith, front_size, lt))

  pub next_round :
      (o : Bool × Memory)
      → Copies pgdir (va + n) (drop n buf) k mem₁ o
      → Copies pgdir va buf k mem o
  next_round o (inl (mem', ran, all, bytes, kept)) = inl (
    mem',
    ran,
    λ i lt. elim (Bool-cases (ltb i n)) [
      | inl low ↦ allowed i (ground (arith, low))
      | inr high ↦
          let at : va + n + (i - n) ≡ va + i = ground (arith, high) in
          subst (λ v. allows pgdir k v ≡ true) at
            (all (i - n) (ground (arith, high, lt, back_size)))
    ],
    λ x small ok'.
        bytes x small ok'
        ∙ overlay_at (drop n buf) (va + n) x (user_byte pgdir k mem₁)
            (overlay (take n buf) va (user_byte pgdir k mem))
            (copied_user pgdir va (take n buf) k mem front_fits front_one ok alone x small ok')
        ∙ overlay-overlay n va buf (user_byte pgdir k mem) x (omega (arith, more)),
    λ c free. kept c free ∙ kept₁ c free,
  )
  next_round o (inr (mem', ran, (i, lt, bad), kept)) =
      let at : va + n + i ≡ va + (n + i) = omega arith in
      inr (
        mem',
        ran,
        (n + i, omega (arith, lt, back_size, more), subst (λ v. allows pgdir k v ≡ false) at bad),
        λ c free. kept c free ∙ kept₁ c free,
      )
