-- ===== src/Bcache/Write.antt =====
-- `bwrite` of kernel/bio.c after a change of the buffer's bytes.
use lainos_fail.Base.{
  ℕ, ◌<◌, ◌≡◌, ◌≢◌, refl, true, false, leb, ◌==◌, arith, update, update_self, update_ne, sym, ap,
  ◌∙◌, subst, Outcome, done,
}
use lainos_fail.Mem.{Memory}
use lainos_fail.Bcache.{nbuf, Buf, Bcache, is_for, Sectors, iderw, bwrite}
use lainos_fail.Bcache.View.{IsCoherent, Shows, Holds, Alone, at_or, same_sector, others_only}

-- The holder of a buffer changes its bytes.
abbrev pub edited : (b : ℕ) → (m : Memory) → Bcache → Bcache
edited b m s = record s { buf = update s.buf b (record (s.buf b) { bytes = m }) }

-- The bytes are on the disk, and the content of the sector; the others' content is as before.
abbrev pub WritesBuf :
    (sector : ℕ) → (m : Memory) → Bcache → Sectors → Outcome (Bcache × Sectors) → Type 0
WritesBuf sector m s disk o =
    (s' : Bcache) × (disk' : Sectors) × (o ≡ done (s', disk'))
    × IsCoherent s' disk'
    × (disk' sector ≡ m)
    × Shows s' disk' sector m
    × ((k : ℕ) (x : Memory) → k ≢ sector → Shows s disk k x → Shows s' disk' k x)

module _ (sector b : ℕ) (m : Memory) (s s' : Bcache) (disk disk' : Sectors) (lt : b < nbuf)
    (co : IsCoherent s disk) (alone : Alone b s s') (was : is_for 1 sector (s.buf b) ≡ true)
    (here : is_for 1 sector (s'.buf b) ≡ true)
    (same_dev : (k : ℕ) → is_for 1 k (s'.buf b) ≡ is_for 1 k (s.buf b))
    (valid : (s'.buf b).valid ≡ true) (bytes : (s'.buf b).bytes ≡ m) (on_disk : disk' sector ≡ m)
    (off_disk : (k : ℕ) → k ≢ sector → disk' k ≡ disk k) where
  still_for : (k c : ℕ) → is_for 1 k (s'.buf c) ≡ is_for 1 k (s.buf c)
  still_for k =
      at_or b (λ c. is_for 1 k (s'.buf c) ≡ is_for 1 k (s.buf c)) (same_dev k)
        (λ c ne. ap (is_for 1 k) (alone c ne))

  other_sector : (k c : ℕ) → c < nbuf → c ≢ b → is_for 1 k (s.buf c) ≡ true → k ≢ sector
  other_sector k c low ne f e =
      let none_there = others_only sector b s disk co lt was c low ne in
      let f' = subst (λ j. is_for 1 j (s.buf c) ≡ true) e f in ground (arith, none_there, f')

  written_IsCoherent : IsCoherent s' disk'
  written_IsCoherent = record {
    unique = λ k c c' low low' f f'.
        co.unique k c c' low low' (sym (still_for k c) ∙ f) (sym (still_for k c') ∙ f');
    clean = λ k.
        at_or b
          (λ c.
            c < nbuf
            → is_for 1 k (s'.buf c) ≡ true
            → (s'.buf c).valid ≡ true
            → (s'.buf c).dirty ≡ false
            → (s'.buf c).bytes ≡ disk' k)
          (λ low f v cl.
            bytes ∙ sym on_disk ∙ ap disk' (sym (same_sector k sector (s'.buf b) here f)))
          (λ c ne low f v cl.
            let u = alone c ne in
            let f' = sym (still_for k c) ∙ f in
            ap (λ w. w.bytes) u
            ∙ co.clean k c low f' (sym (ap (λ w. w.valid) u) ∙ v) (sym (ap (λ w. w.dirty) u) ∙ cl)
            ∙ sym (off_disk k (other_sector k c low ne f')));
    dirty =
        at_or b (λ c. c < nbuf → (s'.buf c).dirty ≡ true → (s'.buf c).valid ≡ true) (λ low d. valid)
          (λ c ne low d.
            let u = alone c ne in
            ap (λ w. w.valid) u ∙ co.dirty c low (sym (ap (λ w. w.dirty) u) ∙ d));
  }

  written_Shows : Shows s' disk' sector m
  written_Shows = record {
    cached =
        at_or b
          (λ c.
            c < nbuf
            → is_for 1 sector (s'.buf c) ≡ true
            → (s'.buf c).valid ≡ true
            → (s'.buf c).bytes ≡ m)
          (λ low f v. bytes)
          (λ c ne low f v.
            absurd (other_sector sector c low ne (sym (still_for sector c) ∙ f) refl));
    stored = λ gone. on_disk;
  }

  others_Show : (k : ℕ) (x : Memory) → k ≢ sector → Shows s disk k x → Shows s' disk' k x
  others_Show k x ne sh =
      let not_b : (c : ℕ) → is_for 1 k (s.buf c) ≡ true → c ≢ b = λ c f e.
        ne (same_sector k sector (s.buf b) was (subst (λ j. is_for 1 k (s.buf j) ≡ true) e f)) in
      record {
        cached = λ c low f v.
            let f' = sym (still_for k c) ∙ f in
            let u = alone c (not_b c f') in
            ap (λ w. w.bytes) u ∙ sh.cached c low f' (sym (ap (λ w. w.valid) u) ∙ v);
        stored = λ gone.
            off_disk k ne
            ∙ sh.stored (λ c low f.
              sym (ap (λ w. w.valid) (alone c (not_b c f))) ∙ gone c low (still_for k c ∙ f));
      }

-- `bwrite` of a changed buffer that the caller holds puts its bytes on the disk, keeps the cache
-- coherent, and changes the content of no other sector.
pub bwrite_lem :
    (disksize sector b : ℕ) (m : Memory) (s : Bcache) (disk : Sectors)
    → IsCoherent s disk
    → b < nbuf
    → Holds sector b s
    → sector < disksize
    → WritesBuf sector m s disk (bwrite disksize b (edited b m s, disk))
unfolding bwrite iderw
bwrite_lem disksize sector b m s disk co lt (was, busy, valid) within =
    let u : Buf = record (s.buf b) { valid = true; dirty = false; bytes = m } in
    let w : Buf = record (s.buf b) { bytes = m } in
    let s' : Bcache = record s {
      buf = update (update (update s.buf b w) b (record w { dirty = true })) b u;
    } in
    let disk' : Sectors = update disk sector m in
    let at : (s.buf b).sector ≡ sector = ground (arith, was) in
    let dev : ((s.buf b).dev == 1) ≡ true = ground (arith, was) in
    let same : (b == b) ≡ true = ground arith in
    let fits : leb disksize sector ≡ false = ground (arith, within) in
    let alone : Alone b s s' = λ c ne. ground (arith, ne) in
    let is_u : s'.buf b ≡ u = ground arith in
    let here : is_for 1 sector (s'.buf b) ≡ true = rw is_u was in
    let same_dev : (k : ℕ) → is_for 1 k (s'.buf b) ≡ is_for 1 k (s.buf b) = λ k. rw is_u refl in
    let bytes : (s'.buf b).bytes ≡ m = rw is_u refl in
    let valid' : (s'.buf b).valid ≡ true = rw is_u refl in
    let on_disk : disk' sector ≡ m = update_self disk sector m in
    let off_disk : (k : ℕ) → k ≢ sector → disk' k ≡ disk k = λ k ne. update_ne disk sector m k ne in
    (
      s',
      disk',
      rw (same, busy, valid, dev, at, fits) refl,
      written_IsCoherent sector b m s s' disk disk' lt co alone was here same_dev valid' bytes
          on_disk off_disk,
      on_disk,
      written_Shows sector b m s s' disk disk' lt co alone was here same_dev valid' bytes on_disk
          off_disk,
      others_Show sector b m s s' disk disk' lt co alone was here same_dev valid' bytes on_disk
          off_disk,
    )
