-- ===== src/Bcache/Tests.antt =====
-- The theorems on kernel/bio.c at the cache after its start.
use lainos_fail.Base.{
  ℕ, ◌≡◌, refl, sym, ap, ◌∙◌, true, false, [], ◌∷◌, arith, if◌then◌else◌, update, ◌==◌,
}
use lainos_fail.Bcache.{Buf, Bcache, binit, bget, bwrite, brelse, Sectors, is_for}
use lainos_fail.Bcache.Write.{edited, WritesBuf, bwrite_lem}
use lainos_fail.Bcache.Ring.{IsRing, Releases, brelse_lem}
use lainos_fail.Bcache.Search.{GetsBuf, bget_lem}
use lainos_fail.Bcache.View.{IsCoherent}
use lainos_fail.Bcache.Start.{initial_order, binit_lem}

abbrev zero_buf : Buf
zero_buf = record {
  busy = false;
  valid = false;
  dirty = false;
  dev = 0;
  sector = 0;
  bytes = λ o. 0;
}

abbrev blank : Bcache
blank = record { buf = λ b. zero_buf; next = λ b. 0; prev = λ b. 0 }

-- Sector `k` is full of the byte `k`.
abbrev disk : Sectors
disk k o = k

bget_lem_example : GetsBuf 1 7 initial_order (binit blank) (bget 1 7 (binit blank))
bget_lem_example = bget_lem 1 7 initial_order (binit blank) (binit_lem blank disk (λ b lt. refl)).0

-- The ring after the start with the buffer 8, the second in the order, held by a process.
abbrev held : Bcache
held = record (binit blank) { buf = update (binit blank).buf 8 (record zero_buf { busy = true }) }

held-IsRing : IsRing initial_order held
held-IsRing =
    let r = (binit_lem blank disk (λ b lt. refl)).0 in
    record {
      forward = r.forward;
      backward = r.backward;
      distinct = r.distinct;
      members = r.members;
      size = r.size;
      complete = r.complete;
    }

brelse_lem_example : Releases (9 ∷ []) 8 (7 ∷ 6 ∷ 5 ∷ 4 ∷ 3 ∷ 2 ∷ 1 ∷ 0 ∷ []) held (brelse 8 held)
brelse_lem_example = brelse_lem (9 ∷ []) 8 (7 ∷ 6 ∷ 5 ∷ 4 ∷ 3 ∷ 2 ∷ 1 ∷ 0 ∷ []) held held-IsRing

-- Buffer 3 holds sector 7 for a process.
abbrev seven : Buf
seven = record { busy = true; valid = true; dirty = false; dev = 1; sector = 7; bytes = λ o. 7 }

abbrev with_seven : Bcache
with_seven = record (binit blank) { buf = λ b. if b == 3 then seven else zero_buf }

three : (sector b : ℕ) → is_for 1 sector (with_seven.buf b) ≡ true → (b ≡ 3) × (sector ≡ 7)
three sector b f = (ground (arith, f), ground (arith, f))

with_seven-IsCoherent : IsCoherent with_seven disk
with_seven-IsCoherent = record {
  unique = λ k b c lt lt' f f'. (three k b f).0 ∙ sym (three k c f').0;
  clean = λ k b lt f v cl.
      let at = three k b f in ap (λ x. (with_seven.buf x).bytes) (at.0) ∙ ap disk (sym (at.1));
  dirty = λ b lt d. ground (arith, d);
}

bwrite_lem_example :
    WritesBuf 7 (λ o. 1) with_seven disk (bwrite 100 3 (edited 3 (λ o. 1) with_seven, disk))
bwrite_lem_example =
    bwrite_lem 100 7 3 (λ o. 1) with_seven disk with_seven-IsCoherent (omega arith)
      (refl, refl, refl) (omega arith)
