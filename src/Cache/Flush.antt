-- ===== src/Cache/Flush.antt =====
-- flush1 of kernel/blockio.c over a driver that keeps blocks.
use native.Mathlib.Nat.{add-mul}
use fdpp.Base.{
  ℕ, zero, suc, ◌+◌, ◌*◌, ◌<◌, ◌≡◌, ◌≢◌, refl, ◌∙◌, ◌⊎◌, inl, inr, Bool, true, ◌&&◌, if◌then◌else◌,
  arith, Bool-cases, ℕ_discrete,
}
use mathlib.Core.Path.{subst}
use fdpp.Cache.{Buffer, Driver, copies, offset, write_copies, flush1}

-- What a driver promises about the blocks of its disks: a read that succeeds fills the buffer with the
-- block, a write that succeeds stores it, and a write leaves other blocks as they are.
pub record Obeys {S Data : Type 0} (D : Driver S Data) (block : S → ℕ → ℕ → Data) : Type 0 where
  pub reads :
      (s : S) (dsk blkno : ℕ) (old : Data)
      → (D.read s dsk blkno old).0 ≡ true
      → (D.read s dsk blkno old).1 ≡ block s dsk blkno
  pub stores :
      (s : S) (dsk blkno : ℕ) (d : Data)
      → (D.write s dsk blkno d).0 ≡ true
      → block (D.write s dsk blkno d).1 dsk blkno ≡ d
  pub keeps :
      (s : S) (dsk blkno : ℕ) (d : Data) (dsk' blkno' : ℕ)
      → (dsk' ≡ dsk → blkno' ≢ blkno)
      → block (D.write s dsk blkno d).1 dsk' blkno' ≡ block s dsk' blkno'

-- A block that flush1 of a buffer writes.
pub record Touched {Data : Type 0} (x : Buffer Data) (dsk blkno : ℕ) : Type 0 where
  pub same_unit : dsk ≡ x.b_unit
  pub copy : ℕ
  pub written : copy < copies x
  pub place : blkno ≡ x.b_blkno + copy * offset x

module _ {S Data : Type 0} {D : Driver S Data} {block : S → ℕ → ℕ → Data} (O : Obeys D block) where
  next_copy : (i blkno off : ℕ) → blkno + off + i * off ≡ blkno + (i + 1) * off
  next_copy i blkno off = let e = add-mul i 1 off in omega (arith, e)

  write_copies-keeps :
      (n : ℕ) (s : S) (dsk blkno off : ℕ) (d : Data) (dsk' blkno' : ℕ)
      → ((i : ℕ) → i < n → dsk' ≡ dsk → blkno' ≢ blkno + i * off)
      → block (write_copies D n s dsk blkno off d).1 dsk' blkno' ≡ block s dsk' blkno'
  unfolding write_copies
  write_copies-keeps zero s dsk blkno off d dsk' blkno' away = refl
  write_copies-keeps (suc n) s dsk blkno off d dsk' blkno' away =
      write_copies-keeps n (D.write s dsk blkno d).1 dsk (blkno + off) off d dsk' blkno'
        (λ i lt e q. away (i + 1) (omega (arith, lt)) e (q ∙ next_copy i blkno off))
      ∙ O.keeps s dsk blkno d dsk' blkno' (λ e q. away 0 (omega arith) e (omega (arith, q)))

  write_copies-stays :
      (n : ℕ) (s : S) (dsk blkno off : ℕ) (d : Data) (dsk' blkno' : ℕ)
      → block s dsk' blkno' ≡ d
      → (write_copies D n s dsk blkno off d).0 ≡ true
      → block (write_copies D n s dsk blkno off d).1 dsk' blkno' ≡ d
  unfolding write_copies
  write_copies-stays zero s dsk blkno off d dsk' blkno' e ok = e
  write_copies-stays (suc n) s dsk blkno off d dsk' blkno' e ok =
      let one : (D.write s dsk blkno d).0 ≡ true = ground (arith, ok) in
      let rest : (write_copies D n (D.write s dsk blkno d).1 dsk (blkno + off) off d).0 ≡ true =
        ground (arith, ok) in
      let stored = O.stores s dsk blkno d one in
      let kept = O.keeps s dsk blkno d dsk' blkno' in
      let after : block (D.write s dsk blkno d).1 dsk' blkno' ≡ d = elim (ℕ_discrete dsk' dsk) [
        | no far ↦ kept (λ p. absurd (far p)) ∙ e
        | yes p ↦ elim (ℕ_discrete blkno' blkno) [
          | no far ↦ kept (λ _ q. far q) ∙ e
          | yes q ↦ rw (p, q) stored
        ]
      ] in
      write_copies-stays n (D.write s dsk blkno d).1 dsk (blkno + off) off d dsk' blkno' after rest

  write_copies-stores :
      (n : ℕ) (s : S) (dsk blkno off : ℕ) (d : Data)
      → 0 < n
      → (write_copies D n s dsk blkno off d).0 ≡ true
      → block (write_copies D n s dsk blkno off d).1 dsk blkno ≡ d
  unfolding write_copies
  write_copies-stores zero s dsk blkno off d pos ok = absurd (omega (arith, pos))
  write_copies-stores (suc n) s dsk blkno off d pos ok =
      let one : (D.write s dsk blkno d).0 ≡ true = ground (arith, ok) in
      let rest : (write_copies D n (D.write s dsk blkno d).1 dsk (blkno + off) off d).0 ≡ true =
        ground (arith, ok) in
      write_copies-stays n (D.write s dsk blkno d).1 dsk (blkno + off) off d dsk blkno
        (O.stores s dsk blkno d one) rest

  -- flush1 leaves the blocks that it does not write.
  pub flush1-keeps :
      (s : S) (x : Buffer Data) (dsk blkno : ℕ)
      → (x.bfr_valid ≡ true → ¬ Touched x dsk blkno)
      → block (flush1 D s x).2 dsk blkno ≡ block s dsk blkno
  unfolding flush1
  flush1-keeps s x dsk blkno away = elim (Bool-cases (x.bfr_valid && x.bfr_dirty)) [
    | inr n ↦ rw n refl
    | inl y ↦ rw y (
        write_copies-keeps (copies x) s x.b_unit x.b_blkno (offset x) x.b_buffer dsk blkno
          (λ i lt e q.
            away (ground (arith, y)) (record { same_unit = e; copy = i; written = lt; place = q })))
  ]

  -- If it succeeds, the block of a valid buffer is what the buffer holds, if it was before or the buffer is dirty.
  pub flush1-stores :
      (s : S) (x : Buffer Data)
      → 0 < copies x
      → x.bfr_valid ≡ true
      → (x.bfr_dirty ≡ true) ⊎ (block s x.b_unit x.b_blkno ≡ x.b_buffer)
      → (flush1 D s x).0 ≡ true
      → block (flush1 D s x).2 x.b_unit x.b_blkno ≡ x.b_buffer
  unfolding flush1
  flush1-stores s x pos valid clean ok = elim (Bool-cases x.bfr_dirty) [
    | inl dirty ↦
        let both : (x.bfr_valid && x.bfr_dirty) ≡ true = rw (valid, dirty) refl in
        let run = write_copies D (copies x) s x.b_unit x.b_blkno (offset x) x.b_buffer in
        let ok' : run.0 ≡ true =
          subst (λ (b : Bool). (if b then run else (true, s)).0 ≡ true) both ok in
        rw both (write_copies-stores (copies x) s x.b_unit x.b_blkno (offset x) x.b_buffer pos ok')
    | inr n ↦ elim clean [ inl dirty ↦ absurd (ground (arith, n, dirty)) | inr e ↦ rw (valid, n) e ]
  ]
