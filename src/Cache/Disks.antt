-- ===== src/Cache/Disks.antt =====
-- getblk and flush_buffers of kernel/blockio.c over dskxfer and the devices of the drives.
use fdpp.Base.{
  ℕ, ◌/◌, ◌%◌, ◌≡◌, ◌≢◌, refl, ◌∙◌, inl, inr, Bool, true, false, some, if◌then◌else◌, arith,
  Bool-cases,
}
use fdpp.Cache.Dskxfer.{
  Device, is_done, do_critical_error, block_error, retry_loop, tries, dskxfer, passed, driver_of,
}
use fdpp.Cache.Flush.{Obeys}

-- What a device driver promises: it sets S_DONE when it returns; an input without S_ERROR fills the
-- buffer with the block, an output without it stores the block; and an output leaves other blocks as they are.
pub record Promises {S Data : Type 0} (v : Device S Data) (block : S → ℕ → ℕ → Data) : Type 0 where
  pub output_done :
      (b : Bool) (s : S) (dsk blkno : ℕ) (d : Data) → (v.output b s dsk blkno d).0 / 0x100 % 2 ≡ 1
  pub input_done : (s : S) (dsk blkno : ℕ) (d : Data) → (v.input s dsk blkno d).0 / 0x100 % 2 ≡ 1
  pub reads :
      (s : S) (dsk blkno : ℕ) (d : Data)
      → (v.input s dsk blkno d).0 / 0x8000 % 2 ≡ 0
      → (v.input s dsk blkno d).1 ≡ block s dsk blkno
  pub stores :
      (b : Bool) (s : S) (dsk blkno : ℕ) (d : Data)
      → (v.output b s dsk blkno d).0 / 0x8000 % 2 ≡ 0
      → block (v.output b s dsk blkno d).1 dsk blkno ≡ d
  pub keeps :
      (b : Bool) (s : S) (dsk blkno : ℕ) (d : Data) (dsk' blkno' : ℕ)
      → (dsk' ≡ dsk → blkno' ≢ blkno)
      → block (v.output b s dsk blkno d).1 dsk' blkno' ≡ block s dsk' blkno'

-- Each drive has a DPB, and no request fails.
pub record Works {S Data : Type 0} (v : Device S Data) : Type 0 where
  pub dpbs : (dsk : ℕ) → v.has_dpb dsk ≡ true
  pub outputs :
      (b : Bool) (s : S) (dsk blkno : ℕ) (d : Data) → (v.output b s dsk blkno d).0 / 0x8000 % 2 ≡ 0
  pub inputs : (s : S) (dsk blkno : ℕ) (d : Data) → (v.input s dsk blkno d).0 / 0x8000 % 2 ≡ 0

module _ {X : Type 0} (request : X → ℕ × X) (x : X) where
  -- The loop ends after one request: a critical error fails the call.
  retry_loop_lem :
      retry_loop tries request x
      ≡ some (if is_done (request x).0 then 0 else (request x).0, (request x).1)
  unfolding retry_loop block_error do_critical_error
  retry_loop_lem = elim (Bool-cases (is_done (request x).0)) [
    | inl y ↦ rw y refl
    | inr n ↦ rw n refl
  ]

  -- dskxfer succeeds if the drive has a DPB and the request is done.
  dskxfer_lem :
      (request x).0 / 0x100 % 2 ≡ 1
      → (has : Bool)
      → ((passed (dskxfer has request x) x).0 ≡ true
          → (has ≡ true)
            × ((request x).0 / 0x8000 % 2 ≡ 0)
            × ((passed (dskxfer has request x) x).1 ≡ (request x).1))
        × (has ≡ true
            → (request x).0 / 0x8000 % 2 ≡ 0
            → (passed (dskxfer has request x) x).0 ≡ true)
  unfolding dskxfer is_done
  dskxfer_lem done false = (λ e. absurd (cc), λ e. absurd (cc))
  dskxfer_lem done true = rw retry_loop_lem (λ e. (refl, ground arith, refl), λ e z. ground arith)

-- What a transfer leaves is what the request left, or nothing was done.
dskxfer_keeps :
    {X : Type 0} (P : X → Type 0) (request : X → ℕ × X) (x : X) (has : Bool)
    → P x
    → P (request x).1
    → P (passed (dskxfer has request x) x).1
unfolding dskxfer
dskxfer_keeps P request x false p q = p
dskxfer_keeps P request x true p q = rw (retry_loop_lem request x) q

pub driver_of-Obeys :
    {S Data : Type 0} {v : Device S Data} {block : S → ℕ → ℕ → Data}
    → Promises v block
    → Obeys (driver_of v) block
unfolding driver_of
driver_of-Obeys {v} {block} P = record {
  reads = λ s dsk blkno old ok.
      let (_, good, same) =
        (dskxfer_lem (λ t. v.input s dsk blkno t) old (P.input_done s dsk blkno old)
            (v.has_dpb dsk)).0
          ok in
      same ∙ P.reads s dsk blkno old good;
  stores = λ s dsk blkno d ok.
      let b = v.verify_ena in
      let (_, good, same) =
        (dskxfer_lem (λ t. v.output b t dsk blkno d) s (P.output_done b s dsk blkno d)
            (v.has_dpb dsk)).0
          ok in
      rw same (P.stores b s dsk blkno d good);
  keeps = λ s dsk blkno d dsk' blkno' away.
      dskxfer_keeps (λ t. block t dsk' blkno' ≡ block s dsk' blkno')
        (λ t. v.output v.verify_ena t dsk blkno d) s (v.has_dpb dsk) refl
        (P.keeps v.verify_ena s dsk blkno d dsk' blkno' away);
}
