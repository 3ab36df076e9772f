-- ===== src/Cache/Dskxfer.antt =====
-- dskxfer of kernel/blockio.c with the modes DSKREAD and DSKWRITE, for one block, as the cache calls
-- it, and block_error of kernel/error.c.
-- The device behind execrh is a parameter: what a request does, and the status it leaves. It is the one
-- of the drive, so that the unit of the request is left out. A transfer through deblock_buf
-- is one to or from the buffer.
use fdpp.Base.{ℕ, zero, suc, ◌/◌, ◌%◌, Bool, false, ◌&&◌, Option, none, some, ◌==◌, if◌then◌else◌}
use fdpp.Cache.{Driver}

-- C_OUTPUT, or C_OUTVFY where the first argument is true, and C_INPUT: r_status, and what is left on the
-- disks or in the buffer. `has_dpb` is whether get_dpb of a drive is not NULL.
pub record Device (S Data : Type 0) : Type 0 where
  pub has_dpb : ℕ → Bool
  pub verify_ena : Bool
  pub output : Bool → S → ℕ → ℕ → Data → ℕ × S
  pub input : S → ℕ → ℕ → Data → ℕ × Data

-- `(status & (S_ERROR | S_DONE)) == S_DONE`
unfoldable pub is_done : ℕ → Bool
is_done status = status / 0x8000 % 2 == 0 && status / 0x100 % 2 == 1

-- What a critical error is answered with.
pub data Answer : Type 0 where
  continue retry abort fail : Answer

-- DoCriticalError, which asks nobody.
unfoldable pub do_critical_error : Answer
do_critical_error = fail

unfoldable pub block_error : Answer
unfolding do_critical_error
block_error = do_critical_error

-- The retry loop: the result of dskxfer and what is left. It takes fuel.
unfoldable pub retry_loop : {X : Type 0} → ℕ → (X → ℕ × X) → X → Option (ℕ × X)
retry_loop zero request x = none
retry_loop (suc f) request x =
    let (status, x') = request x in
    let again = retry_loop f request x' in
    if is_done status then some (0, x') else elim block_error [
      | abort ↦ some (status, x')
      | fail ↦ some (status, x')
      | retry ↦ again
      | continue ↦ some (0, x')
    ]

abbrev pub tries : ℕ
tries = 1

-- dskxfer of a drive.
unfoldable pub dskxfer : {X : Type 0} → Bool → (X → ℕ × X) → X → Option (ℕ × X)
dskxfer has_dpb request x = if has_dpb then retry_loop tries request x else some (0x201, x)

-- A transfer is taken to have succeeded if dskxfer returns 0.
abbrev pub passed : {X : Type 0} → Option (ℕ × X) → X → Bool × X
passed none x = (false, x)
passed (some (r, x')) x = (r == 0, x')

-- dskxfer as the cache sees it.
unfoldable pub driver_of : {S Data : Type 0} → Device S Data → Driver S Data
driver_of v = record {
  write = λ s dsk blkno d.
      passed (dskxfer (v.has_dpb dsk) (λ t. v.output v.verify_ena t dsk blkno d) s) s;
  read = λ s dsk blkno old. passed (dskxfer (v.has_dpb dsk) (λ t. v.input s dsk blkno t) old) old;
}
