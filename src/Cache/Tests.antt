-- ===== src/Cache/Tests.antt =====
-- The block cache on two buffers, and the theorems at them.
use fdpp.Base.{ℕ, ◌+◌, ◌≡◌, refl, true, false, ◌&&◌, List, [], ◌∷◌, ◌==◌, if◌then◌else◌}
use fdpp.Cache.{Buffer, Driver, take_first, victim, searchblock, flush1, fill, getblk}
use fdpp.Cache.{
  Buffer, Driver, take_first, take_last, victim, first_is_fat, fat_count, searchblock, write_copies,
  flush1, fill, getblk, flush_some, flush_buffers, setinvld, clear_some, dirty_buffers, flush,
  delete_block_in_buffer_cache,
}
use fdpp.Cache.Dskxfer.{
  Device, is_done, do_critical_error, block_error, retry_loop, dskxfer, driver_of,
}

-- A disk that works, with a number in each block.
abbrev Disk : Type 0
Disk = ℕ → ℕ → ℕ

abbrev block_of : Disk → ℕ → ℕ → ℕ
block_of s dsk blkno = s dsk blkno

abbrev device : Device Disk ℕ
device = record {
  has_dpb = λ dsk. true;
  verify_ena = false;
  output = λ v s dsk blkno d. (0x100, λ u b. if u == dsk && b == blkno then d else s u b);
  input = λ s dsk blkno old. (0x100, s dsk blkno);
}

-- The same, with a drive that has no DPB, and with a write that fails.
abbrev protected : Device Disk ℕ
protected = record device { has_dpb = λ dsk. dsk == 0; output = λ v s dsk blkno d. (0x8100, s) }

abbrev driver : Driver Disk ℕ
driver = driver_of device

abbrev disk : Disk
disk u b = b + 100

-- A FAT sector that was changed, with two copies 9 sectors apart, and a data sector.
abbrev fat_buffer : Buffer ℕ
fat_buffer = record {
  b_unit = 0;
  b_blkno = 1;
  b_copies = 2;
  b_offset = 9;
  xfatsize = 9;
  bfr_dirty = true;
  bfr_valid = true;
  bfr_data = false;
  bfr_dir = false;
  bfr_fat = true;
  bfr_uncache = false;
  b_buffer = 7;
}

abbrev data_buffer : Buffer ℕ
data_buffer = record fat_buffer {
  b_blkno = 40;
  b_copies = 1;
  bfr_dirty = false;
  bfr_data = true;
  bfr_fat = false;
  b_buffer = 140;
}

abbrev buffers : List (Buffer ℕ)
buffers = data_buffer ∷ fat_buffer ∷ []

abbrev head_block : List (Buffer ℕ) → ℕ × ℕ
head_block [] = (0, 0)
head_block (x ∷ l) = (x.b_blkno, x.b_buffer)

-- A miss takes the last buffer, whose two copies are written; a hit moves a buffer to the front.
getblk_runs :
    (head_block (getblk driver disk buffers 50 0 false).1 ≡ (50, 150))
    × ((getblk driver disk buffers 50 0 false).2 0 1 ≡ 7)
    × ((getblk driver disk buffers 50 0 false).2 0 10 ≡ 7)
    × (head_block (getblk driver disk buffers 1 0 false).1 ≡ (1, 7))
    × (dirty_buffers buffers 0 ≡ true)
    × (dirty_buffers (flush_buffers driver disk buffers 0).1 0 ≡ false)
    × (dirty_buffers (setinvld buffers 0) 0 ≡ false)
    × ((flush driver disk buffers).2 0 10 ≡ 7)
    × ((delete_block_in_buffer_cache driver disk buffers 1 9 0 true).1 0 1 ≡ 7)
unfolding getblk searchblock take_first take_last victim first_is_fat fat_count write_copies flush1
    fill flush_some flush_buffers setinvld clear_some dirty_buffers flush
    delete_block_in_buffer_cache driver_of dskxfer retry_loop is_done
getblk_runs = (refl, refl, refl, refl, refl, refl, refl, refl, refl)

transfer_runs :
    ((driver.write disk 0 1 5).0 ≡ true)
    × (((driver_of protected).write disk 0 1 5).0 ≡ false)
    × ((driver_of protected).read disk 0 1 5 ≡ (true, 101))
    × ((driver_of protected).read disk 1 1 5 ≡ (false, 5))
    × ((getblk (driver_of protected) disk buffers 50 0 false).0 ≡ false)
unfolding driver_of dskxfer retry_loop is_done block_error do_critical_error getblk searchblock
    take_first take_last victim first_is_fat fat_count write_copies flush1 fill
transfer_runs = (refl, refl, refl, refl, refl)
