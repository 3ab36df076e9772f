-- ===== src/Cache.antt =====
-- kernel/blockio.c and hdr/buffer.h: the cache of disk blocks.
-- The ring of buffers is the list of them from firstbuf on, in the order of b_next, so that moving a buffer
-- before firstbuf and making it firstbuf puts it at the head of the list. Transfers
-- of a block are a parameter here, which Dskxfer fills, as is what a block holds.
pub mod Blocks
pub mod Lists
pub mod Flush
pub mod Getblk
pub mod Reads
pub mod Stores
pub mod Works
pub mod Dskxfer
pub mod Disks
mod Tests
use fdpp.Base.{
  ℕ, zero, suc, ◌+◌, Bool, true, false, ◌&&◌, ◌||◌, not, List, [], ◌∷◌, Option, none, some, ltb,
  leb, ◌==◌, if◌then◌else◌,
}

-- struct buffer, with its flags; `xfatsize` is that of b_dpbp.
pub record Buffer (Data : Type 0) : Type 0 where
  pub b_unit : ℕ
  pub b_blkno : ℕ
  pub b_copies : ℕ
  pub b_offset : ℕ
  pub xfatsize : ℕ
  pub bfr_dirty : Bool
  pub bfr_valid : Bool
  pub bfr_data : Bool
  pub bfr_dir : Bool
  pub bfr_fat : Bool
  pub bfr_uncache : Bool
  pub b_buffer : Data

-- What the cache sees of dskxfer: whether a transfer of one block succeeds, and what it leaves. A read that fails may have filled
-- a part of the buffer.
pub record Driver (S Data : Type 0) : Type 0 where
  pub write : S → ℕ → ℕ → Data → Bool × S
  pub read : S → ℕ → ℕ → Data → Bool × Data

-- Whether a buffer holds a block.
abbrev pub holds : {Data : Type 0} → ℕ → ℕ → Buffer Data → Bool
holds blkno dsk bp = bp.b_blkno == blkno && bp.bfr_valid && bp.b_unit == dsk

-- Taking out the first, or the last, buffer that has a property.
unfoldable pub take_first :
    {Data : Type 0}
    → (Buffer Data → Bool)
    → List (Buffer Data)
    → Option (Buffer Data × List (Buffer Data))
take_first p [] = none
take_first p (x ∷ l) =
    let rest = take_first p l in
    if p x then some (x, l) else elim rest [ none ↦ none | some (y, r) ↦ some (y, x ∷ r) ]

unfoldable pub take_last :
    {Data : Type 0}
    → (Buffer Data → Bool)
    → List (Buffer Data)
    → Option (Buffer Data × List (Buffer Data))
take_last p [] = none
take_last p (x ∷ l) = elim (take_last p l) [
  | some (y, r) ↦ some (y, x ∷ r)
  | none ↦ if p x then some (x, l) else none
]

unfoldable pub fat_count : {Data : Type 0} → List (Buffer Data) → ℕ
fat_count [] = 0
fat_count (x ∷ l) = (if x.bfr_fat then 1 else 0) + fat_count l

unfoldable pub first_is_fat : {Data : Type 0} → List (Buffer Data) → Bool
first_is_fat [] = false
first_is_fat (x ∷ l) = x.bfr_fat

-- The buffer that is replaced: behind the loop, the source tests the flags of the first one.
unfoldable pub victim :
    {Data : Type 0} → List (Buffer Data) → Option (Buffer Data × List (Buffer Data))
victim l =
    let oldest = take_last (λ x. true) l in
    elim (take_last (λ x. x.bfr_uncache) l) [
      | some r ↦ some r
      | none ↦
          if first_is_fat l && ltb (fat_count l) 3
          then elim (take_last (λ x. not x.bfr_fat) l) [ some r ↦ some r | none ↦ oldest ]
          else oldest
    ]

-- searchblock: the buffer that is then the first one, and the others. Without a buffer there is none.
unfoldable pub searchblock :
    {Data : Type 0} → List (Buffer Data) → ℕ → ℕ → Option (Buffer Data × List (Buffer Data))
searchblock l blkno dsk = elim (take_first (holds blkno dsk) l) [
  | some (bp, rest) ↦ some (record bp { bfr_uncache = false }, rest)
  | none ↦ elim (victim l) [
    | some (bp, rest) ↦ some (record bp { bfr_uncache = true }, rest)
    | none ↦ none
  ]
]

-- How often flush1 writes a buffer, and how far apart.
abbrev pub copies : {Data : Type 0} → Buffer Data → ℕ
copies bp = if bp.bfr_fat then bp.b_copies else 1

abbrev pub offset : {Data : Type 0} → Buffer Data → ℕ
offset bp = if bp.bfr_fat then (if bp.b_offset == 0 then bp.xfatsize else bp.b_offset) else 0

module _ {S Data : Type 0} (D : Driver S Data) where
  -- The loop of flush1: `ok` and the disk behind it.
  unfoldable pub write_copies : ℕ → S → ℕ → ℕ → ℕ → Data → Bool × S
  write_copies zero s unit blkno offset data_ = (true, s)
  write_copies (suc n) s unit blkno offset data_ =
      let one = D.write s unit blkno data_ in
      let rest = write_copies n one.1 unit (blkno + offset) offset data_ in
      (one.0 && rest.0, rest.1)

  -- flush1
  unfoldable pub flush1 : S → Buffer Data → Bool × Buffer Data × S
  flush1 s bp =
      let r =
        if bp.bfr_valid && bp.bfr_dirty
        then write_copies (copies bp) s bp.b_unit bp.b_blkno (offset bp) bp.b_buffer
        else (true, s) in
      (r.0, record bp { bfr_dirty = false; bfr_valid = bp.bfr_valid && r.0 }, r.1)

  -- getblk, where a buffer is at hand: whether it returns the first buffer and not NULL, the buffers, the disk.
  unfoldable pub fill :
      S → ℕ → ℕ → Bool → Buffer Data → List (Buffer Data) → Bool × List (Buffer Data) × S
  fill s blkno dsk overwrite bp rest =
      let f = flush1 s bp in
      let r = D.read f.2 dsk blkno f.1.b_buffer in
      let filled = if overwrite then f.1.b_buffer else r.1 in
      if not bp.bfr_uncache
      then (true, bp ∷ rest, s)
      else if not f.0
      then (false, f.1 ∷ rest, f.2)
      else if not overwrite && not r.0
      then (false, record f.1 { b_buffer = filled } ∷ rest, f.2)
      else (
        true,
        record f.1 {
          bfr_valid = true;
          bfr_data = true;
          bfr_dirty = false;
          bfr_dir = false;
          bfr_fat = false;
          bfr_uncache = false;
          b_unit = dsk;
          b_blkno = blkno;
          b_buffer = filled;
        }
            ∷ rest,
        f.2,
      )

  unfoldable pub getblk : S → List (Buffer Data) → ℕ → ℕ → Bool → Bool × List (Buffer Data) × S
  getblk s l blkno dsk overwrite = elim (searchblock l blkno dsk) [
    | none ↦ (false, l, s)
    | some (bp, rest) ↦ fill s blkno dsk overwrite bp rest
  ]

  -- flush_buffers, and DeleteBlockInBufferCache in the mode XFR_READ: flush1 of the buffers that have a
  -- property.
  unfoldable pub flush_some :
      (Buffer Data → Bool) → S → List (Buffer Data) → Bool × List (Buffer Data) × S
  flush_some p s [] = (true, [], s)
  flush_some p s (x ∷ l) =
      let f = if p x then flush1 s x else (true, x, s) in
      let rest = flush_some p f.2 l in (f.0 && rest.0, f.1 ∷ rest.1, rest.2)

  unfoldable pub flush_buffers : S → List (Buffer Data) → ℕ → Bool × List (Buffer Data) × S
  flush_buffers s l dsk = flush_some (λ x. x.b_unit == dsk) s l

  -- flush, without the call to a network redirector.
  unfoldable pub flush : S → List (Buffer Data) → Bool × List (Buffer Data) × S
  flush s [] = (true, [], s)
  flush s (x ∷ l) =
      let f = flush1 s x in
      let rest = flush f.2 l in (f.0 && rest.0, record f.1 { bfr_valid = false } ∷ rest.1, rest.2)

-- `b_flag = 0`, for the buffers that have a property.
unfoldable pub clear_some :
    {Data : Type 0} → (Buffer Data → Bool) → List (Buffer Data) → List (Buffer Data)
clear_some p [] = []
clear_some p (x ∷ l) =
    let cleared = record x {
      bfr_dirty = false;
      bfr_valid = false;
      bfr_data = false;
      bfr_dir = false;
      bfr_fat = false;
      bfr_uncache = false;
    } in
    (if p x then cleared else x) ∷ clear_some p l

unfoldable pub setinvld : {Data : Type 0} → List (Buffer Data) → ℕ → List (Buffer Data)
setinvld l dsk = clear_some (λ x. x.b_unit == dsk) l

-- Whether a buffer is for one of a row of blocks.
abbrev pub in_row : {Data : Type 0} → ℕ → ℕ → ℕ → Buffer Data → Bool
in_row low high dsk x = leb low x.b_blkno && leb x.b_blkno high && x.bfr_valid && x.b_unit == dsk

-- DeleteBlockInBufferCache; `read` is whether the mode is XFR_READ.
unfoldable pub delete_block_in_buffer_cache :
    {S Data : Type 0}
    → Driver S Data
    → S
    → List (Buffer Data)
    → ℕ
    → ℕ
    → ℕ
    → Bool
    → List (Buffer Data) × S
delete_block_in_buffer_cache D s l low high dsk read =
    let r = flush_some D (in_row low high dsk) s l in
    if read then (r.1, r.2) else (clear_some (in_row low high dsk) l, s)

unfoldable pub dirty_buffers : {Data : Type 0} → List (Buffer Data) → ℕ → Bool
dirty_buffers [] dsk = false
dirty_buffers (x ∷ l) dsk =
    let rest = dirty_buffers l dsk in (x.b_unit == dsk && x.bfr_valid && x.bfr_dirty) || rest
