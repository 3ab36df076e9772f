-- ===== src/FatTab.antt =====
-- kernel/fattab.c and the macros of hdr/fat.h: the entries of the file allocation table.
-- The buffer cache of kernel/blockio.c is seen through getblock: a sector either can be had or not
-- (`readable`), and its bytes are what was last stored in its buffer. A byte is a number below 256,
-- so that `a | b << 8` is `a + b * 256`, and masks are quotients and remainders.
-- The sum of a sector number and the start of the FAT, far below 2 ^ 32 on any disk, is not reduced.
-- The messages of clusterMessage and the flags of a buffer other than BFR_DIRTY are left out.
pub mod Entry
pub mod Link
pub mod Fat12
mod Tests
use fdpp.Base.{
  ℕ, ◌+◌, ◌-◌, ◌*◌, ◌/◌, ◌%◌, Bool, true, false, ◌&&◌, ◌||◌, not, ltb, leb, ◌==◌, if◌then◌else◌,
}

-- The fields of `struct dpb` that the FAT routines and kernel/fatfs.c read; `start` is dpb_data. `nfreeclst` is the 32-bit dpb_xnfreeclst,
-- whose low half is dpb_nfreeclst.
pub record Dpb : Type 0 where
  pub secsize : ℕ
  pub fatstrt : ℕ
  pub size : ℕ
  pub fatsize : ℕ
  pub nfreeclst : ℕ
  pub xflags : ℕ
  pub xfsinfosec : ℕ
  pub xsize : ℕ
  pub xfatsize : ℕ
  pub xcluster : ℕ
  pub cluster : ℕ
  pub shftcnt : ℕ
  pub start : ℕ
  pub xdata : ℕ

-- A drive: its parameters, what getblock can read, the bytes of each sector, the sectors that are
-- marked dirty, and the two fields of the FSInfo sector.
pub record Drive : Type 0 where
  pub dpb : Dpb
  pub readable : ℕ → Bool
  pub byte : ℕ → ℕ → ℕ
  pub dirty : ℕ → Bool
  pub fi_nfreeclst : ℕ
  pub fi_cluster : ℕ

-- ISFAT32, ISFAT16, ISFAT12. In the last, `dpb_size - 1` is an int, -1 where dpb_size is 0.
abbrev pub is_fat32 : Dpb → Bool
is_fat32 d = d.fatsize == 0

abbrev pub is_fat16 : Dpb → Bool
is_fat16 d = ltb 4085 d.size && leb d.size 65525

abbrev pub is_fat12 : Dpb → Bool
is_fat12 d = d.size == 0 || ltb (d.size - 1) 4085

abbrev pub long_last_cluster : ℕ
long_last_cluster = 0xfff_ffff

abbrev pub long_bad : ℕ
long_bad = 0xfff_fff7

abbrev pub read_cluster : ℕ
read_cluster = 1

abbrev pub max_cluster : Dpb → ℕ
max_cluster d = if is_fat32 d then d.xsize else d.size

-- `xflags & FAT_NO_MIRRORING`
abbrev pub no_mirroring : Dpb → Bool
no_mirroring d = is_fat32 d && d.xflags / 0x80 % 2 == 1

-- FAT entries in a sector; nibbles for FAT12.
abbrev pub secdiv : Dpb → ℕ
secdiv d =
    if is_fat12 d then d.secsize * 2 else if is_fat32 d then d.secsize / 2 / 2 else d.secsize / 2

abbrev pub position : Dpb → ℕ → ℕ
position d cluster = if is_fat12 d then cluster * 3 % 0x1_0000_0000 else cluster

-- The index in the sector, and the sector.
unfoldable pub index : Dpb → ℕ → ℕ
index d cluster = position d cluster % secdiv d

unfoldable pub sector : Dpb → ℕ → ℕ
sector d cluster =
    let s = position d cluster / secdiv d + d.fatstrt in
    if no_mirroring d then s + d.xflags % 16 * d.xfatsize else s

-- `bp->b_buffer[off] = b`, and setting BFR_DIRTY.
unfoldable pub put : Drive → ℕ → ℕ → ℕ → Drive
put v s off b = record v { byte = λ t o. if t == s && o == off then b else v.byte t o }

unfoldable pub mark : Drive → ℕ → Drive
mark v s = record v { dirty = λ t. if t == s then true else v.dirty t }

-- read_fsinfo: what the FSInfo sector says is kept only where it can be right.
unfoldable pub read_fsinfo : Drive → Drive
read_fsinfo v =
    let d = v.dpb in
    if d.xfsinfosec == 0xffff then v else record v {
      dirty = λ t. if t == d.xfsinfosec then false else v.dirty t;
      dpb = record d {
        nfreeclst = if leb d.xsize v.fi_nfreeclst then 0xffff_ffff else v.fi_nfreeclst;
        xcluster = if ltb v.fi_cluster 2 || ltb d.xsize v.fi_cluster then 0 else v.fi_cluster;
      };
    }

-- write_fsinfo
unfoldable pub write_fsinfo : Drive → Drive
write_fsinfo v =
    let d = v.dpb in
    if d.xfsinfosec == 0xffff
    then v
    else let v' =
        if not (v.fi_nfreeclst == d.nfreeclst) || not (v.fi_cluster == d.xcluster)
        then mark v d.xfsinfosec
        else v in
      record v' { fi_nfreeclst = d.nfreeclst; fi_cluster = d.xcluster }

-- The count of free clusters behind a write of `cluster2` to an entry that was free or not.
unfoldable pub count_free : Drive → Bool → ℕ → Drive
count_free v wasfree cluster2 =
    let d = v.dpb in
    let adjust = if not wasfree then 1 else if not (cluster2 == 0) then 0xffff_ffff else 0 in
    if not (cluster2 == 0 || wasfree)
    then v
    else if is_fat32 d && not (d.nfreeclst == 0xffff_ffff)
    then write_fsinfo
        (record v { dpb = record d { nfreeclst = (d.nfreeclst + adjust) % 0x1_0000_0000 } })
    else if not (d.nfreeclst % 0x1_0000 == 0xffff)
    then record v {
      dpb = record d {
        nfreeclst =
            d.nfreeclst / 0x1_0000 * 0x1_0000 + (d.nfreeclst % 0x1_0000 + adjust) % 0x1_0000;
      };
    }
    else v

-- The 12 bits of an entry in the word of the two bytes that it is in, and the word with the entry
-- replaced.
unfoldable pub unpack : ℕ → ℕ → ℕ
unpack cluster word = (if cluster % 2 == 1 then word / 16 else word) % 0x1000

unfoldable pub pack : ℕ → ℕ → ℕ → ℕ
pack cluster word value =
    if cluster % 2 == 1
    then word % 16 + value % 0x1000 * 16
    else word / 0x1000 % 16 * 0x1000 + value % 0x1000

-- The special values of a 12-bit and of a 16-bit entry.
unfoldable pub widen12 : ℕ → ℕ
widen12 c = if leb 0xff8 c then long_last_cluster else if c == 0xff7 then long_bad else c

unfoldable pub widen16 : ℕ → ℕ
widen16 c = if leb 0xfff8 c then long_last_cluster else if c == 0xfff7 then long_bad else c

-- Where the second byte of a FAT12 entry is, if the first is at `off` in sector `s`.
abbrev pub straddles : Dpb → ℕ → Bool
straddles d off = leb (d.secsize - 1) off

abbrev pub next_sector : Dpb → ℕ → ℕ → ℕ
next_sector d s off = if straddles d off then s + 1 else s

abbrev pub next_offset : Dpb → ℕ → ℕ
next_offset d off = if straddles d off then 0 else off + 1

-- The FAT12 branch of link_fat; the first component is its result.
unfoldable pub link12 : Drive → ℕ → ℕ → ℕ → ℕ → ℕ × Drive
link12 v s off cluster1 cluster2 =
    let d = v.dpb in
    let t = next_sector d s off in
    let o = next_offset d off in
    let word = v.byte s off + v.byte t o * 0x100 in
    let old = unpack cluster1 word in
    let new = pack cluster1 word cluster2 in
    let v₁ =
      put (put (if straddles d off then mark v t else v) s off (new % 0x100)) t o
        (new / 0x100 % 0x100) in
    if straddles d off && not (v.readable t)
    then (1, v)
    else if cluster2 == read_cluster
    then (widen12 old, v)
    else (0, count_free (mark v₁ s) (old == 0) cluster2)

-- The FAT16 branch.
unfoldable pub link16 : Drive → ℕ → ℕ → ℕ → ℕ × Drive
link16 v s off cluster2 =
    let old = v.byte s off + v.byte s (off + 1) * 0x100 in
    let v₁ = put (put v s off (cluster2 % 0x100)) s (off + 1) (cluster2 / 0x100 % 0x100) in
    if cluster2 == read_cluster
    then (widen16 old, v)
    else (0, count_free (mark v₁ s) (old == 0) cluster2)

-- The FAT32 branch.
unfoldable pub link32 : Drive → ℕ → ℕ → ℕ → ℕ × Drive
link32 v s off cluster2 =
    let b = λ (k : ℕ). v.byte s (off + k) in
    let old = (b 0 + b 1 * 0x100 + b 2 * 0x1_0000 + b 3 * 0x100_0000) % 0x1000_0000 in
    let new = cluster2 % 0x1000_0000 in
    let v₁ =
      put
        (put (put (put v s off (new % 0x100)) s (off + 1) (new / 0x100 % 0x100)) s (off + 2)
          (new / 0x1_0000 % 0x100))
        s (off + 3) (new / 0x100_0000) in
    if cluster2 == read_cluster
    then (if ltb long_bad old then long_last_cluster else old, v)
    else (0, count_free (mark v₁ s) (old == 0) cluster2)

-- link_fat
unfoldable pub link_fat : Drive → ℕ → ℕ → ℕ × Drive
link_fat v cluster1 cluster2 =
    let d = v.dpb in
    let i = index d cluster1 in
    let s = sector d cluster1 in
    if leb cluster1 1 || ltb (max_cluster d) cluster1
    then (1, v)
    else if ltb cluster2 long_bad && ltb (max_cluster d) cluster2
    then (1, v)
    else if not (v.readable s)
    then (1, v)
    else if is_fat12 d
    then link12 v s (i / 2) cluster1 cluster2
    else if is_fat16 d
    then link16 v s (i * 2) cluster2
    else if is_fat32 d
    then link32 v s (i * 4) cluster2
    else (1, v)

-- next_cluster
unfoldable pub next_cluster : Drive → ℕ → ℕ
next_cluster v cluster =
    let candidate = (link_fat v cluster read_cluster).0 in
    let following = (link_fat v candidate read_cluster).0 in
    if ltb candidate 2 || leb long_bad candidate
    then candidate
    else if ltb following 2 || (ltb following long_bad && ltb (max_cluster v.dpb) following)
    then 1
    else candidate

-- is_free_cluster
unfoldable pub is_free_cluster : Drive → ℕ → Bool
is_free_cluster v cluster = (link_fat v cluster read_cluster).0 == 0
