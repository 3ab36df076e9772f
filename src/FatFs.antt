-- ===== src/FatFs.antt =====
-- kernel/fatfs.c: which clusters a file has. Free clusters are found, chained to a file, followed and
-- freed through link_fat and next_cluster of FatTab.
-- A loop takes fuel; `none` means that the fuel ran out. The messages are left out.
pub mod Table
pub mod Chain
pub mod Free
pub mod Wipe
pub mod Extend
pub mod Fat12
pub mod Seek
pub mod Count
pub mod Bpb
pub mod Covers
pub mod Places
pub mod Shrink
pub mod Cut
mod Tests
use fdpp.Base.{
  ℕ, zero, suc, ◌+◌, ◌-◌, ◌*◌, ◌/◌, ◌%◌, ◌^◌, Bool, true, false, ◌&&◌, ◌||◌, not, Option, none,
  some, ltb, leb, ◌==◌, if◌then◌else◌,
}
use fdpp.FatTab.{
  Dpb, Drive, is_fat32, max_cluster, long_last_cluster, write_fsinfo, link_fat, next_cluster,
  is_free_cluster,
}

-- The fields of `struct f_node` and of its directory entry that are read here. `dircluster` is the
-- first cluster of the directory of f_dmp.
pub record FNode : Type 0 where
  pub f_cluster : ℕ
  pub f_cluster_offset : ℕ
  pub f_offset : ℕ
  pub f_sft_idx : ℕ
  pub dircluster : ℕ
  pub dir_start : ℕ
  pub dir_start_high : ℕ
  pub dir_size : ℕ

pub data Status : Type 0 where
  success de_hndldskfull de_seek de_access : Status

-- getdstart, setdstart
unfoldable pub getdstart : Dpb → FNode → ℕ
getdstart d f = if not (is_fat32 d) then f.dir_start else f.dir_start_high * 0x1_0000 + f.dir_start

unfoldable pub setdstart : FNode → ℕ → FNode
setdstart f value = record f {
  dir_start = value % 0x1_0000;
  dir_start_high = value / 0x1_0000 % 0x1_0000;
}

-- clus2phys
unfoldable pub clus2phys : ℕ → Dpb → ℕ
clus2phys cl d =
    let first = if is_fat32 d then d.xdata else d.start in
    ((cl + 0x1_0000_0000 - 2) * 2 ^ d.shftcnt + first) % 0x1_0000_0000

-- The first free cluster that is remembered: dpb_xcluster or dpb_cluster; 0 is UNKNCLUSTER.
abbrev pub unkncluster : ℕ
unkncluster = 0

unfoldable pub set_hint : Drive → ℕ → Drive
set_hint v cluster =
    if is_fat32 v.dpb
    then write_fsinfo (record v { dpb = record v.dpb { xcluster = cluster } })
    else record v { dpb = record v.dpb { cluster = cluster % 0x1_0000 } }

-- The loop of find_fat_free: `idx` and `cluster` behind it.
unfoldable pub search : ℕ → Drive → ℕ → ℕ → ℕ → Option (ℕ × ℕ)
search zero v size cluster idx = none
search (suc f) v size cluster idx =
    let following = if ltb size (idx + 1) then 2 else idx + 1 in
    let rest = search f v size cluster following in
    if is_free_cluster v idx
    then some (idx, idx)
    else if following == cluster
    then some (long_last_cluster, unkncluster)
    else rest

-- Where the search begins.
abbrev pub hint : Dpb → ℕ
hint d = if is_fat32 d then d.xcluster else d.cluster

abbrev pub first_index : Dpb → ℕ
first_index d = if hint d == unkncluster then 2 else hint d

unfoldable pub remember : Drive → Option (ℕ × ℕ) → Option (ℕ × Drive)
remember v none = none
remember v (some (idx, cluster)) = some (idx, set_hint v cluster)

-- find_fat_free; the search visits no cluster twice, so that `size` rounds are enough.
unfoldable pub find_fat_free : Drive → Option (ℕ × Drive)
find_fat_free v =
    let size = max_cluster v.dpb in
    let at_first = first_index v.dpb in remember v (search size v size at_first at_first)

-- wipe_out_clusters
unfoldable pub lower_hint : Drive → ℕ → Drive
lower_hint v st =
    let d = v.dpb in
    if is_fat32 d
    then (if d.xcluster == unkncluster || ltb st d.xcluster
        then record v { dpb = record d { xcluster = st } }
        else v)
    else if d.cluster == unkncluster || ltb (st % 0x1_0000) d.cluster
    then record v { dpb = record d { cluster = st % 0x1_0000 } }
    else v

unfoldable pub wipe_out_clusters : ℕ → Drive → ℕ → Option Drive
wipe_out_clusters zero v st = none
wipe_out_clusters (suc f) v st =
    let following = next_cluster v st in
    let r = link_fat v st 0 in
    let rest = wipe_out_clusters f (lower_hint r.1 st) following in
    if st == long_last_cluster
    then some (if is_fat32 v.dpb then write_fsinfo v else v)
    else if leb following 1
    then some v
    else if not (r.0 == 0)
    then some r.1
    else rest

-- wipe_out
unfoldable pub wipe_out : ℕ → Drive → FNode → Option Drive
wipe_out fuel v f =
    let cluster = getdstart v.dpb f in
    if cluster == 0 then some v else wipe_out_clusters fuel v cluster

-- extend: the new cluster or LONG_LAST_CLUSTER, the drive and the file.
unfoldable pub extend_by : FNode → Option (ℕ × Drive) → Option (ℕ × Drive × FNode)
extend_by f none = none
extend_by f (some (free_fat, v)) =
    let r = link_fat v free_fat long_last_cluster in
    let q = link_fat r.1 f.f_cluster free_fat in
    if free_fat == long_last_cluster
    then some (long_last_cluster, v, f)
    else if not (r.0 == 0)
    then some (long_last_cluster, r.1, f)
    else if f.f_cluster == 0
    then some (free_fat, r.1, setdstart f free_fat)
    else if not (next_cluster r.1 f.f_cluster == long_last_cluster)
    then some (long_last_cluster, r.1, f)
    else if not (q.0 == 0)
    then some (long_last_cluster, q.1, f)
    else some (free_fat, q.1, f)

unfoldable pub extend : Drive → FNode → Option (ℕ × Drive × FNode)
extend v f = extend_by f (find_fat_free v)

-- The loop of map_cluster, with the clusters to go; `write` is whether the mode is XFR_WRITE.
unfoldable pub follow : ℕ → Drive → FNode → Bool → Option (Status × Drive × FNode)
follow zero v f write = some (success, v, f)
follow (suc n) v f write =
    let cluster = next_cluster v f.f_cluster in
    let step = λ (w : Drive) (c : ℕ).
      follow n w (record f { f_cluster = c; f_cluster_offset = f.f_cluster_offset + 1 }) write in
    if leb cluster 1 then some (de_seek, v, f) else elim (cluster == long_last_cluster) [
      | false ↦ step v cluster
      | true ↦ elim write [
        | false ↦ some (de_seek, v, f)
        | true ↦ elim (extend v f) [
          | none ↦ none
          | some (c, w, g) ↦
              if c == long_last_cluster then some (de_hndldskfull, w, g) else step w c
        ]
      ]
    ]

-- The part of map_cluster behind the test for a file without clusters.
unfoldable pub seek : Drive → FNode → Bool → Option (Status × Drive × FNode)
seek v f write =
    let relcluster = f.f_offset / v.dpb.secsize / 2 ^ v.dpb.shftcnt in
    let g =
      if ltb relcluster f.f_cluster_offset
      then record f {
        f_cluster = if f.f_sft_idx == 0xff then f.dircluster else getdstart v.dpb f;
        f_cluster_offset = 0;
      }
      else f in
    follow (relcluster - g.f_cluster_offset) v g write

-- map_cluster
unfoldable pub map_cluster : Drive → FNode → Bool → Option (Status × Drive × FNode)
map_cluster v f write = elim (f.f_cluster == 0) [
  | false ↦ seek v f write
  | true ↦ elim write [
    | false ↦ some (de_seek, v, f)
    | true ↦ elim (extend v f) [
      | none ↦ none
      | some (c, w, g) ↦
          if c == long_last_cluster
          then some (de_hndldskfull, w, g)
          else seek w (record g { f_cluster = c }) true
    ]
  ]
]
