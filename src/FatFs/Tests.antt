-- ===== src/FatFs/Tests.antt =====
-- The cluster routines on a small FAT12 drive, and the theorems at it.
use fdpp.Base.{
  ℕ, ◌≤◌, ◌<◌, ◌≡◌, refl, sym, inl, inr, Bool, true, false, ◌==◌, if◌then◌else◌, arith, Option,
  none, some,
}
use fdpp.FatTab.{
  Dpb, Drive, long_last_cluster, widen12, index, sector, put, mark, write_fsinfo, count_free,
  unpack, pack, link12, link_fat, next_cluster, is_free_cluster, read_cluster,
}
use fdpp.FatTab.Entry.{entry}
use fdpp.FatTab.Link.{fat}
use fdpp.FatFs.{
  FNode, getdstart, setdstart, set_hint, search, find_fat_free, remember, lower_hint,
  wipe_out_clusters, extend, extend_by, follow, seek, map_cluster, Status, success,
}
use fdpp.FatFs.Table.{IsTable, InDrive}
use fdpp.FatFs.Chain.{Ends, last, more}
use fdpp.FatFs.Free.{Found, find_fat_free-Found}
use fdpp.FatFs.Wipe.{Wiped, wipe_out_clusters-Wiped}
use fdpp.FatFs.Extend.{Extended, extend-Extended}
use fdpp.FatFs.Seek.{behind, Sought, first_cluster, at_cluster, map_cluster-Sought}
use fdpp.FatFs.Shrink.{shrink_file, cut_chain}
use fdpp.FatFs.Count.{count_clusters, dos_free}
use fdpp.FatFs.Bpb.{
  Bpb, Volume, shift_count, back_down, disk_size, dir_start_of, data_start_of, clusters_from,
  base_dpb, dpb16to32, extended_dpb, fat32_dpb, bpb_to_dpb,
}
use fdpp.FatFs.Covers.{IsBpb, Within, bpb_to_dpb-Within}
use fdpp.FatFs.Places.{IsDisk}
use fdpp.FatFs.Cut.{Cut, shrink_file-Cut}
use fdpp.FatFs.Fat12.{Holds, Holds-IsTable}

-- Clusters 2 to 6; the chain 2, 4, 5 and one bad cluster, 3. Cluster 6 is free.
abbrev tiny : Dpb
tiny = record {
  secsize = 512;
  fatstrt = 1;
  size = 6;
  fatsize = 1;
  nfreeclst = 1;
  xflags = 0;
  xfsinfosec = 0xffff;
  xsize = 6;
  xfatsize = 1;
  xcluster = 0;
  cluster = 4;
  shftcnt = 0;
  start = 12;
  xdata = 12;
}

abbrev bytes : ℕ → ℕ → ℕ
bytes s o =
    if not_first s
    then 0
    else if o == 3
    then 0x04
    else if o == 4
    then 0x70
    else if o == 5
    then 0xff
    else if o == 6
    then 0x05
    else if o == 7
    then 0xf0
    else if o == 8
    then 0xff
    else 0
  where
    not_first : ℕ → Bool
    not_first t = if t == 1 then false else true

abbrev drive : Drive
drive = record {
  dpb = tiny;
  readable = λ s. true;
  byte = bytes;
  dirty = λ s. false;
  fi_nfreeclst = 0;
  fi_cluster = 0;
}

link_fat_runs :
    ((link_fat drive 2 read_cluster).0 ≡ 4)
    × ((link_fat drive 4 read_cluster).0 ≡ 5)
    × ((link_fat drive 5 read_cluster).0 ≡ long_last_cluster)
    × ((link_fat drive 6 read_cluster).0 ≡ 0)
unfolding link_fat link12 index sector unpack pack widen12 put mark count_free write_fsinfo
link_fat_runs = (refl, refl, refl, refl)

abbrev table : ℕ → ℕ
table c = widen12 (entry (fat drive) c)

drive-Holds : Holds 6 drive table
drive-Holds = record {
  is = record {
    fat12 = refl;
    sectors = omega arith;
    small = omega arith;
    bytes = λ s o. ground arith;
  };
  has = λ c i. record { low = i.low; high = i.high; here = refl; there = refl };
  last = refl;
  entries = λ c i. refl;
}

table_runs : (table 2 ≡ 4) × (table 4 ≡ 5) × (table 5 ≡ long_last_cluster) × (table 6 ≡ 0)
unfolding entry unpack widen12
table_runs = (refl, refl, refl, refl)

cluster-InDrive : (c : ℕ) → 1 < c → c ≤ 6 → InDrive 6 c
cluster-InDrive c low high = record { low = low; high = high }

Ends_2 : Ends 6 table 2 3
Ends_2 =
    more 4 2 (cluster-InDrive 2 (omega arith) (omega arith)) table_runs.0
      (more 5 1 (cluster-InDrive 4 (omega arith) (omega arith)) table_runs.1
        (last (cluster-InDrive 5 (omega arith) (omega arith)) table_runs.2 refl) refl)
      refl

-- What a run finds or ends in.
abbrev found : Option (ℕ × Drive) → ℕ
found none = 0
found (some (c, v)) = c

abbrev reached : Option (Status × Drive × FNode) → ℕ
reached (some (success, v, f)) = f.f_cluster
reached _ = 0

abbrev freed : Option Drive → ℕ → Bool
freed none c = false
freed (some v) c = is_free_cluster v c

-- The search begins at the remembered cluster 4, and finds 6; cluster 4 is free behind the wipe.
runs :
    (found (find_fat_free drive) ≡ 6)
    × (freed (wipe_out_clusters 4 drive 2) 4 ≡ true)
    × (freed (wipe_out_clusters 4 drive 2) 3 ≡ false)
unfolding find_fat_free search remember set_hint is_free_cluster wipe_out_clusters lower_hint
    next_cluster link_fat link12 index sector unpack pack widen12 put mark count_free write_fsinfo
runs = (refl, refl, refl)

Holds-IsTable_example : IsTable 6 (Holds 6)
Holds-IsTable_example = Holds-IsTable 6 (omega arith)

find_fat_free-Found_example :
    (idx : ℕ) × (v' : Drive) × (find_fat_free drive ≡ some (idx, v'))
    × Holds 6 v' table
    × Found 6 table idx
find_fat_free-Found_example =
    find_fat_free-Found (Holds-IsTable 6 (omega arith)) drive-Holds (omega arith)
      (inr (cluster-InDrive 4 (omega arith) (omega arith)))

wipe_out_clusters-Wiped_example :
    (v' : Drive) × (t' : ℕ → ℕ) × (wipe_out_clusters 4 drive 2 ≡ some v')
    × Holds 6 v' t'
    × Wiped 6 table t' 2
wipe_out_clusters-Wiped_example =
    wipe_out_clusters-Wiped (Holds-IsTable 6 (omega arith)) 4 drive-Holds Ends_2 (omega arith)

-- A file whose last cluster is 5.
abbrev file : FNode
file = record {
  f_cluster = 5;
  f_cluster_offset = 2;
  f_offset = 1024;
  f_sft_idx = 3;
  dircluster = 0;
  dir_start = 2;
  dir_start_high = 0;
  dir_size = 1400;
}

extend-Extended_example :
    (r : ℕ) × (v' : Drive) × (f' : FNode) × (extend drive file ≡ some (r, v', f'))
    × Extended 6 (Holds 6) table file r v' f'
extend-Extended_example =
    extend-Extended (Holds-IsTable 6 (omega arith)) file drive-Holds (omega arith)
      (inr (cluster-InDrive 4 (omega arith) (omega arith)))
      (inr (cluster-InDrive 5 (omega arith) (omega arith), table_runs.2))

first_cluster-file : first_cluster drive file ≡ 2
unfolding getdstart
first_cluster-file = refl

behind_2 : behind table 2 2 ≡ 5
unfolding behind entry unpack widen12
behind_2 = refl

-- From the last cluster, 5, back to cluster 4, and from there past the end.
map_cluster_runs :
    (reached (map_cluster drive (record file { f_offset = 600 }) false) ≡ 4)
    × (reached (map_cluster drive file false) ≡ 5)
    × (reached (map_cluster drive (record file { f_offset = 1536 }) false) ≡ 0)
    × (reached (map_cluster drive (record file { f_offset = 1536 }) true) ≡ 6)
unfolding map_cluster seek follow getdstart extend extend_by setdstart find_fat_free search remember
    set_hint is_free_cluster next_cluster link_fat link12 index sector unpack pack widen12 put mark
    count_free write_fsinfo
map_cluster_runs = (refl, refl, refl, refl)

map_cluster-Sought_example :
    Sought drive table
      (record file { f_offset = 600 })
      2
      3
      1
      (map_cluster drive (record file { f_offset = 600 }) false)
unfolding getdstart
map_cluster-Sought_example =
    map_cluster-Sought (Holds-IsTable 6 (omega arith)) drive-Holds (record file { f_offset = 600 })
      Ends_2 (sym behind_2) (omega arith)

-- The drive before its clusters are counted.
abbrev uncounted : Drive
uncounted = record drive { dpb = record tiny { nfreeclst = 0xffff } }

uncounted-Holds : Holds 6 uncounted table
uncounted-Holds = record {
  is = record {
    fat12 = refl;
    sectors = omega arith;
    small = omega arith;
    bytes = λ s o. ground arith;
  };
  has = λ c i. record { low = i.low; high = i.high; here = refl; there = refl };
  last = refl;
  entries = λ c i. refl;
}

dos_free_runs : (dos_free uncounted).0 ≡ 1
unfolding dos_free count_clusters is_free_cluster link_fat link12 index sector unpack pack widen12
    put mark count_free write_fsinfo
dos_free_runs = refl

shrink_file_runs : reached (shrink_file 4 true drive (record file { f_offset = 512 })) ≡ 2
unfolding shrink_file cut_chain wipe_out_clusters lower_hint map_cluster seek follow getdstart
    extend extend_by setdstart find_fat_free search remember set_hint is_free_cluster next_cluster
    link_fat link12 index sector unpack pack widen12 put mark count_free write_fsinfo
shrink_file_runs = refl

shrink_file-Cut_example :
    (v' : Drive) × (t' : ℕ → ℕ) × (shrink_file 4 true drive (record file { f_offset = 512 })
      ≡ some (success, v', at_cluster (record file { f_offset = 512 }) (behind table 2 0) 0))
    × Holds 6 v' t'
    × Cut 6 table t' 2 0
unfolding getdstart
shrink_file-Cut_example =
    shrink_file-Cut (Holds-IsTable 6 (omega arith)) drive-Holds 4 (record file { f_offset = 512 })
      (omega arith) (omega arith) Ends_2 (sym behind_2) (omega arith) (omega arith) (omega arith)

-- The parameter block of a 1.44 MB floppy disk.
abbrev floppy : Bpb
floppy = record {
  nbyte = 512;
  nsector = 1;
  nreserved = 1;
  nfat = 2;
  ndirent = 224;
  nsize = 2880;
  mdesc = 0xf0;
  nfsect = 9;
  huge = 0;
  xnfsect = 0;
  bpb_xflags = 0;
  xrootclst = 0;
  bpb_xfsinfosec = 0;
  xbackupsec = 0;
}

abbrev volume : Volume
volume = record {
  drive = drive;
  mdb = 0;
  clsmask = 0;
  fats = 0;
  dirents = 0;
  dirstrt = 0;
  flags = 0;
  dpb_xbackupsec = 0;
  dpb_xrootclst = 0;
}

bpb_to_dpb_runs :
    ((bpb_to_dpb floppy true volume).drive.dpb.size ≡ 2848)
    × ((bpb_to_dpb floppy true volume).drive.dpb.start ≡ 33)
    × ((bpb_to_dpb floppy true volume).dirstrt ≡ 19)
    × ((bpb_to_dpb (record floppy { nfsect = 1 }) true volume).drive.dpb.size ≡ 340)
unfolding shift_count back_down disk_size dir_start_of data_start_of clusters_from base_dpb
    dpb16to32 extended_dpb fat32_dpb bpb_to_dpb
bpb_to_dpb_runs = (refl, refl, refl, refl)

floppy-IsBpb : IsBpb floppy
floppy-IsBpb = record { fat = omega arith; units = 4; sectors = refl; bytes = omega arith }

floppy_size : (bpb_to_dpb floppy true volume).drive.dpb.size ≡ 2848
floppy_size = bpb_to_dpb_runs.0

bpb_to_dpb-Within_example : Within (bpb_to_dpb floppy true volume).drive.dpb 2848
bpb_to_dpb-Within_example =
    bpb_to_dpb-Within floppy true volume 2848 floppy-IsBpb (omega (arith, floppy_size))
      (inl (rw floppy_size refl))

floppy-IsDisk : IsDisk floppy
unfolding data_start_of dir_start_of disk_size
floppy-IsDisk = record { area = omega arith; word = omega arith }
