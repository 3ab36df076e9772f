-- ===== src/FatTab/Tests.antt =====
-- The FAT routines on a small FAT12 drive, and the theorems at it.
use fdpp.Base.{ℕ, ◌≡◌, ◌<◌, ◌≤◌, refl, true, arith, ◌==◌, if◌then◌else◌, ◌&&◌, false}
use fdpp.FatTab.{
  Dpb, Drive, read_cluster, widen12, index, sector, put, mark, write_fsinfo, count_free, unpack,
  pack, link12, link_fat, is_free_cluster, long_last_cluster,
}
use fdpp.FatTab.Link.{IsFat12, Has, fat}
use fdpp.FatTab.Fat12.{link_fat-reads, link_fat-writes, link_fat-narrow, Wrote, Means, fat12_entry}

abbrev floppy : Dpb
floppy = record {
  secsize = 512;
  fatstrt = 1;
  size = 400;
  fatsize = 2;
  nfreeclst = 398;
  xflags = 0;
  xfsinfosec = 0xffff;
  xsize = 400;
  xfatsize = 2;
  xcluster = 0xffff;
  cluster = 0;
  shftcnt = 0;
  start = 12;
  xdata = 12;
}

-- The entry of cluster 341 is in the last byte of the first sector and the first of the second;
-- it holds 5, and its neighbours 0xfff and 0xabc.
abbrev bytes : ℕ → ℕ → ℕ
bytes s o =
    if s == 1 && o == 510
    then 0xff
    else if s == 1 && o == 509
    then 0xff
    else if s == 1 && o == 511
    then 0x5f
    else if s == 2 && o == 1
    then 0xbc
    else if s == 2 && o == 2
    then 0x0a
    else 0

abbrev drive : Drive
drive = record {
  dpb = floppy;
  readable = λ s. true;
  byte = bytes;
  dirty = λ s. false;
  fi_nfreeclst = 0;
  fi_cluster = 0;
}

drive-IsFat12 : IsFat12 drive
drive-IsFat12 = record {
  fat12 = refl;
  sectors = omega arith;
  small = omega arith;
  bytes = λ s o. ground arith;
}

drive-Has : (c : ℕ) → 1 < c → c ≤ 400 → Has drive c
drive-Has c low high = record { low = low; high = high; here = refl; there = refl }

-- Reading around the border of the two sectors, and after a write there.
link_fat_runs :
    ((link_fat drive 340 read_cluster).0 ≡ long_last_cluster)
    × ((link_fat drive 341 read_cluster).0 ≡ 5)
    × ((link_fat drive 342 read_cluster).0 ≡ 0xabc)
    × ((link_fat drive 401 read_cluster).0 ≡ 1)
    × ((link_fat (link_fat drive 341 0x123).1 341 read_cluster).0 ≡ 0x123)
    × ((link_fat (link_fat drive 341 0x123).1 340 read_cluster).0 ≡ long_last_cluster)
    × ((link_fat drive 341 0).1.dpb.nfreeclst ≡ 399)
    × (is_free_cluster drive 10 ≡ true)
unfolding link_fat link12 index sector unpack pack widen12 put mark count_free write_fsinfo
    is_free_cluster
link_fat_runs = (refl, refl, refl, refl, refl, refl, refl, refl)

link_fat-reads_example :
    (r : ℕ) × (link_fat drive 341 read_cluster ≡ (r, drive)) × Means (fat12_entry (fat drive) 341) r
link_fat-reads_example =
    link_fat-reads drive 341 drive-IsFat12 (drive-Has 341 (omega arith) (omega arith))

link_fat-writes_example :
    (v' : Drive) × (link_fat drive 341 0x123 ≡ (0, v')) × Wrote drive v' 341 0x123
link_fat-writes_example =
    link_fat-writes drive 341 0x123 drive-IsFat12 (drive-Has 341 (omega arith) (omega arith))
      (record { not_read = omega arith; fits = refl })

abbrev fat32 : Drive
fat32 = record drive { dpb = record floppy { size = 0; fatsize = 0; xsize = 0x2_0000 } }

link_fat-narrow_example :
    (r : ℕ) × (link_fat fat32 0x1_0000 read_cluster ≡ (r, fat32))
    × Means (fat12_entry (fat fat32) 0x1_0000) r
link_fat-narrow_example =
    link_fat-narrow fat32 0x1_0000 refl refl (omega arith) (omega arith) drive-IsFat12.bytes
      (record { low = omega arith; high = omega arith; here = refl; there = refl })

-- A drive whose FSInfo sector holds nonsense.
abbrev stale : Drive
stale = record drive {
  dpb = record floppy { xfsinfosec = 1; xsize = 0x100 };
  fi_nfreeclst = 0x5000;
  fi_cluster = 0x80;
}
