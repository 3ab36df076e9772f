-- ===== src/FatFs/Bpb.antt =====
-- bpb_to_dpb of kernel/fatfs.c: the parameters of a drive from the BIOS parameter block of its medium.
use fdpp.Base.{
  ℕ, zero, suc, ◌+◌, ◌-◌, ◌*◌, ◌/◌, ◌%◌, ◌^◌, Bool, ◌&&◌, not, ltb, leb, ◌==◌, if◌then◌else◌,
}
use fdpp.FatTab.{Dpb, Drive, is_fat32, read_fsinfo}

-- struct bpb, without the geometry of the disk.
pub record Bpb : Type 0 where
  pub nbyte : ℕ
  pub nsector : ℕ
  pub nreserved : ℕ
  pub nfat : ℕ
  pub ndirent : ℕ
  pub nsize : ℕ
  pub mdesc : ℕ
  pub nfsect : ℕ
  pub huge : ℕ
  pub xnfsect : ℕ
  pub bpb_xflags : ℕ
  pub xrootclst : ℕ
  pub bpb_xfsinfosec : ℕ
  pub xbackupsec : ℕ

-- A drive with the other fields of `struct dpb` that bpb_to_dpb fills.
pub record Volume : Type 0 where
  pub drive : Drive
  pub mdb : ℕ
  pub clsmask : ℕ
  pub fats : ℕ
  pub dirents : ℕ
  pub dirstrt : ℕ
  pub flags : ℕ
  pub dpb_xbackupsec : ℕ
  pub dpb_xrootclst : ℕ

-- The first loop; a number of sectors below 0x100 is shifted at most 7 times.
unfoldable pub shift_count : ℕ → ℕ → ℕ → ℕ
shift_count zero nsector shftcnt = shftcnt
shift_count (suc f) nsector shftcnt =
    let rest = shift_count f nsector (shftcnt + 1) in
    if ltb 1 (nsector / 2 ^ shftcnt) then rest else shftcnt

-- The number of clusters that the FAT has room for, if there are more; `tmp` is half its bytes.
unfoldable pub back_down : ℕ → ℕ → ℕ
back_down tmp size =
    let fatsiz = if ltb 4085 size then tmp else tmp * 4 / 3 in
    if leb 0x1_0000 tmp
    then size
    else if ltb 4085 size && leb tmp 4085
    then size
    else if not (ltb 4085 size) && leb 0x4000 tmp
    then size
    else if leb fatsiz size
    then (fatsiz + 0xffff) % 0x1_0000
    else size

-- The size of the disk in sectors, and where its directory and its data begin.
unfoldable pub disk_size : Bpb → ℕ
disk_size b = if b.nsize == 0 then b.huge else b.nsize

unfoldable pub dir_start_of : Bpb → ℕ
dir_start_of b = (b.nreserved + b.nfat * b.nfsect) % 0x1_0000

unfoldable pub data_start_of : Bpb → ℕ
data_start_of b = (dir_start_of b + (b.ndirent + b.nbyte / 32 - 1) / (b.nbyte / 32)) % 0x1_0000

-- `(size - start) >> shftcnt`
unfoldable pub clusters_from : Bpb → ℕ → ℕ
clusters_from b start =
    (disk_size b + 0x1_0000_0000 - start) % 0x1_0000_0000 / 2 ^ shift_count 8 b.nsector 0

-- The fields that are filled for each drive.
unfoldable pub base_dpb : Bpb → Dpb → Dpb
base_dpb b d = record d {
  shftcnt = shift_count 8 b.nsector 0;
  secsize = b.nbyte;
  fatstrt = b.nreserved;
  fatsize = b.nfsect;
  start = data_start_of b;
  size =
      back_down (b.nfsect * (b.nbyte / 2))
        ((clusters_from b (data_start_of b) % 0x1_0000 + 1) % 0x1_0000);
  cluster = 0;
  nfreeclst = d.nfreeclst / 0x1_0000 * 0x1_0000 + 0xffff;
}

-- dpb16to32, on the fields of Dpb.
unfoldable pub dpb16to32 : Dpb → Dpb
dpb16to32 d = record d { xflags = 0; xfsinfosec = 0xffff; xdata = d.start; xsize = d.size }

unfoldable pub extended_dpb : Bpb → Dpb → Dpb
extended_dpb b d = dpb16to32 (record d {
  xfatsize = if b.nfsect == 0 then b.xnfsect else b.nfsect;
  xcluster = 0;
  nfreeclst = 0xffff_ffff;
})

unfoldable pub fat32_dpb : Bpb → Dpb → Dpb
fat32_dpb b d =
    let xdata = (b.nreserved + b.nfat * d.xfatsize) % 0x1_0000_0000 in
    record d {
      xflags = b.bpb_xflags;
      xfsinfosec = b.bpb_xfsinfosec;
      size = 0;
      xdata = xdata;
      xsize = (clusters_from b xdata + 1) % 0x1_0000_0000;
    }

-- bpb_to_dpb
unfoldable pub bpb_to_dpb : Bpb → Bool → Volume → Volume
bpb_to_dpb b extended v =
    let d = base_dpb b v.drive.dpb in
    let w = record v {
      drive = record v.drive { dpb = d };
      mdb = b.mdesc;
      clsmask = (b.nsector + 0xff) % 0x100;
      fats = b.nfat;
      dirents = b.ndirent;
      dirstrt = dir_start_of b;
      flags = 0;
    } in
    let e = extended_dpb b d in
    if not extended
    then w
    else if not (is_fat32 e)
    then record w { drive = record v.drive { dpb = e }; dpb_xbackupsec = 0xffff; dpb_xrootclst = 0 }
    else record w {
      drive = read_fsinfo (record v.drive { dpb = fat32_dpb b e });
      dpb_xbackupsec = b.xbackupsec;
      dpb_xrootclst = b.xrootclst;
      dirents = 0;
      dirstrt = 0xffff;
    }
