-- ===== src/FatFs/Places.antt =====
-- bpb_to_dpb and clus2phys of kernel/fatfs.c: where the clusters of a drive are on its disk.
use native.Mathlib.Nat.{add-mul, mul-le-mul_right, div-mul-le_self}
use fdpp.Base.{
  ℕ, zero, suc, ◌+◌, ◌-◌, ◌*◌, ◌/◌, ◌%◌, ◌^◌, ◌≤◌, ◌<◌, ◌≡◌, refl, sym, ap, ◌∙◌, Bool, false, ◌==◌,
  arith,
}
use fdpp.FatTab.{Dpb}
use fdpp.FatFs.{clus2phys}
use fdpp.FatFs.Bpb.{
  Bpb, Volume, shift_count, disk_size, data_start_of, clusters_from, back_down, bpb_to_dpb,
}
use fdpp.FatFs.Covers.{IsBpb, Shaped, words, some_words, bpb_to_dpb-Shaped}

back_down-le : (tmp size : ℕ) → 0 < tmp → back_down tmp size ≤ size
unfolding back_down
back_down-le tmp size pos = ground (arith, pos)

-- The sectors of the disk begin at 0, and its data area is in it.
pub record IsDisk (b : Bpb) : Type 0 where
  pub area : data_start_of b ≤ disk_size b
  pub word : disk_size b < 0x1_0000_0000

-- As many clusters as there are, from the second one on, are in the data area.
clusters_in :
    (b : Bpb) (c : ℕ)
    → IsDisk b
    → c ≤ clusters_from b (data_start_of b)
    → data_start_of b + c * 2 ^ shift_count 8 b.nsector 0 ≤ disk_size b
unfolding clusters_from
clusters_in b c disk le =
    let spc = 2 ^ shift_count 8 b.nsector 0 in
    let area = disk_size b - data_start_of b in
    let no_wrap : (disk_size b + 0x1_0000_0000 - data_start_of b) % 0x1_0000_0000 ≡ area =
      omega (arith, disk.area, disk.word) in
    let le' : c ≤ area / spc = rw (sym no_wrap) le in
    let all = mul-le-mul_right spc le' in omega (arith, all, div-mul-le_self area spc, disk.area)

module _ {b : Bpb} {d : Dpb} (ok : IsBpb b) (disk : IsDisk b) (p : Shaped b d) (c : ℕ) (low : 1 < c)
    (high : c ≤ d.size) where
  abbrev spc : ℕ
  spc = 2 ^ shift_count 8 b.nsector 0

  last_sector : data_start_of b + (c - 2) * spc + spc ≤ disk_size b
  last_sector =
      let room = clusters_in b (c - 1) disk (
        omega (
          arith,
          p.counted,
          p.size,
          high,
          back_down-le (words b) p.full (some_words ok p c high),
        )) in
      let one_less : (c - 1) * spc ≡ (c - 2) * spc + spc =
        ap (λ (x : ℕ). x * spc) (omega (arith, low)) ∙ add-mul (c - 2) 1 spc ∙ omega arith in
      omega (arith, room, one_less)

  place : clus2phys c d ≡ data_start_of b + (c - 2) * spc
  unfolding clus2phys
  place =
      let not_32 : (d.fatsize == 0) ≡ false = ground (arith, ok.fat, p.fatsize) in
      let wraps : (c + 0x1_0000_0000 - 2) * spc ≡ (c - 2) * spc + 0x1_0000_0000 * spc =
        ap (λ (x : ℕ). x * spc) (omega (arith, low)) ∙ add-mul (c - 2) 0x1_0000_0000 spc in
      rw (not_32, p.shftcnt, p.start, wraps) (omega (arith, last_sector, disk.word))

-- A power of two below 0x100 is counted.
shift_count_lem : (k : ℕ) → k < 8 → shift_count 8 (2 ^ k) 0 ≡ k
unfolding shift_count
shift_count_lem zero lt = refl
shift_count_lem (suc zero) lt = refl
shift_count_lem (suc (suc zero)) lt = refl
shift_count_lem (suc (suc (suc zero))) lt = refl
shift_count_lem (suc (suc (suc (suc zero)))) lt = refl
shift_count_lem (suc (suc (suc (suc (suc zero))))) lt = refl
shift_count_lem (suc (suc (suc (suc (suc (suc zero)))))) lt = refl
shift_count_lem (suc (suc (suc (suc (suc (suc (suc zero))))))) lt = refl
shift_count_lem (suc (suc (suc (suc (suc (suc (suc (suc k)))))))) lt = absurd (omega (arith, lt))

-- The data area of a disk is in the disk, and its clusters have a power of two of sectors. Then
-- bpb_to_dpb of its parameter block, with a 16-bit FAT size, leaves a drive whose clusters are in
-- the data area: clus2phys of a cluster is the first of its sectors, which end before those of each later
-- cluster begin, and before the end of the disk.
pub clus2phys-bounds :
    (b : Bpb) (extended : Bool) (v : Volume) (k c later : ℕ)
    → IsBpb b
    → IsDisk b
    → k < 8
    → b.nsector ≡ 2 ^ k
    → 1 < c
    → c < later
    → later ≤ (bpb_to_dpb b extended v).drive.dpb.size
    → (data_start_of b ≤ clus2phys c (bpb_to_dpb b extended v).drive.dpb)
      × (clus2phys c (bpb_to_dpb b extended v).drive.dpb + b.nsector
          ≤ clus2phys later (bpb_to_dpb b extended v).drive.dpb)
      × (clus2phys later (bpb_to_dpb b extended v).drive.dpb + b.nsector ≤ disk_size b)
clus2phys-bounds b extended v k c later ok disk few e low behind high =
    let p = bpb_to_dpb-Shaped b extended v ok in
    let n = 2 ^ shift_count 8 b.nsector 0 in
    let sectors : n ≡ b.nsector =
      ap (λ (x : ℕ). 2 ^ shift_count 8 x 0) e
      ∙ ap (λ (x : ℕ). 2 ^ x) (shift_count_lem k few)
      ∙ sym e in
    let size = (bpb_to_dpb b extended v).drive.dpb.size in
    let c_in : c ≤ size = omega (arith, behind, high) in
    let here = place ok disk p c low c_in in
    let there = place ok disk p later (omega (arith, low, behind)) high in
    let end = last_sector ok disk p later (omega (arith, low, behind)) high in
    let before : c - 1 ≤ later - 2 = omega (arith, low, behind) in
    let apart = mul-le-mul_right n before in
    let one_more : (c - 1) * n ≡ (c - 2) * n + n =
      ap (λ (x : ℕ). x * n) (omega (arith, low)) ∙ add-mul (c - 2) 1 n ∙ omega arith in
    (
      omega (arith, here),
      omega (arith, here, there, sectors, apart, one_more),
      omega (arith, there, end, sectors),
    )
