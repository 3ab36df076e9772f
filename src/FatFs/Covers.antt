-- ===== src/FatFs/Covers.antt =====
-- bpb_to_dpb of kernel/fatfs.c leaves a drive whose FAT has an entry for each of its clusters.
use native.Mathlib.Nat.{div-lt_iff_lt-mul, mod-lt, mul-pos, mul_assoc, mod-eq_of_lt}
use fdpp.Base.{
  ℕ, ◌+◌, ◌-◌, ◌*◌, ◌/◌, ◌%◌, ◌≤◌, ◌<◌, ◌≡◌, refl, sym, ap, ◌∙◌, ◌⊎◌, inl, inr, Bool, true, false,
  not, leb, ◌==◌, if◌then◌else◌, arith, Bool-cases, by_test,
}
use fdpp.FatTab.{Dpb, is_fat12, no_mirroring, index, sector, next_sector}
use fdpp.FatTab.Entry.{half-position, next-position}
use fdpp.FatFs.Bpb.{
  Bpb, Volume, shift_count, data_start_of, clusters_from, back_down, base_dpb, extended_dpb,
  dpb16to32, bpb_to_dpb,
}

-- Where each entry of a FAT12 drive, or of a FAT16 drive, ends: before the end of `tmp` words.
back_down-fits :
    (tmp size c : ℕ)
    → 0 < tmp
    → size < 0x1_0000
    → c ≤ back_down tmp size
    → back_down tmp size ≤ 4085
    → c * 3 / 2 + 1 < tmp * 2
unfolding back_down
back_down-fits tmp size c pos word le small = ground (arith, pos, word, le, small)

back_down-fits16 :
    (tmp size c : ℕ)
    → 4085 < tmp
    → size < 0x1_0000
    → c ≤ back_down tmp size
    → 4085 < back_down tmp size
    → c < tmp
unfolding back_down
back_down-fits16 tmp size c pos word le large = ground (arith, pos, word, le, large)

-- A parameter block of a FAT12 or FAT16 medium, with a sector size that is a multiple of 128.
pub record IsBpb (b : Bpb) : Type 0 where
  pub fat : 0 < b.nfsect
  pub units : ℕ
  pub sectors : b.nbyte ≡ units * 128
  pub bytes : 0 < b.nbyte

-- The 16-bit words of a FAT.
abbrev pub words : Bpb → ℕ
words b = b.nfsect * (b.nbyte / 2)

-- The offset that link_fat has in the sector.
abbrev pub offset : Dpb → ℕ → ℕ
offset d c = if is_fat12 d then index d c / 2 else index d c * 2

-- The entry of a cluster is in the sectors of the first FAT.
pub record Within (d : Dpb) (c : ℕ) : Type 0 where
  pub first : d.fatstrt ≤ sector d c
  pub last : next_sector d (sector d c) (offset d c) < d.fatstrt + d.fatsize

-- What bpb_to_dpb fills in.
pub record Shaped (b : Bpb) (d : Dpb) : Type 0 where
  pub secsize : d.secsize ≡ b.nbyte
  pub fatstrt : d.fatstrt ≡ b.nreserved
  pub fatsize : d.fatsize ≡ b.nfsect
  pub shftcnt : d.shftcnt ≡ shift_count 8 b.nsector 0
  pub start : d.start ≡ data_start_of b
  pub full : ℕ
  pub word : full < 0x1_0000
  pub counted : full ≤ clusters_from b (data_start_of b) + 1
  pub size : d.size ≡ back_down (words b) full

pub bpb_to_dpb-Shaped :
    (b : Bpb) (extended : Bool) (v : Volume)
    → IsBpb b
    → Shaped b (bpb_to_dpb b extended v).drive.dpb
unfolding bpb_to_dpb base_dpb extended_dpb dpb16to32
bpb_to_dpb-Shaped b extended v ok =
    let Done : Volume → Type 0 = λ w. Shaped b w.drive.dpb in
    let not_32 : (b.nfsect == 0) ≡ false = ground (arith, ok.fat) in
    by_test Done (not extended) _ _
      (λ y. record {
        secsize = refl;
        fatstrt = refl;
        fatsize = refl;
        shftcnt = refl;
        start = refl;
        full = _;
        word = omega arith;
        counted = omega arith;
        size = refl;
      })
      (λ x.
        by_test Done (not (b.nfsect == 0)) _ _
          (λ y. record {
            secsize = refl;
            fatstrt = refl;
            fatsize = refl;
            shftcnt = refl;
            start = refl;
            full = _;
            word = omega arith;
            counted = omega arith;
            size = refl;
          })
          (λ z. absurd (ground (arith, not_32, z))))

module _ {b : Bpb} {d : Dpb} (ok : IsBpb b) (p : Shaped b d) (c : ℕ) (le : c ≤ d.size) where
  abbrev s : ℕ
  s = d.secsize

  whole : d.fatsize * s ≡ words b * 2
  whole =
      rw (p.fatsize, p.secsize)
        (ap (λ (x : ℕ). b.nfsect * x) (omega (arith, ok.sectors))
          ∙ sym (mul_assoc b.nfsect (b.nbyte / 2) 2))

  pub some_words : 0 < words b
  some_words = mul-pos ok.fat (omega (arith, ok.sectors, ok.bytes))

  no_mirror : no_mirroring d ≡ false
  no_mirror =
      let not_32 : (d.fatsize == 0) ≡ false = ground (arith, ok.fat, p.fatsize) in rw not_32 refl

  within12 : is_fat12 d ≡ true → Within d c
  unfolding sector index
  within12 is =
      let pos : 0 < s = omega (arith, p.secsize, ok.bytes) in
      let a = c * 3 / 2 in
      let small : d.size ≤ 4085 = ground (arith, is) in
      let fits : a + 1 < d.fatsize * s =
        let n =
          back_down-fits (words b) p.full c some_words p.word (omega (arith, le, p.size))
            (omega (arith, small, p.size)) in
        omega (arith, whole, n) in
      let inside = (div-lt_iff_lt-mul {k = s} {x = a + 1} {y = d.fatsize} pos).1 fits in
      let no_wrap = mod-eq_of_lt {n = c * 3} {m = 0x1_0000_0000} (omega (arith, le, small)) in
      let half = half-position (c * 3) s pos in
      let next_one = (next-position d d.fatstrt a pos).0 in
      record {
        first = rw (is, no_mirror) (omega arith);
        last = rw (is, no_mirror, no_wrap, half.0, half.1, next_one) (omega (arith, inside));
      }

  within16 : is_fat12 d ≡ false → 4085 < words b → Within d c
  unfolding sector index
  within16 is enough =
      let pos : 0 < s / 2 = omega (arith, p.secsize, ok.bytes, ok.sectors) in
      let large : 4085 < d.size = ground (arith, is) in
      let not_32 : (d.fatsize == 0) ≡ false = ground (arith, ok.fat, p.fatsize) in
      let fits : c < d.fatsize * (s / 2) =
        rw (p.fatsize, p.secsize)
          (back_down-fits16 (words b) p.full c enough p.word (omega (arith, le, p.size))
            (omega (arith, large, p.size))) in
      let inside = (div-lt_iff_lt-mul {k = s / 2} {x = c} {y = d.fatsize} pos).1 fits in
      let there : leb (s - 1) (c % (s / 2) * 2) ≡ false =
        ground (arith, mod-lt c pos, ok.sectors, p.secsize) in
      record {
        first = rw (is, not_32) (omega arith);
        last = rw (is, not_32, there) (omega (arith, inside));
      }

-- bpb_to_dpb of a parameter block with a 16-bit FAT size leaves a drive of which each cluster's
-- entry is, to its last byte, in the sectors of the first FAT, where link_fat looks for it. A drive that is not
-- taken for FAT12 must have a FAT with more than 4085 words.
pub bpb_to_dpb-Within :
    (b : Bpb) (extended : Bool) (v : Volume) (c : ℕ)
    → IsBpb b
    → c ≤ (bpb_to_dpb b extended v).drive.dpb.size
    → (is_fat12 (bpb_to_dpb b extended v).drive.dpb ≡ true) ⊎ (4085 < words b)
    → Within (bpb_to_dpb b extended v).drive.dpb c
bpb_to_dpb-Within b extended v c ok le kind =
    let d = (bpb_to_dpb b extended v).drive.dpb in
    let p = bpb_to_dpb-Shaped b extended v ok in
    elim (Bool-cases (is_fat12 d)) [
      | inl y ↦ within12 ok p c le y
      | inr n ↦ elim kind [
        | inl y ↦ within12 ok p c le y
        | inr enough ↦ within16 ok p c le n enough
      ]
    ]
