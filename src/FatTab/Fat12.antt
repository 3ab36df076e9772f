-- ===== src/FatTab/Fat12.antt =====
-- link_fat of kernel/fattab.c, read as an access to a table of entries.
use fdpp.Base.{
  ℕ, ◌+◌, ◌*◌, ◌/◌, ◌==◌, leb, true, if◌then◌else◌, ℕ_discrete, inl, inr, Bool-cases, ==_false,
  ◌||◌, ◌%◌, ◌≤◌, ◌<◌, ◌≡◌, ◌≢◌, refl, sym, ◌∙◌, ◌⊎◌, false, arith, ltb, ◌&&◌,
}
use fdpp.FatTab.{Drive, max_cluster, read_cluster, long_bad, widen12, unpack, link_fat, read_fsinfo}
use fdpp.FatTab.Entry.{entry, fetch, entry-replaced_self, entry-replaced_other}
use fdpp.FatTab.Link.{
  IsFat12, Has, fat, base, filled, link12_read, link_fat-link12, link12_write, written, written-fat,
  written-IsFat12, written-Has, written-dpb, filled-Replaced,
}

pub link_fat-entry :
    (v : Drive) (c : ℕ)
    → IsFat12 v
    → Has v c
    → link_fat v c read_cluster ≡ (widen12 (entry (fat v) c), v)
link_fat-entry v c is has =
    link_fat-link12 is has read_cluster (ground (arith, has.low, has.high)) ∙ link12_read is has

-- Half bytes of the FAT, the low one of a byte first, and the three of a 12-bit entry.
abbrev pub nibble : (ℕ → ℕ) → ℕ → ℕ
nibble f n = if n % 2 == 0 then f (n / 2) % 16 else f (n / 2) / 16

abbrev pub fat12_entry : (ℕ → ℕ) → ℕ → ℕ
fat12_entry f c = nibble f (3 * c) + 16 * nibble f (3 * c + 1) + 256 * nibble f (3 * c + 2)

-- What an entry means: 0xff8 to 0xfff end a chain, 0xff7 is a bad cluster, and others are read as they are.
pub data Means (e r : ℕ) : Type 0 where
  last : 0xff8 ≤ e → r ≡ 0xfff_ffff → Means e r
  bad : e ≡ 0xff7 → r ≡ 0xfff_fff7 → Means e r
  plain : e < 0xff7 → r ≡ e → Means e r

entry_nibbles : (f : ℕ → ℕ) (c : ℕ) → ((b : ℕ) → f b < 0x100) → entry f c ≡ fat12_entry f c
unfolding entry unpack
entry_nibbles f c bytes =
    let a = c * 3 / 2 in
    let low : f a < 0x100 = bytes a in
    let high : f (a + 1) < 0x100 = bytes (a + 1) in
    let first : 3 * c / 2 ≡ a = omega arith in
    let third : (3 * c + 2) / 2 ≡ a + 1 = omega arith in
    elim (Bool-cases (c % 2 == 1)) [
      | inl odd ↦
          let is_odd : c % 2 ≡ 1 = ground (arith, odd) in
          let second : (3 * c + 1) / 2 ≡ a + 1 = omega (arith, is_odd) in
          let b₀ : (3 * c % 2 == 0) ≡ false = ground (arith, is_odd) in
          let b₁ : ((3 * c + 1) % 2 == 0) ≡ true = ground (arith, is_odd) in
          let b₂ : ((3 * c + 2) % 2 == 0) ≡ false = ground (arith, is_odd) in
          rw (odd, b₀, b₁, b₂, first, second, third) (omega (arith, low, high))
      | inr even ↦
          let is_even : c % 2 ≡ 0 = ground (arith, even) in
          let second : (3 * c + 1) / 2 ≡ a = omega (arith, is_even) in
          let b₀ : (3 * c % 2 == 0) ≡ true = ground (arith, is_even) in
          let b₁ : ((3 * c + 1) % 2 == 0) ≡ false = ground (arith, is_even) in
          let b₂ : ((3 * c + 2) % 2 == 0) ≡ true = ground (arith, is_even) in
          rw (even, b₀, b₁, b₂, first, second, third) (omega (arith, low, high))
    ]

widen12-Means : (e : ℕ) → e < 0x1000 → Means e (widen12 e)
unfolding widen12
widen12-Means e small = elim (Bool-cases (leb 0xff8 e)) [
  | inl y ↦ rw y (Means.last (ground arith) refl)
  | inr n ↦ elim (ℕ_discrete e 0xff7) [
    | yes q ↦ rw q (Means.bad refl refl)
    | no q ↦ rw (n, ==_false e 0xff7 q) (Means.plain (ground arith) refl)
  ]
]

fat12_entry-lt : (f : ℕ → ℕ) (c : ℕ) → ((b : ℕ) → f b < 0x100) → fat12_entry f c < 0x1000
fat12_entry-lt f c bytes =
    let a = bytes (3 * c / 2) in
    let b = bytes ((3 * c + 1) / 2) in let d = bytes ((3 * c + 2) / 2) in ground arith

-- On a FAT12 drive, link_fat with READ_CLUSTER changes nothing, and returns what the entry of the
-- cluster means, the three half bytes from the cluster's number times 3 on: LONG_LAST_CLUSTER from
-- 0xff8 on, LONG_BAD for 0xff7, and below that the entry.
pub link_fat-reads :
    (v : Drive) (c : ℕ)
    → IsFat12 v
    → Has v c
    → (r : ℕ) × (link_fat v c read_cluster ≡ (r, v)) × Means (fat12_entry (fat v) c) r
link_fat-reads v c is has =
    let bytes : (b : ℕ) → fat v b < 0x100 = λ b. is.bytes _ _ in
    let e = fat12_entry (fat v) c in
    (
      widen12 e,
      link_fat-entry v c is has ∙ rw (entry_nibbles (fat v) c bytes) refl,
      widen12-Means e (fat12_entry-lt (fat v) c bytes),
    )

-- A drive without a 16-bit FAT size and cluster count, as bpb_to_dpb leaves a FAT32 drive, is
-- taken for FAT12: link_fat with READ_CLUSTER changes nothing, and returns what the 12-bit entry in the
-- three half bytes from the cluster's number times 3 on means. The number of the last cluster is below
-- 0x5555_5555, and the two sectors of these half bytes can be had.
pub link_fat-narrow :
    (v : Drive) (c : ℕ)
    → v.dpb.fatsize ≡ 0
    → v.dpb.size ≡ 0
    → 0 < v.dpb.secsize
    → v.dpb.xsize < 0x5555_5555
    → ((s o : ℕ) → v.byte s o < 0x100)
    → Has v c
    → (r : ℕ) × (link_fat v c read_cluster ≡ (r, v)) × Means (fat12_entry (fat v) c) r
link_fat-narrow v c f s pos small bytes has =
    link_fat-reads v c
      (record { fat12 = rw s refl; sectors = pos; small = rw f small; bytes = bytes }) has

-- A value that link_fat stores: READ_CLUSTER it is not, and it is a cluster of the drive, 0, or
-- one of the special values.
pub record Storable (v : Drive) (value : ℕ) : Type 0 where
  pub not_read : value ≢ read_cluster
  pub fits : (ltb value long_bad && ltb (max_cluster v.dpb) value) ≡ false

-- What a write leaves: the entry of `c` is read as the value, and the others are as before, as is the last
-- cluster.
pub record Wrote (v v' : Drive) (c value : ℕ) : Type 0 where
  pub fat12 : IsFat12 v'
  pub clusters : (c' : ℕ) → Has v c' → Has v' c'
  pub same_last : max_cluster v'.dpb ≡ max_cluster v.dpb
  pub self : link_fat v' c read_cluster ≡ (widen12 (value % 0x1000), v')
  pub others :
      (c' : ℕ)
      → Has v c'
      → c' ≢ c
      → (link_fat v' c' read_cluster).0 ≡ (link_fat v c' read_cluster).0

-- On a FAT12 drive, link_fat with another value succeeds; then the entry of the cluster is read
-- as the value, and those of all other clusters whose sectors can be had are read as before, though
-- entries share bytes and an entry can lie in two sectors.
pub link_fat-writes :
    (v : Drive) (c value : ℕ)
    → IsFat12 v
    → Has v c
    → Storable v value
    → (v' : Drive) × (link_fat v c value ≡ (0, v')) × Wrote v v' c value
link_fat-writes v c value is has ok =
    let v' = written is has value in
    let is' = written-IsFat12 is has value in
    let f = fat v in
    let g = fetch v.dpb.secsize (base v.dpb) (filled is has value).byte in
    let replaced = filled-Replaced is has value in
    let bytes : (b : ℕ) → f b < 0x100 = λ b. is.bytes _ _ in
    (
      v',
      link_fat-link12 is has value ok.fits ∙ link12_write is has value ok.not_read,
      record {
        fat12 = is';
        clusters = λ c' h. written-Has is has value h;
        same_last = rw ((written-dpb is has value).1) refl;
        self =
            link_fat-entry v' c is' (written-Has is has value has)
            ∙ rw (written-fat is has value, entry-replaced_self f g c value replaced) refl;
        others = λ c' h ne.
            let new : (link_fat v' c' read_cluster).0 ≡ widen12 (entry (fat v') c') =
              rw (link_fat-entry v' c' is' (written-Has is has value h)) refl in
            let old : (link_fat v c' read_cluster).0 ≡ widen12 (entry f c') =
              rw (link_fat-entry v c' is h) refl in
            new
            ∙ rw (written-fat is has value, entry-replaced_other f g c value replaced bytes c' ne)
                (sym old);
      },
    )

-- If an FSInfo sector is known, read_fsinfo leaves a count of free clusters that is unknown or
-- below the number of the last cluster, and a first free cluster that is unknown or a cluster of
-- the drive; it changes no byte.
pub read_fsinfo-bounds :
    (v : Drive)
    → v.dpb.xfsinfosec ≢ 0xffff
    → ((read_fsinfo v).dpb.nfreeclst ≡ 0xffff_ffff ⊎ (read_fsinfo v).dpb.nfreeclst < v.dpb.xsize)
      × ((read_fsinfo v).dpb.xcluster ≡ 0
          ⊎ ((2 ≤ (read_fsinfo v).dpb.xcluster) × ((read_fsinfo v).dpb.xcluster ≤ v.dpb.xsize)))
      × ((read_fsinfo v).byte ≡ v.byte)
unfolding read_fsinfo
read_fsinfo-bounds v h = elim (Bool-cases (ltb v.fi_cluster 2 || ltb v.dpb.xsize v.fi_cluster)) [
  | inl y ↦ rw (==_false _ _ h, y) (ground arith, inl refl, refl)
  | inr n ↦ rw (==_false _ _ h, n) (ground arith, ground arith, refl)
]
