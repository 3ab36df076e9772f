-- ===== src/FatTab/Link.antt =====
-- link_fat on a FAT12 drive, against the entries that the bytes of its FAT stand for; and what it
-- does on a FAT32 drive.
use native.Mathlib.Nat.{mod-eq_of_lt}
use fdpp.Base.{
  ℕ, ◌+◌, ◌*◌, ◌/◌, ◌%◌, ◌≤◌, ◌<◌, ◌≡◌, ◌≢◌, refl, ◌∙◌, inl, inr, Bool, true, false, arith, leb,
  ltb, ◌==◌, if◌then◌else◌, ◌&&◌, ◌||◌, not, Bool-cases, ==_false,
}
use fdpp.FatTab.{
  Dpb, Drive, is_fat12, is_fat32, max_cluster, no_mirroring, read_cluster, long_bad, index, sector,
  put, mark, count_free, write_fsinfo, pack, widen12, straddles, next_sector, link12, link_fat,
}
use fdpp.FatTab.Entry.{
  fetch, fetch-put, half-position, next-position, first_byte, word_at, entry, Replaced,
}

-- The sector in which the FAT begins that is read and written.
abbrev pub base : Dpb → ℕ
base d = if no_mirroring d then d.fatstrt + d.xflags % 16 * d.xfatsize else d.fatstrt

-- A drive that link_fat takes for FAT12.
pub record IsFat12 (v : Drive) : Type 0 where
  pub fat12 : is_fat12 v.dpb ≡ true
  pub sectors : 0 < v.dpb.secsize
  pub small : max_cluster v.dpb < 0x5555_5555
  pub bytes : (s o : ℕ) → v.byte s o < 0x100

-- The bytes of its FAT.
abbrev pub fat : Drive → ℕ → ℕ
fat v = fetch v.dpb.secsize (base v.dpb) v.byte

-- The cluster is one of the drive, and the two bytes of its entry can be had.
pub record Has (v : Drive) (c : ℕ) : Type 0 where
  pub low : 1 < c
  pub high : c ≤ max_cluster v.dpb
  pub here : v.readable (first_byte c / v.dpb.secsize + base v.dpb) ≡ true
  pub there : v.readable ((first_byte c + 1) / v.dpb.secsize + base v.dpb) ≡ true

-- A drive with the same bytes, and the same parameters but for the count of free clusters.
record Kept (v v' : Drive) : Type 0 where
  byte : v'.byte ≡ v.byte
  readable : v'.readable ≡ v.readable
  free : ℕ
  dpb : v'.dpb ≡ record v.dpb { nfreeclst = free }

if_true : {A : Type 0} (b : Bool) (x y : A) → b ≡ true → (if b then x else y) ≡ x
if_true b x y e = rw e refl

if_false : {A : Type 0} (b : Bool) (x y : A) → b ≡ false → (if b then x else y) ≡ y
if_false b x y e = rw e refl

and_false : (b : Bool) → (b && false) ≡ false
and_false true = refl
and_false false = refl

if-Kept : {v x y : Drive} (b : Bool) → Kept v x → Kept v y → Kept v (if b then x else y)
if-Kept true p q = p
if-Kept false p q = q

counted : (v : Drive) (n : ℕ) → Kept v (record v { dpb = record v.dpb { nfreeclst = n } })
counted v n = record { byte = refl; readable = refl; free = n; dpb = refl }

same_drive : (v : Drive) → Kept v v
same_drive v = counted v v.dpb.nfreeclst

marked : {v w : Drive} (s : ℕ) → Kept v w → Kept v (mark w s)
unfolding mark
marked s p = record { byte = p.byte; readable = p.readable; free = p.free; dpb = p.dpb }

fsinfo : {v w : Drive} (n c : ℕ) → Kept v w → Kept v (record w { fi_nfreeclst = n; fi_cluster = c })
fsinfo n c p = record { byte = p.byte; readable = p.readable; free = p.free; dpb = p.dpb }

write_fsinfo-Kept : {v w : Drive} → Kept v w → Kept v (write_fsinfo w)
unfolding write_fsinfo
write_fsinfo-Kept {v} {w} p =
    let d = w.dpb in
    if-Kept (d.xfsinfosec == 0xffff) p (
      fsinfo d.nfreeclst d.xcluster (
        if-Kept (not (w.fi_nfreeclst == d.nfreeclst) || not (w.fi_cluster == d.xcluster))
          (marked d.xfsinfosec p) p))

count_free-Kept : (v : Drive) (w : Bool) (c : ℕ) → Kept v (count_free v w c)
unfolding count_free
count_free-Kept v w c =
    let n = v.dpb.nfreeclst in
    let adjust = if not w then 1 else if not (c == 0) then 0xffff_ffff else 0 in
    if-Kept (not (c == 0 || w)) (same_drive v) (
      if-Kept (is_fat32 v.dpb && not (n == 0xffff_ffff))
        (write_fsinfo-Kept (counted v ((n + adjust) % 0x1_0000_0000)))
        (if-Kept (not (n % 0x1_0000 == 0xffff))
          (counted v (n / 0x1_0000 * 0x1_0000 + (n % 0x1_0000 + adjust) % 0x1_0000))
          (same_drive v)))

module _ {v : Drive} (is : IsFat12 v) {c : ℕ} (has : Has v c) where
  abbrev s : ℕ
  s = v.dpb.secsize

  abbrev k : ℕ
  k = base v.dpb

  abbrev a : ℕ
  a = first_byte c

  where_index : index v.dpb c / 2 ≡ a % s
  unfolding index
  where_index =
      rw
        (is.fat12, mod-eq_of_lt {n = c * 3} {m = 0x1_0000_0000} (omega (arith, has.high, is.small)))
        (half-position (c * 3) s is.sectors).1

  where_sector : sector v.dpb c ≡ a / s + k
  unfolding sector
  where_sector =
      let h = (half-position (c * 3) s is.sectors).0 in
      elim (Bool-cases (no_mirroring v.dpb)) [
        | inl y ↦
            rw
              (
                y,
                is.fat12,
                mod-eq_of_lt {n = c * 3} {m = 0x1_0000_0000} (omega (arith, has.high, is.small)),
              )
              (omega arith)
        | inr n ↦
            rw
              (
                n,
                is.fat12,
                mod-eq_of_lt {n = c * 3} {m = 0x1_0000_0000} (omega (arith, has.high, is.small)),
              )
              (omega arith)
      ]

  -- The second byte can be had.
  beyond :
      (straddles v.dpb (a % s) && not (v.readable (next_sector v.dpb (a / s + k) (a % s)))) ≡ false
  beyond =
      let n = (next-position v.dpb k a is.sectors).0 in
      rw (n, has.there) (and_false (straddles v.dpb (a % s)))

  -- The entry is read from its two bytes.
  pub link12_read : link12 v (a / s + k) (a % s) c read_cluster ≡ (widen12 (entry (fat v) c), v)
  unfolding link12 entry
  link12_read =
      let n = next-position v.dpb k a is.sectors in if_false _ _ _ beyond ∙ rw (n.0, n.1) refl

  pub link_fat-link12 :
      (value : ℕ)
      → (ltb value long_bad && ltb (max_cluster v.dpb) value) ≡ false
      → link_fat v c value ≡ link12 v (a / s + k) (a % s) c value
  unfolding link_fat
  link_fat-link12 value fits =
      let inside : (leb c 1 || ltb (max_cluster v.dpb) c) ≡ false =
        ground (arith, has.low, has.high) in
      let here : not (v.readable (sector v.dpb c)) ≡ false = rw (where_sector, has.here) refl in
      if_false _ _ _ inside
      ∙ if_false _ _ _ fits
      ∙ if_false _ _ _ here
      ∙ if_true _ _ _ is.fat12
      ∙ rw (where_sector, where_index) refl

  -- The two bytes of the entry are filled, the second sector being marked when it is another one.
  abbrev word : ℕ → ℕ
  word value = pack c (word_at (fat v) a) value

  abbrev touched : Drive
  touched = if straddles v.dpb (a % s) then mark v ((a + 1) / s + k) else v

  unfoldable pub filled : ℕ → Drive
  filled value =
      put (put touched (a / s + k) (a % s) (word value % 0x100)) ((a + 1) / s + k) ((a + 1) % s)
        (word value / 0x100 % 0x100)

  touched-Kept : Kept v touched
  touched-Kept =
      if-Kept (straddles v.dpb (a % s)) (marked ((a + 1) / s + k) (same_drive v)) (same_drive v)

  pub filled-Replaced : (value : ℕ) → Replaced (fat v) (fetch s k (filled value).byte) c value
  unfolding filled
  filled-Replaced value b =
      let n = word value in
      let one = put touched (a / s + k) (a % s) (n % 0x100) in
      fetch-put s k one (a + 1) b (n / 0x100 % 0x100)
      ∙ rw (fetch-put s k touched a b (n % 0x100), touched-Kept.byte) refl

  filled-bytes : (value t o : ℕ) → (filled value).byte t o < 0x100
  unfolding filled put
  filled-bytes value t o =
      let n = word value in rw (touched-Kept.byte) (ground (arith, is.bytes t o))

  filled-readable : (value : ℕ) → (filled value).readable ≡ v.readable
  unfolding filled put
  filled-readable value = touched-Kept.readable

  filled-dpb : (value : ℕ) → (filled value).dpb ≡ record v.dpb { nfreeclst = touched-Kept.free }
  unfolding filled put
  filled-dpb value = touched-Kept.dpb

  abbrev pub written : ℕ → Drive
  written value = count_free (mark (filled value) (a / s + k)) (entry (fat v) c == 0) value

  pub link12_write :
      (value : ℕ) → value ≢ read_cluster → link12 v (a / s + k) (a % s) c value ≡ (0, written value)
  unfolding link12 entry filled
  link12_write value ne =
      let n = next-position v.dpb k a is.sectors in
      if_false _ _ _ beyond ∙ if_false _ _ _ (==_false value read_cluster ne) ∙ rw (n.0, n.1) refl

  pub written-byte : (value : ℕ) → (written value).byte ≡ (filled value).byte
  unfolding mark
  written-byte value =
      (count_free-Kept (mark (filled value) (a / s + k)) (entry (fat v) c == 0) value).byte

  written-readable : (value : ℕ) → (written value).readable ≡ v.readable
  unfolding mark
  written-readable value =
      (count_free-Kept (mark (filled value) (a / s + k)) (entry (fat v) c == 0) value).readable
      ∙ filled-readable value

  pub written-dpb : (value : ℕ) → (n : ℕ) × ((written value).dpb ≡ record v.dpb { nfreeclst = n })
  unfolding mark
  written-dpb value =
      let p = count_free-Kept (mark (filled value) (a / s + k)) (entry (fat v) c == 0) value in
      (p.free, p.dpb ∙ rw (filled-dpb value) refl)

  -- The drive is still a FAT12 drive with the same clusters.
  pub written-IsFat12 : (value : ℕ) → IsFat12 (written value)
  written-IsFat12 value =
      let d = written-dpb value in
      record {
        fat12 = rw (d.1) is.fat12;
        sectors = rw (d.1) is.sectors;
        small = rw (d.1) is.small;
        bytes = λ t o. rw (written-byte value) (filled-bytes value t o);
      }

  pub written-Has : (value : ℕ) {c' : ℕ} → Has v c' → Has (written value) c'
  written-Has value h =
      let d = written-dpb value in
      record {
        low = h.low;
        high = rw (d.1) h.high;
        here = rw (d.1, written-readable value) h.here;
        there = rw (d.1, written-readable value) h.there;
      }

  pub written-fat : (value : ℕ) → fat (written value) ≡ fetch s k (filled value).byte
  written-fat value = let d = written-dpb value in rw (d.1, written-byte value) refl
