-- ===== src/FatFs/Fat12.antt =====
-- A FAT12 drive of kernel/fattab.c is a table in the sense of Table.
use fdpp.Base.{
  ℕ, ◌%◌, ◌<◌, ◌≡◌, refl, sym, ap, ◌∙◌, inl, inr, Bool, true, false, ◌||◌, not, ltb, ◌==◌,
  if◌then◌else◌, arith, ==_iff, ==_false, ℕ_discrete,
}
use fdpp.FatTab.{Drive, is_fat32, max_cluster, read_cluster, write_fsinfo, link_fat, mark, widen12}
use fdpp.FatTab.Entry.{entry}
use fdpp.FatTab.Link.{IsFat12, Has, fat}
use fdpp.FatTab.Fat12.{link_fat-entry, link_fat-writes, Storable, Wrote}
use fdpp.FatFs.{set_hint, lower_hint}
use fdpp.FatFs.Table.{IsTable, InDrive, IsEntry, replaced}

-- The FAT of a FAT12 drive all of whose FAT can be had, with its special values widened.
pub record Holds (n : ℕ) (v : Drive) (t : ℕ → ℕ) : Type 0 where
  pub is : IsFat12 v
  pub has : (c : ℕ) → InDrive n c → Has v c
  pub last : max_cluster v.dpb ≡ n
  pub entries : (c : ℕ) → InDrive n c → widen12 (entry (fat v) c) ≡ t c

-- Drives that differ only in what the FAT does not depend on.
record Alike (v w : Drive) : Type 0 where
  byte : w.byte ≡ v.byte
  readable : w.readable ≡ v.readable
  free : ℕ
  hint : ℕ
  xhint : ℕ
  dpb : w.dpb ≡ record v.dpb { nfreeclst = free; cluster = hint; xcluster = xhint }

if-Alike : {v x y : Drive} (b : Bool) → Alike v x → Alike v y → Alike v (if b then x else y)
if-Alike true p q = p
if-Alike false p q = q

alike :
    (v : Drive) (cluster xcluster : ℕ)
    → Alike v (record v { dpb = record v.dpb { cluster = cluster; xcluster = xcluster } })
alike v c x = record {
  byte = refl;
  readable = refl;
  free = v.dpb.nfreeclst;
  hint = c;
  xhint = x;
  dpb = refl;
}

same_drive : (v : Drive) → Alike v v
same_drive v = alike v v.dpb.cluster v.dpb.xcluster

write_fsinfo-Alike : {v w : Drive} → Alike v w → Alike v (write_fsinfo w)
unfolding write_fsinfo mark
write_fsinfo-Alike {v} {w} p =
    let stored : (x : Drive)
        → Alike v x
        → Alike v (record x { fi_nfreeclst = w.dpb.nfreeclst; fi_cluster = w.dpb.xcluster }) =
      λ x q. record {
        byte = q.byte;
        readable = q.readable;
        free = q.free;
        hint = q.hint;
        xhint = q.xhint;
        dpb = q.dpb;
      } in
    if-Alike (w.dpb.xfsinfosec == 0xffff) p (
      stored _ (
        if-Alike (not (w.fi_nfreeclst == w.dpb.nfreeclst) || not (w.fi_cluster == w.dpb.xcluster))
          (record {
            byte = p.byte;
            readable = p.readable;
            free = p.free;
            hint = p.hint;
            xhint = p.xhint;
            dpb = p.dpb;
          })
          p))

set_hint-Alike : (v : Drive) (cluster : ℕ) → Alike v (set_hint v cluster)
unfolding set_hint
set_hint-Alike v c =
    if-Alike (is_fat32 v.dpb) (write_fsinfo-Alike (alike v v.dpb.cluster c))
      (alike v (c % 0x1_0000) v.dpb.xcluster)

lower_hint-Alike : (v : Drive) (st : ℕ) → Alike v (lower_hint v st)
unfolding lower_hint
lower_hint-Alike v st =
    let d = v.dpb in
    if-Alike (is_fat32 d)
      (if-Alike (d.xcluster == 0 || ltb st d.xcluster) (alike v d.cluster st) (same_drive v))
      (if-Alike (d.cluster == 0 || ltb (st % 0x1_0000) d.cluster)
        (alike v (st % 0x1_0000) d.xcluster) (same_drive v))

module _ {n : ℕ} {v w : Drive} {t : ℕ → ℕ} (h : Holds n v t) (p : Alike v w) where
  alike-fat : fat w ≡ fat v
  alike-fat = rw (p.dpb, p.byte) refl

  alike-Holds : Holds n w t
  alike-Holds = record {
    is = record {
      fat12 = rw (p.dpb) h.is.fat12;
      sectors = rw (p.dpb) h.is.sectors;
      small = rw (p.dpb) h.is.small;
      bytes = rw (p.byte) h.is.bytes;
    };
    has = λ c i. record {
      low = (h.has c i).low;
      high = rw (p.dpb) ((h.has c i).high);
      here = rw (p.dpb, p.readable) ((h.has c i).here);
      there = rw (p.dpb, p.readable) ((h.has c i).there);
    };
    last = rw (p.dpb) h.last;
    entries = λ c i. rw (alike-fat) (h.entries c i);
  }

-- A value that is stored in 12 bits and widened again is itself.
widen12_entry : {n : ℕ} (value : ℕ) → n < 0xff0 → IsEntry n value → widen12 (value % 0x1000) ≡ value
unfolding widen12
widen12_entry value few (inl e) = rw e refl
widen12_entry value few (inr (inl i)) = ground (arith, few, i.high)
widen12_entry value few (inr (inr e)) = rw e refl

entry-Storable :
    {n : ℕ} {v : Drive} (value : ℕ) → max_cluster v.dpb ≡ n → IsEntry n value → Storable v value
entry-Storable value e (inl z) = record { not_read = omega (arith, z); fits = ground (arith, z) }
entry-Storable value e (inr (inl i)) = record {
  not_read = omega (arith, i.low);
  fits = ground (arith, i.high, e);
}
entry-Storable value e (inr (inr l)) = record { not_read = omega (arith, l); fits = rw l refl }

module _ {n : ℕ} (few : n < 0xff0) {v : Drive} {t : ℕ → ℕ} (h : Holds n v t) where
  Holds-reads : (c : ℕ) → InDrive n c → link_fat v c read_cluster ≡ (t c, v)
  Holds-reads c i = link_fat-entry v c h.is (h.has c i) ∙ rw (h.entries c i) refl

  Wrote-Holds :
      {v' : Drive} (c value : ℕ)
      → InDrive n c
      → IsEntry n value
      → Wrote v v' c value
      → Holds n v' (replaced t c value)
  Wrote-Holds {v'} c value i ok w =
      let reads : (x : ℕ)
          → InDrive n x
          → (link_fat v' x read_cluster).0 ≡ widen12 (entry (fat v') x) =
        λ x j.
          ap (λ (r : ℕ × Drive). r.0) (link_fat-entry v' x w.fat12 (w.clusters x (h.has x j))) in
      record {
        is = w.fat12;
        has = λ x j. w.clusters x (h.has x j);
        last = w.same_last ∙ h.last;
        entries = λ x j. elim (ℕ_discrete x c) [
          | yes e ↦ rw ((==_iff x c).1 e) (
              sym (reads x j)
              ∙ rw e (ap (λ (r : ℕ × Drive). r.0) w.self)
              ∙ widen12_entry value few ok)
          | no ne ↦ rw (==_false x c ne) (
              sym (reads x j)
              ∙ w.others x (h.has x j) ne
              ∙ ap (λ (r : ℕ × Drive). r.0) (Holds-reads x j))
        ];
      }

  Holds-writes :
      (c value : ℕ)
      → InDrive n c
      → IsEntry n value
      → (v' : Drive) × (link_fat v c value ≡ (0, v')) × Holds n v' (replaced t c value)
  Holds-writes c value i ok =
      let (v', run, w) =
        link_fat-writes v c value h.is (h.has c i) (entry-Storable value h.last ok) in
      (v', run, Wrote-Holds c value i ok w)

-- A FAT12 drive is a table: link_fat reads and writes its entries, and the routines that remember a
-- free cluster or write the FSInfo sector keep them. The drive has fewer than 0xff0 clusters, and each
-- sector of its FAT can be had.
pub Holds-IsTable : (n : ℕ) → n < 0xff0 → IsTable n (Holds n)
Holds-IsTable n few = record {
  last = λ h. h.last;
  small = omega (arith, few);
  reads = λ h. Holds-reads few h;
  writes = λ h. Holds-writes few h;
  hinted = λ {v} h c. alike-Holds h (set_hint-Alike v c);
  lowered = λ {v} h st. alike-Holds h (lower_hint-Alike v st);
  stored = λ {v} h. alike-Holds h (write_fsinfo-Alike (same_drive v));
  placed = λ {v} h c x. alike-Holds h (alike v c x);
  counted = λ {v} h m. alike-Holds h (record {
    byte = refl;
    readable = refl;
    free = m;
    hint = v.dpb.cluster;
    xhint = v.dpb.xcluster;
    dpb = refl;
  });
}
