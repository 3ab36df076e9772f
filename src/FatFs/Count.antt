-- ===== src/FatFs/Count.antt =====
-- dos_free of kernel/fatfs.c counts the free clusters.
use fdpp.Base.{
  ℕ, zero, suc, ◌+◌, ◌-◌, ◌*◌, ◌/◌, ◌%◌, ◌≤◌, ◌<◌, ◌≡◌, ap, ◌∙◌, inl, inr, Bool, true, ◌&&◌, not,
  ◌==◌, if◌then◌else◌, arith, Bool-cases, by_test,
}
use fdpp.FatTab.{Drive, is_fat32, max_cluster, is_free_cluster, write_fsinfo}
use fdpp.FatFs.Table.{IsTable}
use fdpp.FatFs.Free.{is_free_cluster_lem}

-- dos_free: the count of free clusters, by the loop over them if it is not known.
unfoldable pub count_clusters : ℕ → Drive → ℕ → ℕ → ℕ × Drive
count_clusters zero v i cnt = (cnt, v)
count_clusters (suc n) v i cnt =
    let d = v.dpb in
    let v' =
      if not (cnt == 0)
      then v
      else if is_fat32 d
      then record v { dpb = record d { xcluster = i } }
      else record v { dpb = record d { cluster = i % 0x1_0000 } } in
    if is_free_cluster v i
    then count_clusters n v' (i + 1) (cnt + 1)
    else count_clusters n v (i + 1) cnt

unfoldable pub dos_free : Drive → ℕ × Drive
dos_free v =
    let d = v.dpb in
    let r = count_clusters (max_cluster d - 1) v 2 0 in
    let w = r.1 in
    if is_fat32 d && not (d.nfreeclst == 0xffff_ffff)
    then (d.nfreeclst, v)
    else if not (is_fat32 d) && not (d.nfreeclst % 0x1_0000 == 0xffff)
    then (d.nfreeclst % 0x1_0000, v)
    else if is_fat32 d
    then (r.0, write_fsinfo (record w { dpb = record w.dpb { nfreeclst = r.0 } }))
    else (
      r.0,
      record w {
        dpb = record w.dpb { nfreeclst = w.dpb.nfreeclst / 0x1_0000 * 0x1_0000 + r.0 % 0x1_0000 };
      },
    )

-- The number of free ones among the `m` clusters from `i` on.
pub free_among : (ℕ → ℕ) → ℕ → ℕ → ℕ
free_among t i zero = 0
free_among t i (suc m) = (if t i == 0 then 1 else 0) + free_among t (i + 1) m

-- No count is known.
abbrev pub unknown_count : Drive → Bool
unknown_count v =
    if is_fat32 v.dpb then v.dpb.nfreeclst == 0xffff_ffff else v.dpb.nfreeclst % 0x1_0000 == 0xffff

module _ {n : ℕ} {Holds : Drive → (ℕ → ℕ) → Type 0} (T : IsTable n Holds) where
  Counted : (ℕ → ℕ) → ℕ → ℕ × Drive → Type 0
  Counted t m r = (r.0 ≡ m) × Holds r.1 t

  -- The place of the first free cluster is remembered.
  remembered :
      {v : Drive} {t : ℕ → ℕ} (i cnt : ℕ)
      → Holds v t
      → Holds
          (if not (cnt == 0)
            then v
            else if is_fat32 v.dpb
            then record v { dpb = record v.dpb { xcluster = i } }
            else record v { dpb = record v.dpb { cluster = i % 0x1_0000 } })
          t
  remembered {v} {t} i cnt h =
      by_test (λ (w : Drive). Holds w t) (not (cnt == 0)) _ _ (λ y. h)
        (λ x.
          by_test (λ (w : Drive). Holds w t) (is_fat32 v.dpb) _ _ (λ y. T.placed h v.dpb.cluster i)
            (λ z. T.placed h (i % 0x1_0000) v.dpb.xcluster))

  count_clusters-Counted :
      (m : ℕ) {v : Drive} {t : ℕ → ℕ} (i cnt : ℕ)
      → Holds v t
      → 1 < i
      → i + m ≤ n + 1
      → Counted t (cnt + free_among t i m) (count_clusters m v i cnt)
  unfolding count_clusters free_among Counted
  count_clusters-Counted zero i cnt h low room = (omega arith, h)
  count_clusters-Counted (suc m) {v} {t} i cnt h low room =
      let here : is_free_cluster v i ≡ (t i == 0) =
        is_free_cluster_lem T h i (record { low = low; high = omega (arith, room) }) in
      rw here (elim (Bool-cases (t i == 0)) [
        | inl y ↦
            let (a, b) =
              count_clusters-Counted m (i + 1) (cnt + 1) (remembered i cnt h) (omega (arith, low))
                (omega (arith, room)) in
            rw y (a ∙ omega arith, b)
        | inr x ↦
            let (a, b) =
              count_clusters-Counted m (i + 1) cnt h (omega (arith, low)) (omega (arith, room)) in
            rw x (a ∙ omega arith, b)
      ])

  -- If no count of free clusters is known, dos_free returns the number of free clusters of the drive,
  -- and the FAT is as before.
  pub dos_free-counts :
      {v : Drive} {t : ℕ → ℕ}
      → Holds v t
      → 0 < n
      → unknown_count v ≡ true
      → ((dos_free v).0 ≡ free_among t 2 (n - 1)) × Holds (dos_free v).1 t
  unfolding dos_free Counted
  dos_free-counts {v} {t} h some_one unknown =
      let d = v.dpb in
      let last_one = T.last h in
      let (a, b) =
        count_clusters-Counted (max_cluster d - 1) 2 0 h (omega arith)
          (omega (arith, last_one, some_one)) in
      let a' : (count_clusters (max_cluster d - 1) v 2 0).0 ≡ free_among t 2 (n - 1) =
        a ∙ ap (λ (k : ℕ). 0 + free_among t 2 (k - 1)) last_one ∙ omega arith in
      let Done : ℕ × Drive → Type 0 = Counted t (free_among t 2 (n - 1)) in
      by_test Done (is_fat32 d && not (d.nfreeclst == 0xffff_ffff)) _ _
        (λ y. absurd (ground (arith, y, unknown)))
        (λ _.
          by_test Done (not (is_fat32 d) && not (d.nfreeclst % 0x1_0000 == 0xffff)) _ _
            (λ y. absurd (ground (arith, y, unknown)))
            (λ _.
              by_test Done (is_fat32 d) _ _ (λ y. (a', T.stored (T.counted b _)))
                (λ x. (a', T.counted b _))))
