-- ===== src/FatFs/Free.antt =====
-- find_fat_free of kernel/fatfs.c: it finds a free cluster if there is one.
use fdpp.Base.{
  ℕ, zero, suc, ◌+◌, ◌-◌, ◌≤◌, ◌<◌, ◌≡◌, ◌≢◌, refl, sym, ap, ◌⊎◌, inl, inr, ltb, ◌==◌,
  if◌then◌else◌, arith, ==_iff, ==_false, ℕ_discrete, by_test, Option, some,
}
use mathlib.Core.Path.{subst}
use fdpp.FatTab.{Drive, long_last_cluster, is_free_cluster}
use fdpp.FatFs.{set_hint, search, hint, first_index, find_fat_free, remember, unkncluster}
use fdpp.FatFs.Table.{IsTable, InDrive}

-- What find_fat_free returns.
pub data Found (n : ℕ) (t : ℕ → ℕ) : ℕ → Type 0 where
  free_cluster : (c : ℕ) → InDrive n c → t c ≡ 0 → Found n t c
  disk_full : ((c : ℕ) → InDrive n c → t c ≢ 0) → Found n t long_last_cluster

-- The remembered cluster is unknown or one of the drive.
abbrev pub IsHint : ℕ → ℕ → Type 0
IsHint n c = (c ≡ unkncluster) ⊎ InDrive n c

module _ {n : ℕ} {Holds : Drive → (ℕ → ℕ) → Type 0} (T : IsTable n Holds) {v : Drive} {t : ℕ → ℕ}
    (h : Holds v t) where
  pub is_free_cluster_lem : (c : ℕ) → InDrive n c → is_free_cluster v c ≡ (t c == 0)
  unfolding is_free_cluster
  is_free_cluster_lem c i = rw (T.reads h c i) refl

  module _ (start : ℕ) (from : InDrive n start) where
    -- The clusters that are visited from `idx` on.
    abbrev Arc : ℕ → ℕ → Type 0
    Arc idx c = ((idx ≤ c) × ((start ≤ idx) ⊎ (c < start))) ⊎ ((start ≤ idx) × (c < start))

    data Outcome (idx : ℕ) : Option (ℕ × ℕ) → Type 0 where
      free_one : (c : ℕ) → InDrive n c → t c ≡ 0 → Outcome idx (some (c, c))
      full :
          ((c : ℕ) → InDrive n c → Arc idx c → t c ≢ 0)
          → Outcome idx (some (long_last_cluster, unkncluster))

    -- Rounds that are left.
    abbrev left : ℕ → ℕ
    left idx = if ltb idx start then start - idx else n + 1 - idx + (start - 2)

    abbrev following : ℕ → ℕ
    following idx = if ltb n (idx + 1) then 2 else idx + 1

    -- What is visited from a cluster on is the cluster, and what is visited from the following one on.
    Arc-following :
        (idx c : ℕ)
        → InDrive n idx
        → InDrive n c
        → Arc idx c
        → c ≢ idx
        → following idx ≢ start
        → Arc (following idx) c
    Arc-following idx c i j a ne go = ground (arith, from.high)

    -- Behind the last one nothing is left.
    Arc-last :
        (idx c : ℕ) → InDrive n idx → InDrive n c → Arc idx c → c ≢ idx → following idx ≢ start
    Arc-last idx c i j a ne = ground (arith, from.high)

    left-following :
        (idx : ℕ) → InDrive n idx → following idx ≢ start → left (following idx) < left idx
    left-following idx i go = ground (arith, from.high, from.low)

    InDrive-following : (idx : ℕ) → InDrive n idx → InDrive n (following idx)
    InDrive-following idx i = ground (arith, i.low, i.high)

    wider :
        {idx : ℕ} {o : Option (ℕ × ℕ)}
        → InDrive n idx
        → t idx ≢ 0
        → following idx ≢ start
        → Outcome (following idx) o
        → Outcome idx o
    wider i used go (free_one c j e) = free_one c j e
    wider {idx} i used go (full f) = full (λ c j a. elim (ℕ_discrete c idx) [
      | yes e ↦ rw e used
      | no ne ↦ f c j (Arc-following idx c i j a ne go)
    ])

    search-Outcome :
        (f idx : ℕ) → InDrive n idx → left idx ≤ f → Outcome idx (search f v n start idx)
    unfolding search
    search-Outcome zero idx i enough = absurd (ground (arith, from.low, from.high, i.low, i.high))
    search-Outcome (suc f) idx i enough =
        by_test (Outcome idx) (is_free_cluster v idx) _ _
          (λ y. free_one idx i (ground (arith, is_free_cluster_lem idx i, y)))
          (λ x.
            let used : t idx ≢ 0 = ground (arith, is_free_cluster_lem idx i, x) in
            by_test (Outcome idx) (following idx == start) _ _
              (λ y. full (λ c j a. elim (ℕ_discrete c idx) [
                | yes e ↦ rw e used
                | no ne ↦ absurd (Arc-last idx c i j a ne ((==_iff _ _).0 y))
              ]))
              (λ y.
                let go : following idx ≢ start = λ e. absurd (ground (arith, y, e)) in
                wider i used go (
                  search-Outcome f (following idx) (InDrive-following idx i)
                    (omega (arith, left-following idx i go)))))

  first-InDrive : 1 < n → IsHint n (hint v.dpb) → InDrive n (first_index v.dpb)
  first-InDrive some_one ok = elim (ℕ_discrete (hint v.dpb) unkncluster) [
    | yes e ↦
        rw ((==_iff (hint v.dpb) unkncluster).1 e)
          (record { low = omega arith; high = omega (arith, some_one) })
    | no ne ↦ rw (==_false _ _ ne) (elim ok [ inl e ↦ absurd (ne e) | inr i ↦ i ])
  ]

  whole-Arc : (start c : ℕ) (i : InDrive n start) → Arc start i start c
  whole-Arc start c i = ground arith

  settle :
      (start : ℕ) (i : InDrive n start) {o : Option (ℕ × ℕ)}
      → Outcome start i start o
      → (idx : ℕ) × (cluster : ℕ) × (o ≡ some (idx, cluster)) × Found n t idx
  settle start i (free_one c j e) = (c, c, refl, free_cluster c j e)
  settle start i (full f) =
      (long_last_cluster, unkncluster, refl, disk_full (λ c j. f c j (whole-Arc start c i)))

  left-start : (start : ℕ) (i : InDrive n start) → left start i start ≤ n
  left-start start i = ground (arith, i.low, i.high)

  -- find_fat_free of a drive whose remembered free cluster is unknown or one of the drive ends. It
  -- returns a free cluster of the drive, or, if none is free, LONG_LAST_CLUSTER; the FAT stays the same.
  pub find_fat_free-Found :
      1 < n
      → IsHint n (hint v.dpb)
      → (idx : ℕ) × (v' : Drive) × (find_fat_free v ≡ some (idx, v')) × Holds v' t × Found n t idx
  unfolding find_fat_free remember
  find_fat_free-Found some_one ok =
      let start = first_index v.dpb in
      let i = first-InDrive some_one ok in
      let (idx, cluster, run, found) =
        settle start i (search-Outcome start i n start i (left-start start i)) in
      (
        idx,
        set_hint v cluster,
        subst (λ (k : ℕ). remember v (search k v k start start) ≡ some (idx, set_hint v cluster))
            (sym (T.last h)) (ap (remember v) run),
        T.hinted h cluster,
        found,
      )
