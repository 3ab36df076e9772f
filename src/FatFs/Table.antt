-- ===== src/FatFs/Table.antt =====
-- What kernel/fatfs.c relies on in link_fat of kernel/fattab.c: the FAT is a table of entries, one to a
-- cluster. An interface; Fat12 shows that FAT12 drives have it.
use fdpp.Base.{ℕ, ◌≤◌, ◌<◌, ◌≡◌, ◌⊎◌, ◌==◌, if◌then◌else◌}
use fdpp.FatTab.{
  Drive, max_cluster, long_last_cluster, long_bad, read_cluster, write_fsinfo, link_fat,
}
use fdpp.FatTab.Fat12.{}
use fdpp.FatFs.{set_hint, lower_hint}

-- A table with one entry replaced.
abbrev pub replaced : (ℕ → ℕ) → ℕ → ℕ → ℕ → ℕ
replaced t c value x = if x == c then value else t x

-- The clusters of a drive whose last one is `n`, and what an entry of theirs may be set to.
pub record InDrive (n c : ℕ) : Type 0 where
  pub low : 1 < c
  pub high : c ≤ n

abbrev pub IsEntry : ℕ → ℕ → Type 0
IsEntry n value = (value ≡ 0) ⊎ (InDrive n value ⊎ (value ≡ long_last_cluster))

-- `Holds v t` says that the FAT of the drive is the table `t`. It can be read and written through
-- link_fat, and the remembered free cluster has no part in it.
pub record IsTable (n : ℕ) (Holds : Drive → (ℕ → ℕ) → Type 0) : Type 1 where
  pub last : {v : Drive} {t : ℕ → ℕ} → Holds v t → max_cluster v.dpb ≡ n
  pub small : n < long_bad
  pub reads :
      {v : Drive} {t : ℕ → ℕ}
      → Holds v t
      → (c : ℕ) → InDrive n c
      → link_fat v c read_cluster ≡ (t c, v)
  pub writes :
      {v : Drive} {t : ℕ → ℕ}
      → Holds v t
      → (c value : ℕ) → InDrive n c
      → IsEntry n value
      → (v' : Drive) × (link_fat v c value ≡ (0, v')) × Holds v' (replaced t c value)
  pub hinted : {v : Drive} {t : ℕ → ℕ} → Holds v t → (cluster : ℕ) → Holds (set_hint v cluster) t
  pub lowered : {v : Drive} {t : ℕ → ℕ} → Holds v t → (st : ℕ) → Holds (lower_hint v st) t
  pub stored : {v : Drive} {t : ℕ → ℕ} → Holds v t → Holds (write_fsinfo v) t
  pub placed :
      {v : Drive} {t : ℕ → ℕ}
      → Holds v t
      → (cluster xcluster : ℕ)
      → Holds (record v { dpb = record v.dpb { cluster = cluster; xcluster = xcluster } }) t
  pub counted :
      {v : Drive} {t : ℕ → ℕ}
      → Holds v t
      → (count : ℕ) → Holds (record v { dpb = record v.dpb { nfreeclst = count } }) t
