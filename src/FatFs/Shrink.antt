-- ===== src/FatFs/Shrink.antt =====
-- shrink_file of kernel/fatfs.c cuts the clusters behind the end of a file.
use fdpp.Base.{ℕ, ◌-◌, Bool, false, ◌&&◌, not, Option, none, some, leb, ◌==◌, if◌then◌else◌}
use fdpp.FatTab.{Drive, long_last_cluster, link_fat, next_cluster}
use fdpp.FatFs.{FNode, Status, success, de_access, setdstart, wipe_out_clusters, map_cluster}

-- shrink_file: the loop's rounds are `fuel`, and `flushed` is what flush_buffers returns.
unfoldable pub cut_chain : ℕ → Bool → Drive → FNode → ℕ → Option (Status × Drive × FNode)
cut_chain fuel flushed v f following =
    let empty = f.dir_size == 0 in
    let g = if empty then setdstart (record f { f_cluster = 0 }) 0 else f in
    let r = link_fat v f.f_cluster (if empty then 0 else long_last_cluster) in
    if not empty && following == long_last_cluster
    then some (success, v, f)
    else if not (r.0 == 0)
    then some (de_access, r.1, g)
    else elim (wipe_out_clusters fuel r.1 following) [
      | none ↦ none
      | some w ↦ some (if flushed then success else de_access, w, g)
    ]

unfoldable pub shrink_file : ℕ → Bool → Drive → FNode → Option (Status × Drive × FNode)
shrink_file fuel flushed v f =
    if f.f_offset == 0 && f.f_cluster == 0
    then some (success, v, f)
    else elim (map_cluster v (record f { f_offset = f.f_offset - 1 }) false) [
      | none ↦ none
      | some (success, w, g) ↦
          let following = next_cluster w g.f_cluster in
          if leb following 1
          then some (de_access, w, record g { f_offset = f.f_offset })
          else elim (cut_chain fuel flushed w g following) [
            | none ↦ none
            | some (st, x, h) ↦ some (st, x, record h { f_offset = f.f_offset })
          ]
      | some (_, w, g) ↦ some (de_access, w, record g { f_offset = f.f_offset })
    ]
