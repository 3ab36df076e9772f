-- ===== src/FatDir.antt =====
-- kernel/fatdir.c: reading the entries of a directory, the search of findnext, and the conversions of
-- names, with fcmp_wild of kernel/fatfs.c. Text is a list of character codes without the zero at its end.
-- Parameters are what map_cluster and clus2phys find for an offset, and the entries in the blocks that getblock reads.
pub mod Names
pub mod Conversions
pub mod Finds
pub mod Attributes
pub mod Hits
pub mod Searches
pub mod Swaps
mod Tests
use Prim.Native.Nat.{bit_and}
use fdpp.Base.{
  ℕ, zero, suc, ◌+◌, ◌-◌, ◌*◌, ◌/◌, ◌%◌, Bool, true, false, ◌&&◌, ◌||◌, not, Option, none, some,
  List, [], ◌∷◌, ◌++◌, ltb, leb, ◌==◌, if◌then◌else◌, length, set, take, drop, replicate, get_or,
}

-- struct dirent, as far as the functions here look at it.
pub record Dirent : Type 0 where
  pub dir_name : List ℕ
  pub dir_attrib : ℕ
  pub dir_crtimems_or_fchar : ℕ

-- swap_deleted_rd: the entry, and DFLG_DELETED.
unfoldable pub swap_deleted_rd : Dirent → Dirent × Bool
swap_deleted_rd e =
    let first = get_or e.dir_name 0 0 in
    let c = e.dir_crtimems_or_fchar in
    let back = if first == 0xe5 && not (c == 0xe5 || c == 0) then c else first in
    let shown = if back == 0x05 then 0xe5 else back in
    (record e { dir_name = set e.dir_name 0 shown }, first == 0xe5)

-- swap_deleted_wr of an entry, with DELETE_PEND; `none` stands for FALSE.
unfoldable pub swap_deleted_wr : Dirent → Bool → Option Dirent
swap_deleted_wr e pend =
    let first = get_or e.dir_name 0 0 in
    let c = if first == 0xe5 then 0x05 else first in
    if first == 0x05
    then none
    else if pend
    then some (record e { dir_name = set e.dir_name 0 0xe5; dir_crtimems_or_fchar = c })
    else some (record e { dir_name = set e.dir_name 0 c })

-- A directory: that of the root, if dm_dircluster is 0, or one in clusters.
pub record Directory : Type 0 where
  pub dm_dircluster : ℕ
  pub dpb_dirents : ℕ
  pub dpb_dirstrt : ℕ
  pub dpb_secsize : ℕ
  pub dpb_clsmask : ℕ
  pub first_sector : ℕ → Option ℕ
  pub getblock : ℕ → Option (ℕ → Dirent)

-- dir_read: 1 with the entry, 0, or an error.
pub data Read : Type 0 where
  filled : Dirent → Bool → Read
  empty : Read
  de_seek : Read
  de_blkinvld : Read

abbrev pub dirent_size : ℕ
dirent_size = 32

-- The sector of an entry.
unfoldable pub dir_sector : Directory → ℕ → Option ℕ
dir_sector d entry =
    if d.dm_dircluster == 0
    then (if leb d.dpb_dirents entry
        then none
        else some (entry / (d.dpb_secsize / dirent_size) + d.dpb_dirstrt))
    else elim (d.first_sector (entry * dirent_size)) [
      | none ↦ none
      | some s ↦ some (s + bit_and (entry * dirent_size / d.dpb_secsize % 0x100) d.dpb_clsmask)
    ]

unfoldable pub dir_read : Directory → ℕ → Read
unfolding dir_sector swap_deleted_rd
dir_read d entry = if leb 65535 entry then de_seek else elim (dir_sector d entry) [
  | none ↦ de_seek
  | some s ↦ elim (d.getblock s) [
    | none ↦ de_blkinvld
    | some b ↦
        let e = swap_deleted_rd (b (entry % (d.dpb_secsize / dirent_size))) in
        if get_or e.0.dir_name 0 0 == 0 then empty else filled e.0 e.1
  ]
]

-- fcmp_wild of two fields of the length.
unfoldable pub fcmp_wild : List ℕ → List ℕ → ℕ → Bool
fcmp_wild s₁ s₂ zero = true
fcmp_wild [] s₂ (suc n) = true
fcmp_wild (a ∷ s₁) [] (suc n) = true
fcmp_wild (a ∷ s₁) (b ∷ s₂) (suc n) =
    if not (a == 0x3f) && not (a == b) then false else fcmp_wild s₁ s₂ n

-- struct dmatch
pub record Dmatch : Type 0 where
  pub dm_name_pat : List ℕ
  pub dm_attr_srch : ℕ
  pub dm_entry : ℕ

-- Whether a bit is in the attributes of an entry and not in those that are searched for.
abbrev pub outside : ℕ → ℕ → ℕ → Bool
outside srch attrib bit = attrib / bit % 2 == 1 && srch / bit % 2 == 0

-- The tests of dos_findnext. D_LFN is 0x0f. Without D_RDONLY | D_ARCHIVE | D_DEVICE, which are 0x61, the
-- attributes searched for are the bits 1 to 4 and 7; D_VOLID is 0x08, and
-- D_DIR | D_SYSTEM | D_HIDDEN | D_VOLID are the bits 1 to 4.
unfoldable pub accepts : Dmatch → Dirent → Bool → Bool
unfolding fcmp_wild
accepts m e deleted =
    let srch = m.dm_attr_srch / 0x02 % 0x10 * 0x02 + m.dm_attr_srch / 0x80 % 2 * 0x80 in
    let attrib = e.dir_attrib in
    not deleted
    && (not (attrib % 0x10 == 0x0f)
        && (fcmp_wild m.dm_name_pat e.dir_name 11
            && (if srch == 0x08
                then not (attrib / 0x08 % 2 == 0)
                else not (
                    outside srch attrib 0x02
                    || (outside srch attrib 0x04
                        || (outside srch attrib 0x08 || outside srch attrib 0x10))))))

-- The loop of dos_findnext: the entry that is found, if one is, and dm_entry. It takes fuel.
unfoldable pub find_entry : ℕ → Directory → Dmatch → Option (Option Dirent × Dmatch)
unfolding dir_read accepts
find_entry zero d m = none
find_entry (suc f) d m = elim (dir_read d m.dm_entry) [
  | filled e deleted ↦
      let m' = record m { dm_entry = (m.dm_entry + 1) % 0x1_0000 } in
      let rest = find_entry f d m' in if accepts m e deleted then some (some e, m') else rest
  | _ ↦ some (none, m)
]

-- More than there are entries.
abbrev pub rounds : ℕ
rounds = 0x1_0000

-- dos_findnext; `none` stands for DE_NFILES.
unfoldable pub dos_findnext : Bool → Directory → Dmatch → Option (Option Dirent × Dmatch)
unfolding find_entry
dos_findnext media_ok d m = if not media_ok then some (none, m) else find_entry rounds d m

-- A text up to its last character that is no blank.
abbrev pub trim : List ℕ → List ℕ
trim [] = []
trim (c ∷ s) = elim (trim s) [ [] ↦ if c == 0x20 then [] else c ∷ [] | d ∷ r ↦ c ∷ d ∷ r ]

abbrev pub dotted : List ℕ → List ℕ
dotted [] = []
dotted (c ∷ e) = 0x2e ∷ c ∷ e

-- ConvertName83ToNameSZ
unfoldable pub convert_name83_to_name_sz : List ℕ → List ℕ
convert_name83_to_name_sz src =
    let name = trim (take 8 src) in
    if get_or src 0 0 == 0x2e then name else name ++ dotted (trim (take 3 (drop 8 src)))

-- The loop of ConvertNameSZToName83 from position `i` on.
unfoldable pub convert_from : ℕ → List ℕ → List ℕ → List ℕ × List ℕ
convert_from i field [] = (field, [])
convert_from i field (c ∷ s) = elim (leb 11 i) [
  | true ↦ (field, c ∷ s)
  | false ↦ elim (c == 0x2e) [
    | true ↦ convert_from 8 field s
    | false ↦ elim (c == 0x5c) [
      | true ↦ (field, c ∷ s)
      | false ↦ convert_from (i + 1) (set field i c) s
    ]
  ]
]

-- ConvertNameSZToName83: the field, and the text that is left.
unfoldable pub convert_name_sz_to_name83 : List ℕ → List ℕ × List ℕ
unfolding convert_from
convert_name_sz_to_name83 s = convert_from 0 (replicate 11 0x20) s
