-- ===== src/FatDir/Tests.antt =====
-- Runs, and the theorems at a concrete directory and name.
use fdpp.Base.{
  ℕ, zero, suc, ◌+◌, ◌≡◌, ◌⊎◌, refl, true, [], ◌∷◌, ◌++◌, Option, none, some, replicate, arith,
}
use fdpp.FatDir.{
  Dirent, Directory, dir_read, Dmatch, accepts, find_entry, dos_findnext, convert_name83_to_name_sz,
  convert_name_sz_to_name83, dir_sector, swap_deleted_rd, fcmp_wild,
}
use fdpp.FatDir.Searches.{Next, NoMore, dos_findnext-Next}
use fdpp.FatDir.Names.{padded}
use fdpp.FatDir.Conversions.{convert_name_sz_to_name83-convert_name83_to_name_sz}

abbrev no_name : Dirent
no_name = record { dir_name = replicate 11 0; dir_attrib = 0; dir_crtimems_or_fchar = 0 }

-- A volume label, a deleted file, and A.TXT, in the root directory.
abbrev label : Dirent
label = record { dir_name = b'D' ∷ replicate 10 0x20; dir_attrib = 0x08; dir_crtimems_or_fchar = 0 }

abbrev gone : Dirent
gone = record { dir_name = 0xe5 ∷ replicate 10 0x20; dir_attrib = 0; dir_crtimems_or_fchar = b'B' }

abbrev a_txt : Dirent
a_txt = record {
  dir_name = padded 8 (b'A' ∷ []) ++ b'T' ∷ b'X' ∷ b'T' ∷ [];
  dir_attrib = 0x20;
  dir_crtimems_or_fchar = 0;
}

abbrev entries : ℕ → Dirent
entries zero = label
entries (suc zero) = gone
entries (suc (suc zero)) = a_txt
entries _ = no_name

abbrev root : Directory
root = record {
  dm_dircluster = 0;
  dpb_dirents = 16;
  dpb_dirstrt = 3;
  dpb_secsize = 512;
  dpb_clsmask = 0;
  first_sector = λ _. none;
  getblock = λ _. some entries;
}

abbrev any : Dmatch
any = record { dm_name_pat = replicate 11 0x3f; dm_attr_srch = 0; dm_entry = 0 }

abbrev entry_of : Option (Option Dirent × Dmatch) → ℕ
entry_of (some (some e, m)) = m.dm_entry
entry_of (some (none, m)) = 1000 + m.dm_entry
entry_of none = 2000

find_run : entry_of (dos_findnext true root any) ≡ 3
unfolding dos_findnext find_entry dir_read dir_sector swap_deleted_rd accepts fcmp_wild
find_run = refl

find_again_run : entry_of (dos_findnext true root (record any { dm_entry = 3 })) ≡ 1003
unfolding dos_findnext find_entry dir_read dir_sector swap_deleted_rd accepts fcmp_wild
find_again_run = refl

name_run : convert_name83_to_name_sz a_txt.dir_name ≡ b'A' ∷ b'.' ∷ b'T' ∷ b'X' ∷ b'T' ∷ []
unfolding convert_name83_to_name_sz
name_run = refl

dos_findnext-Next_example :
    Next (dos_findnext true root any) root any any.dm_entry
    ⊎ NoMore (dos_findnext true root any) root any any.dm_entry
dos_findnext-Next_example = dos_findnext-Next root any (omega arith)

convert_name_sz_to_name83-convert_name83_to_name_sz_example :
    convert_name_sz_to_name83 (
      convert_name83_to_name_sz (padded 8 (b'A' ∷ b'B' ∷ []) ++ padded 3 (b'C' ∷ []))
      ++ 0x5c ∷ b'D' ∷ [])
    ≡ (padded 8 (b'A' ∷ b'B' ∷ []) ++ padded 3 (b'C' ∷ []), 0x5c ∷ b'D' ∷ [])
convert_name_sz_to_name83-convert_name83_to_name_sz_example =
    convert_name_sz_to_name83-convert_name83_to_name_sz (b'A' ∷ b'B' ∷ []) (b'C' ∷ [])
      (0x5c ∷ b'D' ∷ [])
      (
        (
          λ e. absurd (omega arith),
          λ e. absurd (omega arith),
          (λ e. absurd (omega arith), λ e. absurd (omega arith), tt),
        ),
        refl,
        omega arith,
      )
      (omega arith) ((λ e. absurd (omega arith), λ e. absurd (omega arith), tt), refl, omega arith)
      refl
