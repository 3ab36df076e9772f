-- ===== src/Strings/Tests.antt =====
-- The comparisons at small strings.
use fdpp.Base.{ℕ, arith, ◌≡◌, refl, List, [], ◌∷◌, take}
use fdpp.Strings.{pos, negsuc, minus, fstrlen, fstrcmp, fstrncmp_from, fstrncmp, count_le}
use fdpp.Strings.Compares.{fstrncmp-fstrcmp}

-- "FAT16" and the file system type of a boot sector, "FAT16   ".
abbrev fat16 : List ℕ
fat16 = 0x46 ∷ 0x41 ∷ 0x54 ∷ 0x31 ∷ 0x36 ∷ []

abbrev label : List ℕ
label = 0x46 ∷ 0x41 ∷ 0x54 ∷ 0x31 ∷ 0x36 ∷ 0x20 ∷ 0x20 ∷ 0x20 ∷ []

runs :
    (fstrncmp label fat16 5 ≡ pos 0x20)
    × (fstrncmp label fat16 4 ≡ pos 0)
    × (fstrcmp fat16 label ≡ negsuc 0x1f)
    × (fstrlen label ≡ 8)
unfolding fstrncmp fstrncmp_from fstrcmp minus fstrlen count_le
runs = (refl, refl, refl, refl)

abbrev a_name : List ℕ
a_name = 0x41 ∷ []

abbrev b_name : List ℕ
b_name = 0x42 ∷ []

fstrncmp-fstrcmp_example : fstrncmp label fat16 5 ≡ fstrcmp (take 6 label) (take 6 fat16)
fstrncmp-fstrcmp_example = fstrncmp-fstrcmp label fat16 5 (omega arith)
