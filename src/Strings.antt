-- ===== src/Strings.antt =====
-- kernel/strings.c: the comparisons of strings.
-- A string is the list of its characters before the terminating 0, and a character a number below 128, as
-- the sign of a BYTE above is up to the compiler.
pub mod Compares
mod Tests
use fdpp.Base.{
  ℕ, zero, suc, ◌+◌, ◌-◌, ◌%◌, Bool, true, false, List, [], ◌∷◌, ltb, leb, ◌==◌, if◌then◌else◌,
}

-- The difference of two characters.
pub data ℤ : Type 0 where
  pos negsuc : ℕ → ℤ

unfoldable pub minus : ℕ → ℕ → ℤ
minus d s = if leb s d then pos (d - s) else negsuc (s - d - 1)

-- fstrlen
unfoldable pub fstrlen : List ℕ → ℕ
fstrlen [] = 0
fstrlen (c ∷ s) = fstrlen s + 1

-- fstrcmp and fstrcmp_n
unfoldable pub fstrcmp : List ℕ → List ℕ → ℤ
fstrcmp [] [] = minus 0 0
fstrcmp [] (s ∷ ss) = minus 0 s
fstrcmp (d ∷ ds) [] = minus d 0
fstrcmp (d ∷ ds) (s ∷ ss) = let rest = fstrcmp ds ss in if d == s then rest else minus d s

-- A COUNT as a number below 0x1_0000, and `<=` of two of them, which are signed.
unfoldable pub count_le : ℕ → ℕ → Bool
count_le x y = leb ((x + 0x8000) % 0x1_0000) ((y + 0x8000) % 0x1_0000)

-- fstrncmp; `index` counts from 1, and wraps around.
unfoldable pub fstrncmp_from : ℕ → List ℕ → List ℕ → ℕ → ℤ
fstrncmp_from index [] [] l = minus 0 0
fstrncmp_from index [] (s ∷ ss) l = minus 0 s
fstrncmp_from index (d ∷ ds) [] l = minus d 0
fstrncmp_from index (d ∷ ds) (s ∷ ss) l =
    let rest = fstrncmp_from ((index + 1) % 0x1_0000) ds ss l in
    if count_le index l then (if d == s then rest else minus d s) else minus d s

unfoldable pub fstrncmp : List ℕ → List ℕ → ℕ → ℤ
fstrncmp d s l = fstrncmp_from 1 d s l
