-- ===== src/Truename/Tests.antt =====
-- Runs of the loop, and the theorems at concrete sources.
use fdpp.Base.{ℕ, ◌≡◌, refl, List, [], ◌∷◌, Option, none, some, false, replicate, length, arith}
use fdpp.Truename.{
  Answer, gives, fails, de_filenotfnd, de_pathnotfnd, append_path, append, segment, component,
  add_sep, add_char, skip_seps, question_marks, put_char, dot_entry, back_up,
}
use fdpp.Truename.Paths.{closed, top}
use fdpp.Truename.Appends.{Canonical, append_path-Canonical}
use fdpp.Truename.Items.{IsSource, Item, bare, with_ext, here, up, spell, path, resolve}
use fdpp.Truename.Walks.{AllNames}
use fdpp.Truename.Resolves.{spelled, append_path-resolve}

-- "C:", the last character first.
abbrev c_drive : List ℕ
c_drive = b':' ∷ b'C' ∷ []

-- A\.\B
abbrev dir_file : List ℕ
dir_file = b'A' ∷ 0x5c ∷ b'.' ∷ 0x2f ∷ b'B' ∷ []

dir_file_run :
    append_path false 2 0x5c false dir_file c_drive
    ≡ some (gives (b'B' ∷ 0x5c ∷ b'A' ∷ 0x5c ∷ c_drive))
unfolding append_path append segment component add_sep add_char skip_seps question_marks put_char
    dot_entry back_up
dir_file_run = refl

-- A long name and a long extension: ABCDEFGHI.TEXT
long_run :
    append_path false 2 0x5c false
      (b'A' ∷ b'B' ∷ b'C' ∷ b'D' ∷ b'E' ∷ b'F' ∷ b'G' ∷ b'H' ∷ b'I' ∷ b'.' ∷ b'T' ∷ b'E' ∷ b'X'
        ∷ b'T' ∷ [])
      c_drive
    ≡ some (
        gives (
          b'X' ∷ b'E' ∷ b'T' ∷ b'.' ∷ b'H' ∷ b'G' ∷ b'F' ∷ b'E' ∷ b'D' ∷ b'C' ∷ b'B' ∷ b'A' ∷ 0x5c
          ∷ c_drive))
unfolding append_path append segment component add_sep add_char skip_seps question_marks put_char
    dot_entry back_up
long_run = refl

-- Above the root, and with two dots in a name.
above_run : append_path false 2 0x5c false (b'.' ∷ b'.' ∷ []) c_drive ≡ some (fails de_pathnotfnd)
unfolding append_path append segment component add_sep add_char skip_seps question_marks put_char
    dot_entry back_up
above_run = refl

twice_run :
    append_path false 2 0x5c false (b'A' ∷ b'.' ∷ b'B' ∷ b'.' ∷ b'C' ∷ []) c_drive
    ≡ some (fails de_filenotfnd)
unfolding append_path append segment component add_sep add_char skip_seps question_marks put_char
    dot_entry back_up
twice_run = refl

append_path-Canonical_example : Canonical c_drive (append_path false 2 0x5c false dir_file c_drive)
append_path-Canonical_example =
    append_path-Canonical false c_drive false dir_file c_drive (λ e. absurd (omega arith))
      (omega arith) (closed (top refl)) (omega arith)

-- \A.B\..\C\., from C:\D
abbrev items : List (List ℕ × Item)
items =
    (0x5c ∷ [], with_ext (b'A' ∷ []) (b'B' ∷ []))
    ∷ (0x2f ∷ [], up)
    ∷ (0x5c ∷ 0x5c ∷ [], bare (b'C' ∷ []))
    ∷ (0x5c ∷ [], here)
    ∷ []

abbrev start : List Item
start = bare (b'D' ∷ []) ∷ []

items-IsSource : IsSource items
items-IsSource = ground arith

start-AllNames : AllNames start
start-AllNames = ground arith

append_path-resolve_example :
    append_path false 2 0x5c false (spell items) (path c_drive start)
    ≡ some (spelled c_drive (resolve items start))
append_path-resolve_example =
    append_path-resolve false c_drive false items start (λ e. absurd (omega arith)) start-AllNames
      items-IsSource (omega arith)

-- 42 names of two letters: with its terminator the path has 129 characters.
abbrev full : List (List ℕ × Item)
full = replicate 42 (0x5c ∷ [], bare (b'A' ∷ b'B' ∷ []))

abbrev length_of : Option (Answer (List ℕ)) → ℕ
length_of (some (gives o)) = length o
length_of (some (fails e)) = 0
length_of none = 0

full_run : length_of (append_path false 2 0x5c false (spell full) c_drive) ≡ 128
unfolding append_path append segment component add_sep add_char skip_seps question_marks put_char
    dot_entry back_up
full_run = refl
