-- ===== src/Share.antt =====
-- kernel/share.c: the table of open files, with the sharing rules at an open, and the locks on
-- regions of files.
-- The file table is a function from entry numbers, of which file_table_size are used; the lock table
-- is a list. A name is the characters before its NUL, of which there are fewer than 128, so that it
-- is stored whole. The critical error that share_criterr raises is left out.
pub mod Locks
pub mod Closing
pub mod Locking
pub mod Open
pub mod Opening
pub mod Unlocking
mod Tests
use fdpp.Base.{
  ℕ, zero, suc, ◌+◌, ◌-◌, ◌*◌, ◌%◌, Bool, true, false, ◌&&◌, ◌||◌, not, Option, none, some, List,
  [], ◌∷◌, ltb, ◌==◌, if◌then◌else◌,
}

-- file_t
pub record File : Type 0 where
  pub filename : List ℕ
  pub psp : ℕ
  pub openmode : ℕ
  pub sharemode : ℕ
  pub first_openmode : ℕ
  pub first_sharemode : ℕ

-- __lock_t
pub record Lock : Type 0 where
  pub used : Bool
  pub start : ℕ
  pub end : ℕ
  pub fileno : ℕ

pub record Share : Type 0 where
  pub files : ℕ → File
  pub locks : List Lock

abbrev pub file_table_size : ℕ
file_table_size = 256

-- The results of the calls that are no entry number.
pub data Status : Type 0 where
  granted de_lock de_access buffer_overflow : Status

-- fnmatches, that is strcmp
unfoldable pub fn_matches : List ℕ → List ℕ → Bool
fn_matches [] [] = true
fn_matches [] (y ∷ ys) = false
fn_matches (x ∷ xs) [] = false
fn_matches (x ∷ xs) (y ∷ ys) = x == y && fn_matches xs ys

abbrev pub is_unused : File → Bool
is_unused f = fn_matches f.filename []

-- remove_all_locks
unfoldable pub remove_all_locks : ℕ → List Lock → List Lock
remove_all_locks fileno [] = []
remove_all_locks fileno (l ∷ ls) =
    (if l.fileno == fileno then record l { used = false } else l) ∷ remove_all_locks fileno ls

-- free_file_table_entry
unfoldable pub free_file_table_entry : (ℕ → File) → ℕ → ℕ → File
free_file_table_entry files fileno i =
    if i == fileno then record (files i) { filename = [] } else files i

-- share_close_file
unfoldable pub share_close_file : Share → ℕ → Share
share_close_file s fileno = record {
  files = free_file_table_entry s.files fileno;
  locks = remove_all_locks fileno s.locks;
}

-- `endofs` and `len` behind the test for a wrap-around.
abbrev pub end_of : ℕ → ℕ → ℕ
end_of ofs len =
    let endofs = (ofs + len) % 0x1_0000_0000 in if ltb endofs ofs then 0xffff_ffff else endofs

abbrev pub len_of : ℕ → ℕ → ℕ
len_of ofs len =
    let endofs = (ofs + len) % 0x1_0000_0000 in if ltb endofs ofs then 0xffff_ffff - ofs else len

-- The condition in the loop of do_access_check, and the loop.
unfoldable pub conflicts : (ℕ → File) → ℕ → ℕ → ℕ → Bool → Lock → Bool
conflicts files fileno ofs endofs allow_same_fd l =
    l.used
    && (not allow_same_fd || not (fileno == l.fileno))
    && fn_matches (files fileno).filename (files l.fileno).filename
    && ltb ofs l.end
    && ltb l.start endofs

unfoldable pub any_conflicts : (ℕ → File) → ℕ → ℕ → ℕ → Bool → List Lock → Bool
any_conflicts files fileno ofs endofs allow_same_fd [] = false
any_conflicts files fileno ofs endofs allow_same_fd (l ∷ ls) =
    conflicts files fileno ofs endofs allow_same_fd l
    || any_conflicts files fileno ofs endofs allow_same_fd ls

-- do_access_check; true is -1.
unfoldable pub do_access_check : Share → ℕ → ℕ → ℕ → Bool → Bool
do_access_check s fileno ofs len allow_same_fd =
    if ltb (len_of ofs len) 1
    then false
    else any_conflicts s.files fileno ofs (end_of ofs len) allow_same_fd s.locks

-- share_access_check
unfoldable pub share_access_check : Share → ℕ → ℕ → ℕ → Status
share_access_check s fileno ofs len =
    if do_access_check s fileno ofs len true then de_access else granted

-- The loops of share_lock_unlock: whether an entry was found, and the lock table.
unfoldable pub release : ℕ → ℕ → ℕ → List Lock → Bool × List Lock
release fileno ofs endofs [] = (false, [])
release fileno ofs endofs (l ∷ ls) =
    let rest = release fileno ofs endofs ls in
    if l.used && l.fileno == fileno && l.start == ofs && l.end == endofs
    then (true, record l { used = false } ∷ ls)
    else (rest.0, l ∷ rest.1)

unfoldable pub claim_lock : Lock → List Lock → Bool × List Lock
claim_lock new [] = (false, [])
claim_lock new (l ∷ ls) =
    let rest = claim_lock new ls in if not l.used then (true, new ∷ ls) else (rest.0, l ∷ rest.1)

-- share_lock_unlock
unfoldable pub share_lock_unlock : Share → ℕ → ℕ → ℕ → Bool → Share × Status
share_lock_unlock s fileno ofs len unlock =
    let endofs = end_of ofs len in
    let n = len_of ofs len in
    let freed = release fileno ofs endofs s.locks in
    let new : Lock = record { used = true; start = ofs; end = ofs + n; fileno = fileno } in
    let taken = claim_lock new s.locks in
    if ltb n 1
    then (s, granted)
    else if unlock
    then (record s { locks = freed.1 }, if freed.0 then granted else de_lock)
    else if do_access_check s fileno ofs n false
    then (s, de_lock)
    else (record s { locks = taken.1 }, if taken.0 then granted else buffer_overflow)

-- share_is_file_open from entry `i` on, with `n` entries to go: the mode and the owner.
unfoldable pub share_is_file_open : (ℕ → File) → List ℕ → ℕ → ℕ → Option (ℕ × ℕ)
share_is_file_open files filename zero i = none
share_is_file_open files filename (suc n) i =
    let rest = share_is_file_open files filename n (i + 1) in
    if fn_matches filename (files i).filename
    then some ((files i).sharemode * 0x100 + (files i).openmode, (files i).psp)
    else rest
