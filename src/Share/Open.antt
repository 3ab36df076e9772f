-- ===== src/Share/Open.antt =====
-- share_open_file of kernel/share.c: whether a file that is open may be opened again.
use fdpp.Base.{
  ℕ, zero, suc, ◌+◌, ◌%◌, Bool, false, ◌&&◌, ◌||◌, not, Option, none, some, List, [], ◌∷◌, ltb,
  ◌==◌, if◌then◌else◌,
}
use fdpp.Share.{File, Share, fn_matches, is_unused, file_table_size, free_file_table_entry}

-- open_actions: the action for the sharing mode of the first open and of this one.
unfoldable pub open_action : ℕ → ℕ → ℕ
open_action first current =
    if current == 0
    then (if first == 0 then 0 else 2)
    else if first == 4 && current == 4
    then 0
    else 1

-- A row of open_exceptions, each of which lets the open proceed.
pub record Exception : Type 0 where
  pub first_sharemode : ℕ
  pub first_openmode : ℕ
  pub current_sharemode : ℕ
  pub current_openmode : ℕ

abbrev row : ℕ → ℕ → ℕ → ℕ → Exception
row a b c d = record {
  first_sharemode = a;
  first_openmode = b;
  current_sharemode = c;
  current_openmode = d;
}

abbrev pub open_exceptions : List Exception
open_exceptions =
    row 0 0 2 0
    ∷ row 0 0 4 0
    ∷ row 2 0 0 0
    ∷ row 2 0 2 0
    ∷ row 2 0 4 0
    ∷ row 2 1 3 0
    ∷ row 2 1 4 0
    ∷ row 2 2 4 0
    ∷ row 3 0 2 1
    ∷ row 3 0 4 1
    ∷ row 3 1 4 1
    ∷ row 3 2 4 1
    ∷ row 3 1 3 1
    ∷ row 4 0 0 0
    ∷ row 4 0 2 0
    ∷ row 4 0 2 1
    ∷ row 4 0 2 2
    ∷ row 4 1 3 0
    ∷ row 4 1 3 1
    ∷ row 4 1 3 2
    ∷ []

unfoldable pub is_exception : List Exception → ℕ → ℕ → ℕ → ℕ → Bool
is_exception [] a b c d = false
is_exception (r ∷ rs) a b c d =
    (r.first_sharemode == a
      && r.current_sharemode == c
      && r.first_openmode == b
      && r.current_openmode == d)
    || is_exception rs a b c d

unfoldable pub action_of : ℕ → ℕ → ℕ → ℕ → ℕ
action_of a b c d = if is_exception open_exceptions a b c d then 0 else open_action a c

-- The first entry from `i` on, of `n`, that is another open of the same file.
unfoldable pub other_open : (ℕ → File) → ℕ → ℕ → ℕ → Option ℕ
other_open files fileno zero i = none
other_open files fileno (suc n) i =
    let rest = other_open files fileno n (i + 1) in
    if i == fileno
      || is_unused (files i)
      || not (fn_matches (files i).filename (files fileno).filename)
    then rest
    else some i

-- do_open_check: the table and, where it is not DE_SHARING, the entry number. `device` is whether
-- lpDevice is set.
abbrev pub set_first : (ℕ → File) → ℕ → ℕ → ℕ → ℕ → File
set_first files fileno share mode i =
    if i == fileno
    then record (files i) { first_sharemode = share; first_openmode = mode }
    else files i

-- What the search for another open leads to.
unfoldable pub admit : (ℕ → File) → ℕ → Bool → Bool → Option ℕ → (ℕ → File) × Option ℕ
admit files fileno rdonly device none = (files, some fileno)
admit files fileno rdonly device (some i) =
    let f = files fileno in
    let a = (files i).first_sharemode in
    let b = (files i).first_openmode in
    let joined = set_first files fileno a b in
    let action = action_of a b f.sharemode f.openmode in
    if action == 0 || ((action == 3 || action == 4) && rdonly)
    then (joined, some fileno)
    else if action == 1 || action == 3 || device
    then (free_file_table_entry joined fileno, none)
    else (joined, none)

unfoldable pub do_open_check : (ℕ → File) → ℕ → Bool → Bool → (ℕ → File) × Option ℕ
do_open_check files fileno rdonly device =
    let alone = set_first files fileno (files fileno).sharemode (files fileno).openmode in
    admit alone fileno rdonly device (other_open alone fileno file_table_size 0)

-- The first entry from `i` on, of `n`, that is unused.
unfoldable pub free_entry : (ℕ → File) → ℕ → ℕ → Option ℕ
free_entry files zero i = none
free_entry files (suc n) i =
    let rest = free_entry files n (i + 1) in if is_unused (files i) then some i else rest

abbrev valid_share : ℕ → ℕ
valid_share m = if ltb 4 (m % 8) then 0 else m % 8

abbrev valid_open : ℕ → ℕ
valid_open m = if ltb 2 (m % 4) then 0 else m % 4

-- share_open_file; the result is none also where it is -1, for a full table.
unfoldable pub share_open_file : Share → List ℕ → ℕ → ℕ → ℕ → Bool → Bool → Share × Option ℕ
share_open_file s filename psp openmode sharemode rdonly device =
    elim (free_entry s.files file_table_size 0) [
      | none ↦ (s, none)
      | some fileno ↦
          let entry = record (s.files fileno) {
            filename = filename;
            psp = psp;
            openmode = valid_open openmode;
            sharemode = valid_share sharemode;
          } in
          let r =
            do_open_check (λ i. if i == fileno then entry else s.files i) fileno rdonly device in
          (record s { files = r.0 }, r.1)
    ]
