-- ===== src/Share/Tests.antt =====
-- The sharing tables at two opens of one file, and the theorems at them.
use fdpp.Base.{
  ℕ, ◌≡◌, ◌≢◌, refl, true, false, none, some, List, [], ◌∷◌, arith, ◌==◌, if◌then◌else◌,
}
use fdpp.Share.{
  File, Lock, Share, granted, de_lock, de_access, fn_matches, conflicts, any_conflicts,
  do_access_check, share_access_check, release, claim_lock, share_lock_unlock, share_close_file,
  free_file_table_entry, is_unused,
}
use fdpp.Share.Locks.{Exclusive, empty, more, none_left, also}
use fdpp.Share.Locking.{share_lock_unlock-Exclusive, lock-denies}
use fdpp.Share.Closing.{NoneOf, share_close_file_lem}
use fdpp.Share.Unlocking.{lock-unlock}
use fdpp.Share.Opening.{Other, do_open_check-excludes}
use fdpp.Share.Open.{
  admit, share_open_file, do_open_check, other_open, free_entry, action_of, is_exception,
  open_action,
}

abbrev name : List ℕ
name = 0x43 ∷ 0x3a ∷ 0x5c ∷ 0x58 ∷ []

abbrev file : List ℕ → ℕ → ℕ → File
file n share mode = record {
  filename = n;
  psp = 0x100;
  openmode = mode;
  sharemode = share;
  first_openmode = mode;
  first_sharemode = share;
}

abbrev unused : Lock
unused = record { used = false; start = 0; end = 0; fileno = 0 }

-- Entries 0 and 1 are opens of one file with SHARE_DENY_NONE; entry 0 has a lock on 0 to 99.
abbrev share : Share
share = record {
  files = λ i. if i == 0 then file name 4 2 else if i == 1 then file name 4 2 else file [] 0 0;
  locks = record { used = true; start = 0; end = 100; fileno = 0 } ∷ unused ∷ [];
}

share-Exclusive : Exclusive share.files share.locks
share-Exclusive = more (also (λ u v e. absurd (cc)) none_left) (more none_left empty)

lock_runs :
    ((share_lock_unlock share 1 50 10 false).1 ≡ de_lock)
    × ((share_lock_unlock share 1 100 10 false).1 ≡ granted)
    × (share_access_check share 1 99 1 ≡ de_access)
    × (share_access_check share 0 99 1 ≡ granted)
    × ((share_lock_unlock share 0 0 100 true).1 ≡ granted)
    × ((share_lock_unlock share 1 0 100 true).1 ≡ de_lock)
unfolding share_lock_unlock share_access_check do_access_check any_conflicts conflicts fn_matches
    release claim_lock
lock_runs = (refl, refl, refl, refl, refl, refl)

open_runs :
    ((share_open_file share name 0x200 2 4 false true).1 ≡ some 2)
    × ((share_open_file share name 0x200 2 1 false true).1 ≡ none)
unfolding share_open_file do_open_check admit other_open free_entry action_of is_exception
    open_action fn_matches free_file_table_entry
open_runs = (refl, refl)

share_lock_unlock-Exclusive_example :
    let s' = (share_lock_unlock share 1 100 10 false).0 in
    (s'.files ≡ share.files) × Exclusive s'.files s'.locks
share_lock_unlock-Exclusive_example =
    share_lock_unlock-Exclusive share 1 100 10 false (omega arith) (omega arith) share-Exclusive

same_names : fn_matches name name ≡ true
unfolding fn_matches
same_names = refl

lock_granted : (share_lock_unlock share 1 100 10 false).1 ≡ granted
lock_granted = lock_runs.1

lock-denies_example :
    share_access_check (share_lock_unlock share 1 100 10 false).0 0 105 20 ≡ de_access
lock-denies_example =
    lock-denies share 1 0 100 10 105 20 (omega arith) (omega arith) lock_granted (omega arith)
      same_names (omega arith) (omega arith) (omega arith) (omega arith)

share_close_file_lem_example :
    let s' = share_close_file share 0 in
    (is_unused (s'.files 0) ≡ true)
    × ((i : ℕ) → i ≢ 0 → s'.files i ≡ share.files i)
    × NoneOf 0 s'.locks
    × Exclusive s'.files s'.locks
share_close_file_lem_example = share_close_file_lem share 0 share-Exclusive

-- Entry 0 has the file open with SHARE_DENY_ALL, and entry 1 is to be another open of it.
abbrev taken : ℕ → File
taken i = if i == 0 then file name 1 2 else if i == 1 then file name 4 0 else file [] 0 0

taken-Other : Other taken 1 0
unfolding fn_matches
taken-Other = record { differs = omega arith; used = refl; same = refl }

taken_first : (i : ℕ) → Other taken 1 i → (taken i).first_sharemode ≡ 1
unfolding fn_matches
taken_first i o = ground (arith, o.differs, o.used)

do_open_check-excludes_example : (do_open_check taken 1 true true).1 ≡ none
do_open_check-excludes_example =
    do_open_check-excludes taken 1 0 true true (omega arith) taken-Other taken_first

lock-unlock_example :
    let r = share_lock_unlock (share_lock_unlock share 1 100 10 false).0 1 100 10 true in
    (r.1 ≡ granted) × ((f o n : ℕ) → share_access_check r.0 f o n ≡ share_access_check share f o n)
lock-unlock_example = lock-unlock share 1 100 10 (omega arith) (omega arith) lock_granted
