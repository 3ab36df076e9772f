-- ===== src/Share/Locking.antt =====
-- What share_lock_unlock of kernel/share.c does to the table, and to later accesses.
use fdpp.Base.{
  by_test, ℕ, ◌+◌, ◌%◌, ◌<◌, ◌≡◌, ◌≢◌, refl, sym, ◌∙◌, Bool, true, false, not, List, [], ◌∷◌, ltb,
  arith, ==_false,
}
use fdpp.Share.{
  File, Lock, Share, Status, granted, de_access, fn_matches, conflicts, any_conflicts,
  do_access_check, share_access_check, claim_lock, end_of, len_of, share_lock_unlock,
}
use fdpp.Share.Locks.{Exclusive, claim-Exclusive, release-Exclusive, free-ApartAll}

-- The region is cut off at the end of the 32-bit range.
pub end-len :
    (ofs len : ℕ)
    → ofs < 0x1_0000_0000
    → len < 0x1_0000_0000
    → end_of ofs (len_of ofs len) ≡ ofs + len_of ofs len
end-len ofs len h k = ground arith

-- do_access_check, where the region is not empty and does not wrap around.
pub do_access_check_lem :
    (s : Share) (fileno ofs n : ℕ) (same : Bool)
    → ofs + n < 0x1_0000_0000
    → 0 < n
    → do_access_check s fileno ofs n same ≡ any_conflicts s.files fileno ofs (ofs + n) same s.locks
unfolding do_access_check
do_access_check_lem s fileno ofs n same h pos =
    let m : (ofs + n) % 0x1_0000_0000 ≡ ofs + n = omega (arith, h) in
    let t : ltb (ofs + n) ofs ≡ false = ground arith in
    let z : ltb n 1 ≡ false = ground (arith, pos) in rw (m, t, z) refl

-- If no two locks in force overlap in one file, then none do behind share_lock_unlock, whether it
-- locks or unlocks and whatever it returns; it leaves the file table alone.
pub share_lock_unlock-Exclusive :
    (s : Share) (fileno ofs len : ℕ) (unlock : Bool)
    → ofs < 0x1_0000_0000
    → len < 0x1_0000_0000
    → Exclusive s.files s.locks
    → let s' = (share_lock_unlock s fileno ofs len unlock).0 in
      (s'.files ≡ s.files) × Exclusive s'.files s'.locks
unfolding share_lock_unlock
share_lock_unlock-Exclusive s fileno ofs len unlock h k e =
    let P : Share × Status → Type 0 = λ r. (r.0.files ≡ s.files) × Exclusive r.0.files r.0.locks in
    let n = len_of ofs len in
    by_test P (ltb n 1) _ _ (λ _. (refl, e))
      (λ z.
        by_test P unlock _ _ (λ _. (refl, release-Exclusive s.files fileno ofs (end_of ofs len) e))
          (λ _.
            by_test P (do_access_check s fileno ofs n false) _ _ (λ _. (refl, e))
              (λ d. (
                refl,
                claim-Exclusive s.files
                    (free-ApartAll s.files fileno ofs (ofs + len_of ofs len) s.locks (
                      sym (
                        do_access_check_lem s fileno ofs n false (ground arith) (ground (arith, z)))
                      ∙ d))
                    e,
              ))))

-- A lock that was claimed is met.
claim-conflicts :
    (files : ℕ → File) (f o e : ℕ) (same : Bool) (new : Lock) (xs : List Lock)
    → (claim_lock new xs).0 ≡ true
    → conflicts files f o e same new ≡ true
    → any_conflicts files f o e same (claim_lock new xs).1 ≡ true
unfolding claim_lock any_conflicts
claim-conflicts files f o e same new [] h c = absurd (cc)
claim-conflicts files f o e same new (x ∷ xs) h c =
    by_test (λ (r : Bool × List Lock). r.0 ≡ true → any_conflicts files f o e same r.1 ≡ true)
      (not x.used) _ _ (λ _ _. rw c refl)
      (λ _ k. let met = claim-conflicts files f o e same new xs k c in ground (arith, met)) h

-- If share_lock_unlock grants a lock on a region that is not empty and does not wrap around, then
-- share_access_check refuses every such access to any part of it by another open of the same file.
pub lock-denies :
    (s : Share) (fileno other ofs len o n : ℕ)
    → 0 < len
    → ofs + len < 0x1_0000_0000
    → (share_lock_unlock s fileno ofs len false).1 ≡ granted
    → other ≢ fileno
    → fn_matches (s.files other).filename (s.files fileno).filename ≡ true
    → 0 < n
    → o + n < 0x1_0000_0000
    → o < ofs + len
    → ofs < o + n
    → share_access_check (share_lock_unlock s fileno ofs len false).0 other o n ≡ de_access
unfolding share_lock_unlock share_access_check conflicts
lock-denies s fileno other ofs len o n pos high ok ne names some_of high' before behind =
    let P : Share × Status → Type 0 =
      λ r. r.1 ≡ granted → share_access_check r.0 other o n ≡ de_access in
    let same : len_of ofs len ≡ len = ground (arith, high) in
    let new : Lock = record {
      used = true;
      start = ofs;
      end = ofs + len_of ofs len;
      fileno = fileno;
    } in
    let differ = ==_false other fileno ne in
    let meets : conflicts s.files other o (o + n) true new ≡ true =
      rw (differ, names) (ground (arith, same, before, behind)) in
    by_test P (ltb (len_of ofs len) 1) _ _ (λ z. absurd (ground (arith, z, same, pos)))
      (λ _.
        by_test P (do_access_check s fileno ofs (len_of ofs len) false) _ _ (λ _ q. absurd (cc))
          (λ _ q.
            let taken : (claim_lock new s.locks).0 ≡ true = ground (arith, q) in
            let after : Share = record s { locks = (claim_lock new s.locks).1 } in
            rw
              (
                do_access_check_lem after other o n true high' some_of,
                claim-conflicts s.files other o (o + n) true new s.locks taken meets,
              )
              refl))
      ok
