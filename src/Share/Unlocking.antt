-- ===== src/Share/Unlocking.antt =====
-- share_lock_unlock of kernel/share.c: a lock and the unlock that undoes it.
use fdpp.Base.{
  by_test, ℕ, ◌+◌, ◌%◌, ◌<◌, ◌≡◌, refl, sym, ap, Bool, true, false, ◌&&◌, ◌||◌, not, List, [], ◌∷◌,
  ltb, ◌==◌, if◌then◌else◌, arith, ==_iff, ==_false, ℕ_discrete,
}
use fdpp.Share.{
  File, Lock, Share, Status, granted, de_lock, fn_matches, conflicts, any_conflicts,
  do_access_check, share_access_check, release, claim_lock, end_of, share_lock_unlock,
  buffer_overflow,
}
use mathlib.Core.Path.{subst}
use fdpp.Share.Locking.{do_access_check_lem}

fn_matches_refl : (a : List ℕ) → fn_matches a a ≡ true
unfolding fn_matches
fn_matches_refl [] = refl
fn_matches_refl (x ∷ xs) = rw ((==_iff x x).1 refl) (fn_matches_refl xs)

module _ (files : ℕ → File) (fileno ofs e : ℕ) (some_of : ofs < e) where
  abbrev new : Lock
  new = record { used = true; start = ofs; end = e; fileno = fileno }

  -- A lock that would be released conflicts.
  keeps :
      (x : Lock)
      → conflicts files fileno ofs e false x ≡ false
      → (x.used && x.fileno == fileno && x.start == ofs && x.end == e) ≡ false
  unfolding conflicts
  keeps x c = elim (ℕ_discrete x.fileno fileno) [
    | no ne ↦ rw (==_false x.fileno fileno ne) (ground arith)
    | yes q ↦
        let m : fn_matches (files fileno).filename (files x.fileno).filename ≡ true =
          rw q (fn_matches_refl (files fileno).filename) in
        ground (arith, c, m, some_of)
  ]

  -- Releasing what was claimed gives a table with the same conflicts.
  Undone : Lock → List Lock → Bool × List Lock → Type 0
  Undone x xs r =
      r.0 ≡ true
      → ((release fileno ofs e r.1).0 ≡ true)
        × ((f o p : ℕ) (same : Bool)
            → any_conflicts files f o p same (release fileno ofs e r.1).1
              ≡ any_conflicts files f o p same (x ∷ xs))

  release-claim :
      (xs : List Lock)
      → any_conflicts files fileno ofs e false xs ≡ false
      → (claim_lock new xs).0 ≡ true
      → ((release fileno ofs e (claim_lock new xs).1).0 ≡ true)
        × ((f o p : ℕ) (same : Bool)
            → any_conflicts files f o p same (release fileno ofs e (claim_lock new xs).1).1
              ≡ any_conflicts files f o p same xs)
  unfolding claim_lock release any_conflicts conflicts Undone
  release-claim [] c k = absurd (cc)
  release-claim (x ∷ xs) c k =
      let here : conflicts files fileno ofs e false x ≡ false = ground (arith, c) in
      let rest : any_conflicts files fileno ofs e false xs ≡ false = ground (arith, c) in
      by_test (Undone x xs) (not x.used) _ _
        (λ y _.
          let unused : x.used ≡ false = ground (arith, y) in
          rw ((==_iff fileno fileno).1 refl, (==_iff ofs ofs).1 refl, (==_iff e e).1 refl)
            (refl, λ f o p same. ground (arith, unused)))
        (λ _ k'.
          let ih = release-claim xs rest k' in
          rw (keeps x here) (
            ih.0,
            λ f o p same. ap (λ (b : Bool). conflicts files f o p same x || b) (ih.1 f o p same),
          ))
        k

module _ (fileno ofs len : ℕ) (pos : 0 < len) (high : ofs + len < 0x1_0000_0000) where
  whole : (ofs + len) % 0x1_0000_0000 ≡ ofs + len
  whole = omega (arith, high)

  onward : ltb (ofs + len) ofs ≡ false
  onward = ground arith

  some_len : ltb len 1 ≡ false
  some_len = ground (arith, pos)

  unlock_run :
      (s : Share)
      → share_lock_unlock s fileno ofs len true ≡ (
          let r = release fileno ofs (ofs + len) s.locks in
          (record s { locks = r.1 }, if r.0 then granted else de_lock))
  unfolding share_lock_unlock
  unlock_run s = rw (whole, onward, some_len) refl

  lock_run :
      (s : Share)
      → share_lock_unlock s fileno ofs len false ≡ (
          let r = claim_lock (new s.files fileno ofs (ofs + len) (omega (arith, pos))) s.locks in
          if any_conflicts s.files fileno ofs (ofs + len) false s.locks
          then (s, de_lock)
          else (record s { locks = r.1 }, if r.0 then granted else buffer_overflow))
  unfolding share_lock_unlock
  lock_run s =
      rw (whole, onward, some_len, do_access_check_lem s fileno ofs len false high pos) refl

  -- Unlocking a table with one more lock.
  undo :
      (s : Share)
      → any_conflicts s.files fileno ofs (ofs + len) false s.locks ≡ false
      → (claim_lock (new s.files fileno ofs (ofs + len) (omega (arith, pos))) s.locks).0 ≡ true
      → let s' : Share = record s {
        locks = (claim_lock (new s.files fileno ofs (ofs + len) (omega (arith, pos))) s.locks).1;
      } in
        let r = share_lock_unlock s' fileno ofs len true in
        (r.1 ≡ granted) × ((f o n : ℕ) → share_access_check r.0 f o n ≡ share_access_check s f o n)
  unfolding share_access_check do_access_check
  undo s c k =
      let d = release-claim s.files fileno ofs (ofs + len) (omega (arith, pos)) s.locks c k in
      rw (unlock_run _) (rw (d.0) refl, λ f o n. rw (d.1 f o (end_of o n) true) refl)

-- If share_lock_unlock grants a lock on a region that is not empty and does not wrap around, then it
-- grants to unlock the same region, and every access is allowed or refused then as it was before.
pub lock-unlock :
    (s : Share) (fileno ofs len : ℕ)
    → 0 < len
    → ofs + len < 0x1_0000_0000
    → (share_lock_unlock s fileno ofs len false).1 ≡ granted
    → let r = share_lock_unlock (share_lock_unlock s fileno ofs len false).0 fileno ofs len true in
      (r.1 ≡ granted) × ((f o n : ℕ) → share_access_check r.0 f o n ≡ share_access_check s f o n)
lock-unlock s fileno ofs len pos high ok =
    let P : Share × Status → Type 0 = λ q.
      q.1 ≡ granted
      → let r = share_lock_unlock q.0 fileno ofs len true in
        (r.1 ≡ granted)
        × ((f o n : ℕ) → share_access_check r.0 f o n ≡ share_access_check s f o n) in
    subst P (sym (lock_run fileno ofs len pos high s))
      (by_test P (any_conflicts s.files fileno ofs (ofs + len) false s.locks) _ _
        (λ _ q. absurd (cc)) (λ c q. undo fileno ofs len pos high s c (ground (arith, q))))
      ok
