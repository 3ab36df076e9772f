-- ===== src/Share/Opening.antt =====
-- do_open_check of kernel/share.c at a file that is open already.
use fdpp.Base.{
  by_test, ℕ, zero, suc, ◌+◌, ◌≤◌, ◌<◌, ◌≡◌, ◌≢◌, refl, ◌⊎◌, Bool, true, false, ◌&&◌, ◌||◌, not,
  ◌==◌, arith, ==_false, ℕ_discrete, Option, none, some,
}
use mathlib.Core.Path.{subst}
use fdpp.Share.{File, fn_matches, is_unused, file_table_size}
use fdpp.Share.Open.{
  other_open, do_open_check, admit, action_of, is_exception, open_action, set_first,
}

-- Entry `k` is another open of the file of entry `fileno`.
pub record Other (files : ℕ → File) (fileno k : ℕ) : Type 0 where
  pub differs : k ≢ fileno
  pub used : is_unused (files k) ≡ false
  pub same : fn_matches (files k).filename (files fileno).filename ≡ true

-- The search finds another open if there is one.
data Search (files : ℕ → File) (fileno n i : ℕ) : Option ℕ → Type 0 where
  found : (x : ℕ) → Other files fileno x → Search files fileno n i (some x)
  missing : ((k : ℕ) → i ≤ k → k < i + n → ¬ Other files fileno k) → Search files fileno n i none

skip :
    {files : ℕ → File} {fileno n i : ℕ} {o : Option ℕ}
    → ¬ Other files fileno i
    → Search files fileno n (i + 1) o
    → Search files fileno (suc n) i o
skip none_here (found x o) = found x o
skip {files} {fileno} {n} {i} none_here (missing m) = missing (λ k h j o. elim (ℕ_discrete k i) [
  | yes e ↦ none_here (subst (λ (x : ℕ). Other files fileno x) e o)
  | no ne ↦ m k (omega arith) (omega arith) o
])

other_open-Search :
    (files : ℕ → File) (fileno n i : ℕ) → Search files fileno n i (other_open files fileno n i)
unfolding other_open
other_open-Search files fileno zero i = missing (λ k h j o. absurd (omega (arith, h, j)))
other_open-Search files fileno (suc n) i =
    by_test (Search files fileno (suc n) i)
      (i == fileno
        || is_unused (files i)
        || not (fn_matches (files i).filename (files fileno).filename))
      _ _
      (λ y.
        skip (λ o. absurd (ground (arith, y, o.differs, o.used, o.same)))
          (other_open-Search files fileno n (i + 1)))
      (λ n. found i (record {
        differs = ground (arith, n);
        used = ground (arith, n);
        same = ground (arith, n);
      }))

settle :
    {files : ℕ → File} {fileno n i : ℕ} {o : Option ℕ}
    → Search files fileno n i o
    → (k : ℕ) → i ≤ k
    → k < i + n
    → Other files fileno k
    → (x : ℕ) × (o ≡ some x) × Other files fileno x
settle (found x other) k h j o = (x, refl, other)
settle (missing m) k h j o = absurd (m k h j o)

refused : (b c d : ℕ) → (action_of 1 b c d ≡ 1) ⊎ (action_of 1 b c d ≡ 2)
unfolding action_of is_exception open_action
refused b c d = ground arith

module _ (files : ℕ → File) (fileno share mode : ℕ) where
  abbrev alone : ℕ → File
  alone = set_first files fileno share mode

  same_name : (k : ℕ) → (alone k).filename ≡ (files k).filename
  same_name k =
      by_test (λ (f : File). f.filename ≡ (files k).filename) (k == fileno) _ _ (λ _. refl)
        (λ _. refl)

  to_alone : {k : ℕ} → Other files fileno k → Other alone fileno k
  to_alone {k} o = record {
    differs = o.differs;
    used = rw (same_name k) o.used;
    same = rw (same_name k, same_name fileno) o.same;
  }

  from_alone : {k : ℕ} → Other alone fileno k → Other files fileno k
  from_alone {k} o = record {
    differs = o.differs;
    used = rw (← same_name k) o.used;
    same = rw (← same_name k, ← same_name fileno) o.same;
  }

admit-refuses :
    (files : ℕ → File) (fileno x : ℕ) (rdonly device : Bool)
    → (files x).first_sharemode ≡ 1
    → (admit files fileno rdonly device (some x)).1 ≡ none
unfolding admit
admit-refuses files fileno x rdonly device one =
    let f = files fileno in
    let a = action_of (files x).first_sharemode (files x).first_openmode f.sharemode f.openmode in
    let act : (a ≡ 1) ⊎ (a ≡ 2) =
      rw one (refused (files x).first_openmode f.sharemode f.openmode) in
    by_test (λ (r : (ℕ → File) × Option ℕ). r.1 ≡ none) (a == 0 || ((a == 3 || a == 4) && rdonly)) _
      _ (λ y. absurd (ground (arith, act, y)))
      (λ _.
        by_test (λ (r : (ℕ → File) × Option ℕ). r.1 ≡ none) (a == 1 || a == 3 || device) _ _
          (λ _. refl) (λ _. refl))

-- If a file is open, and every other open of it has SHARE_DENY_ALL for the mode of the first open,
-- then do_open_check refuses another open of it, whatever the modes, the file's attribute and the
-- device.
pub do_open_check-excludes :
    (files : ℕ → File) (fileno j : ℕ) (rdonly device : Bool)
    → j < file_table_size
    → Other files fileno j
    → ((i : ℕ) → Other files fileno i → (files i).first_sharemode ≡ 1)
    → (do_open_check files fileno rdonly device).1 ≡ none
unfolding do_open_check
do_open_check-excludes files fileno j rdonly device h other first =
    let f = files fileno in
    let only = alone files fileno f.sharemode f.openmode in
    let (x, run, o) =
      settle (other_open-Search only fileno file_table_size 0) j (omega arith) (omega (arith, h))
        (to_alone files fileno f.sharemode f.openmode other) in
    let one = first x (from_alone files fileno f.sharemode f.openmode o) in
    let at_x : (only x).first_sharemode ≡ 1 = rw (==_false x fileno o.differs) one in
    rw (run) (admit-refuses only fileno x rdonly device at_x)
