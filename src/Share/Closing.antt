-- ===== src/Share/Closing.antt =====
-- share_close_file of kernel/share.c.
use fdpp.Base.{
  by_test, ℕ, ◌≡◌, ◌≢◌, refl, sym, ap, ◌∙◌, ◌⊎◌, inl, inr, true, false, List, [], ◌∷◌, ◌==◌,
  if◌then◌else◌, arith, ==_iff, ==_false,
}
use fdpp.Share.{
  File, Lock, Share, fn_matches, share_close_file, remove_all_locks, free_file_table_entry,
  is_unused,
}
use fdpp.Share.Locks.{Exclusive, empty, more, Apart, ApartAll, none_left, also}

-- No lock in force belongs to the entry.
pub data NoneOf (fileno : ℕ) : List Lock → Type 0 where
  empty_table : NoneOf fileno []
  other_or_unused :
      {x : Lock} {xs : List Lock}
      → ((x.used ≡ false) ⊎ (x.fileno ≢ fileno))
      → NoneOf fileno xs
      → NoneOf fileno (x ∷ xs)

remove-NoneOf : (fileno : ℕ) (xs : List Lock) → NoneOf fileno (remove_all_locks fileno xs)
unfolding remove_all_locks
remove-NoneOf fileno [] = empty_table
remove-NoneOf fileno (x ∷ xs) =
    other_or_unused
      (by_test (λ (l : Lock). (l.used ≡ false) ⊎ (l.fileno ≢ fileno)) (x.fileno == fileno) _ _
        (λ _. inl refl) (λ n. inr (λ q. absurd (ground (arith, q)))))
      (remove-NoneOf fileno xs)

module _ (files : ℕ → File) (fileno : ℕ) where
  abbrev closed : ℕ → File
  closed = free_file_table_entry files fileno

  abbrev without : Lock → Lock
  without x = if x.fileno == fileno then record x { used = false } else x

  without-Apart : (l x : Lock) → Apart files l x → Apart closed (without l) (without x)
  unfolding free_file_table_entry
  without-Apart l x =
      by_test (λ a. Apart files l x → Apart closed a (without x)) (l.fileno == fileno) _ _
        (λ _ h u v e. absurd (cc))
        (λ n.
          by_test (λ b. Apart files l x → Apart closed l b) (x.fileno == fileno) _ _
            (λ _ h u v e. absurd (cc))
            (λ k h u v e.
              let a : closed l.fileno ≡ files l.fileno = rw n refl in
              let b : closed x.fileno ≡ files x.fileno = rw k refl in
              h u v (
                ap (λ (f : File). fn_matches f.filename (files x.fileno).filename) (sym a)
                ∙ ap (λ (f : File). fn_matches (closed l.fileno).filename f.filename) (sym b)
                ∙ e)))

  remove-ApartAll :
      (l : Lock) {xs : List Lock}
      → ApartAll files l xs
      → ApartAll closed (without l) (remove_all_locks fileno xs)
  unfolding remove_all_locks
  remove-ApartAll l none_left = none_left
  remove-ApartAll l (also {x} h rest) = also (without-Apart l x h) (remove-ApartAll l rest)

  remove-Exclusive :
      {xs : List Lock} → Exclusive files xs → Exclusive closed (remove_all_locks fileno xs)
  unfolding remove_all_locks
  remove-Exclusive empty = empty
  remove-Exclusive (more {x} d e) = more (remove-ApartAll x d) (remove-Exclusive e)

-- share_close_file leaves the entry unused and no lock in force of it, changes no other entry of
-- the file table, and keeps the locks in force from overlapping in one file.
pub share_close_file_lem :
    (s : Share) (fileno : ℕ)
    → Exclusive s.files s.locks
    → let s' = share_close_file s fileno in
      (is_unused (s'.files fileno) ≡ true)
      × ((i : ℕ) → i ≢ fileno → s'.files i ≡ s.files i)
      × NoneOf fileno s'.locks
      × Exclusive s'.files s'.locks
unfolding share_close_file free_file_table_entry fn_matches
share_close_file_lem s fileno e = (
  rw ((==_iff fileno fileno).1 refl) refl,
  λ i ne. rw (==_false i fileno ne) refl,
  remove-NoneOf fileno s.locks,
  remove-Exclusive s.files fileno e,
)
