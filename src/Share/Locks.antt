-- ===== src/Share/Locks.antt =====
-- share_lock_unlock of kernel/share.c: no two locks in force overlap in one file.
use fdpp.Base.{
  ℕ, ◌≤◌, ◌≡◌, refl, ◌∙◌, ◌⊎◌, inl, inr, Bool, true, false, ◌&&◌, not, List, [], ◌∷◌, ◌==◌,
  if◌then◌else◌, arith,
}
use fdpp.Share.{File, Lock, fn_matches, conflicts, any_conflicts, release, claim_lock}

either :
    (P : List Lock → Type 0) (b : Bool) (p q : Bool × List Lock)
    → P p.1
    → P q.1
    → P (if b then p else q).1
either P true p q h k = h
either P false p q h k = k

fn_matches_sym : (a b : List ℕ) → fn_matches a b ≡ fn_matches b a
unfolding fn_matches
fn_matches_sym [] [] = refl
fn_matches_sym [] (y ∷ ys) = refl
fn_matches_sym (x ∷ xs) [] = refl
fn_matches_sym (x ∷ xs) (y ∷ ys) = rw (fn_matches_sym xs ys) (ground arith)

module _ (files : ℕ → File) where
  -- Two locks that are not both in force on one file and overlapping.
  abbrev pub Apart : Lock → Lock → Type 0
  Apart l l' =
      l.used ≡ true
      → l'.used ≡ true
      → fn_matches (files l.fileno).filename (files l'.fileno).filename ≡ true
      → (l.end ≤ l'.start) ⊎ (l'.end ≤ l.start)

  pub data ApartAll (l : Lock) : List Lock → Type 0 where
    none_left : ApartAll l []
    also : {x : Lock} {xs : List Lock} → Apart l x → ApartAll l xs → ApartAll l (x ∷ xs)

  -- The locks are pairwise apart.
  pub data Exclusive : List Lock → Type 0 where
    empty : Exclusive []
    more : {x : Lock} {xs : List Lock} → ApartAll x xs → Exclusive xs → Exclusive (x ∷ xs)

  pub Apart-sym : (l l' : Lock) → Apart l l' → Apart l' l
  Apart-sym l l' h u v e =
      elim (h v u (fn_matches_sym (files l.fileno).filename (files l'.fileno).filename ∙ e)) [
        | inl a ↦ inr a
        | inr b ↦ inl b
      ]

  -- Claiming an unused entry.
  claim-ApartAll :
      {l : Lock} (new : Lock) {xs : List Lock}
      → Apart l new
      → ApartAll l xs
      → ApartAll l (claim_lock new xs).1
  unfolding claim_lock
  claim-ApartAll new h none_left = none_left
  claim-ApartAll {l} new h (also {x} {xs} a rest) =
      either (ApartAll l) (not x.used) _ _ (also h rest) (also a (claim-ApartAll new h rest))

  pub claim-Exclusive :
      {new : Lock} {xs : List Lock}
      → ApartAll new xs
      → Exclusive xs
      → Exclusive (claim_lock new xs).1
  unfolding claim_lock
  claim-Exclusive none_left empty = empty
  claim-Exclusive {new} (also {x} {xs} a rest) (more d e) =
      either Exclusive (not x.used) _ _ (more rest e)
        (more (claim-ApartAll new (Apart-sym new x a) d) (claim-Exclusive rest e))

  -- Releasing one.
  unused-ApartAll : {l : Lock} (xs : List Lock) → l.used ≡ false → ApartAll l xs
  unused-ApartAll [] h = none_left
  unused-ApartAll (x ∷ xs) h = also (λ u v e. absurd (cc)) (unused-ApartAll xs h)

  release-ApartAll :
      {l : Lock} (fileno ofs endofs : ℕ) {xs : List Lock}
      → ApartAll l xs
      → ApartAll l (release fileno ofs endofs xs).1
  unfolding release
  release-ApartAll fileno ofs endofs none_left = none_left
  release-ApartAll {l} fileno ofs endofs (also {x} {xs} a rest) =
      either (ApartAll l) (x.used && x.fileno == fileno && x.start == ofs && x.end == endofs) _ _
        (also (λ u v e. absurd (cc)) rest) (also a (release-ApartAll fileno ofs endofs rest))

  pub release-Exclusive :
      (fileno ofs endofs : ℕ) {xs : List Lock}
      → Exclusive xs
      → Exclusive (release fileno ofs endofs xs).1
  unfolding release
  release-Exclusive fileno ofs endofs empty = empty
  release-Exclusive fileno ofs endofs (more {x} {xs} d e) =
      either Exclusive (x.used && x.fileno == fileno && x.start == ofs && x.end == endofs) _ _
        (more (unused-ApartAll xs refl) e)
        (more (release-ApartAll fileno ofs endofs d) (release-Exclusive fileno ofs endofs e))

  -- What does not conflict with any lock is apart from all.
  pub free-ApartAll :
      (fileno ofs endofs : ℕ) (xs : List Lock)
      → any_conflicts files fileno ofs endofs false xs ≡ false
      → ApartAll (record { used = true; start = ofs; end = endofs; fileno = fileno }) xs
  unfolding any_conflicts conflicts
  free-ApartAll fileno ofs endofs [] h = none_left
  free-ApartAll fileno ofs endofs (x ∷ xs) h =
      let here : conflicts files fileno ofs endofs false x ≡ false = ground (arith, h) in
      let rest : any_conflicts files fileno ofs endofs false xs ≡ false = ground (arith, h) in
      also {x = x} (λ u v e. ground (arith, here, v, e)) (free-ApartAll fileno ofs endofs xs rest)
