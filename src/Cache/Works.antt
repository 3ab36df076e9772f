-- ===== src/Cache/Works.antt =====
-- getblk of kernel/blockio.c, where all transfers succeed.
use fdpp.Base.{
  ℕ, zero, suc, ◌+◌, ◌≡◌, refl, Bool, true, false, ◌&&◌, not, List, ◌∷◌, Option, none, some, ltb,
  arith, by_test,
}
use fdpp.Cache.{
  Buffer, Driver, holds, copies, offset, take_first, victim, searchblock, flush1, fill, getblk,
}
use fdpp.Cache.{
  Buffer, Driver, holds, copies, offset, take_first, take_last, victim, first_is_fat, fat_count,
  searchblock, write_copies, flush1, fill, getblk,
}
use fdpp.Cache.Lists.{present}

module _ {Data : Type 0} where
  -- Of a list that is not empty, a buffer is replaced.
  last_one :
      (x : Buffer Data) (l : List (Buffer Data)) (o : Option (Buffer Data × List (Buffer Data)))
      → present (elim o [ some (y, r) ↦ some (y, x ∷ r) | none ↦ some (x, l) ]) ≡ true
  last_one x l (some (y, r)) = refl
  last_one x l none = refl

  or_else :
      (a b : Option (Buffer Data × List (Buffer Data)))
      → present b ≡ true
      → present (elim a [ some r ↦ some r | none ↦ b ]) ≡ true
  or_else (some r) b e = refl
  or_else none b e = e

  pub victim_lem : (x : Buffer Data) (l : List (Buffer Data)) → present (victim (x ∷ l)) ≡ true
  unfolding victim take_last
  victim_lem x l =
      let oldest = last_one x l (take_last (λ _. true) l) in
      or_else (take_last (λ y. y.bfr_uncache) (x ∷ l)) _ (
        by_test (λ (o : Option (Buffer Data × List (Buffer Data))). present o ≡ true)
          (first_is_fat (x ∷ l) && ltb (fat_count (x ∷ l)) 3) _ _
          (λ y. or_else (take_last (λ y. not y.bfr_fat) (x ∷ l)) _ oldest) (λ n. oldest))

module _ {S Data : Type 0} (D : Driver S Data)
    (writes : (s : S) (dsk blkno : ℕ) (d : Data) → (D.write s dsk blkno d).0 ≡ true)
    (reads : (s : S) (dsk blkno : ℕ) (d : Data) → (D.read s dsk blkno d).0 ≡ true) where
  write_copies_lem :
      (n : ℕ) (s : S) (dsk blkno off : ℕ) (d : Data) → (write_copies D n s dsk blkno off d).0 ≡ true
  unfolding write_copies
  write_copies_lem zero s dsk blkno off d = refl
  write_copies_lem (suc n) s dsk blkno off d =
      rw
        (writes s dsk blkno d, write_copies_lem n (D.write s dsk blkno d).1 dsk (blkno + off) off d)
        refl

  flush1_lem : (s : S) (x : Buffer Data) → (flush1 D s x).0 ≡ true
  unfolding flush1
  flush1_lem s x =
      by_test (λ (r : Bool × S). r.0 ≡ true) (x.bfr_valid && x.bfr_dirty) _ _
        (λ y. write_copies_lem (copies x) s x.b_unit x.b_blkno (offset x) x.b_buffer) (λ n. refl)

  fill_lem :
      (s : S) (blkno dsk : ℕ) (overwrite : Bool) (x : Buffer Data) (r : List (Buffer Data))
      → (fill D s blkno dsk overwrite x r).0 ≡ true
  unfolding fill
  fill_lem s blkno dsk overwrite x r =
      let P : Bool × List (Buffer Data) × S → Type 0 = λ q. q.0 ≡ true in
      by_test P (not x.bfr_uncache) _ _ (λ y. refl)
        (λ n.
          by_test P (not (flush1 D s x).0) _ _ (λ y. absurd (ground (arith, y, flush1_lem s x)))
            (λ ok.
              by_test P
                (not overwrite
                  && not (D.read (flush1 D s x).2 dsk blkno (flush1 D s x).1.b_buffer).0)
                _ _
                (λ y.
                  absurd
                    (ground (arith, y, reads (flush1 D s x).2 dsk blkno (flush1 D s x).1.b_buffer)))
                (λ good. refl)))

  abbrev filled :
      List (Buffer Data)
      → S
      → ℕ
      → ℕ
      → Bool
      → Option (Buffer Data × List (Buffer Data))
      → Bool × List (Buffer Data) × S
  filled l s blkno dsk overwrite o = elim o [
    | none ↦ (false, l, s)
    | some (bp, rest) ↦ fill D s blkno dsk overwrite bp rest
  ]

  module _ (l : List (Buffer Data)) (s : S) (blkno dsk : ℕ) (overwrite : Bool) where
    replaced_one :
        (o : Option (Buffer Data × List (Buffer Data)))
        → present o ≡ true
        → (filled l s blkno dsk overwrite (elim o [
          | some (bp, rest) ↦ some (record bp { bfr_uncache = true }, rest)
          | none ↦ none
        ])).0
          ≡ true
    replaced_one (some (x, r)) e =
        fill_lem s blkno dsk overwrite (record x { bfr_uncache = true }) r
    replaced_one none e = e

    found_one :
        (o : Option (Buffer Data × List (Buffer Data)))
        → present (victim l) ≡ true
        → (filled l s blkno dsk overwrite (elim o [
          | some (bp, rest) ↦ some (record bp { bfr_uncache = false }, rest)
          | none ↦ elim (victim l) [
            | some (bp, rest) ↦ some (record bp { bfr_uncache = true }, rest)
            | none ↦ none
          ]
        ])).0
          ≡ true
    found_one (some (x, r)) e = fill_lem s blkno dsk overwrite (record x { bfr_uncache = false }) r
    found_one none e = replaced_one (victim l) e

  -- If all reads and writes of one block succeed, getblk returns a buffer, as long as there is one.
  pub getblk_succeeds :
      (s : S) (x : Buffer Data) (l : List (Buffer Data)) (blkno dsk : ℕ) (overwrite : Bool)
      → (getblk D s (x ∷ l) blkno dsk overwrite).0 ≡ true
  unfolding getblk searchblock
  getblk_succeeds s x l blkno dsk overwrite =
      found_one (x ∷ l) s blkno dsk overwrite (take_first (holds blkno dsk) (x ∷ l))
        (victim_lem x l)
