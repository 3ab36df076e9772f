-- ===== src/Cache/Reads.antt =====
-- getblk of kernel/blockio.c returns the block, and when it does.
use fdpp.Base.{
  ℕ, ◌≡◌, refl, ap, ◌∙◌, Bool, true, false, not, List, Option, none, some, arith, by_test,
}
use fdpp.Cache.{Buffer, Driver, holds, take_first, victim, searchblock, flush1, fill, getblk}
use fdpp.Cache.{Buffer, Driver, holds, take_first, victim, searchblock, flush1, fill, getblk}
use fdpp.Cache.Lists.{
  in_cache, Taken, took, nothing, take_first-Taken, victim-Taken, present, in_cache-take_first,
}
use fdpp.Cache.Flush.{Obeys}
use fdpp.Cache.Getblk.{IsPlain, IsCache, Got, hit-Got, miss-Got}

module _ {S Data : Type 0} {block : S → ℕ → ℕ → Data} {D : Driver S Data} (O : Obeys D block)
    {l : List (Buffer Data)} {s : S} (C : IsCache block l s) (dsk blkno : ℕ)
    (plain : IsPlain l dsk blkno) where
  Serves : Bool × List (Buffer Data) × S → Type 0
  Serves res = res.0 ≡ true → Got block l s dsk blkno res.1 res.2

  -- getblk behind searchblock.
  abbrev filled : Option (Buffer Data × List (Buffer Data)) → Bool × List (Buffer Data) × S
  filled o = elim o [ none ↦ (false, l, s) | some (bp, rest) ↦ fill D s blkno dsk false bp rest ]

  replace :
      (o : Option (Buffer Data × List (Buffer Data)))
      → in_cache l dsk blkno ≡ false
      → Taken (λ x. true) l o
      → Serves (
          filled (elim o [
            | some (bp, rest) ↦ some (record bp { bfr_uncache = true }, rest)
            | none ↦ none
          ]))
  unfolding Serves fill flush1
  replace none miss nothing = λ e. absurd (ground (arith, e))
  replace (some (x, r)) miss (took t _) =
      let f = flush1 D s x in
      let q = D.read f.2 dsk blkno x.b_buffer in
      by_test Serves (not f.0) _ _ (λ y e. absurd (ground (arith, e)))
        (λ ok.
          by_test Serves (not q.0) _ _ (λ y e. absurd (ground (arith, e)))
            (λ good e.
              miss-Got C O dsk blkno plain miss t (ground (arith, ok)) _ (ground arith)
                (O.reads f.2 dsk blkno x.b_buffer (ground (arith, good))) refl))

  serve :
      (o : Option (Buffer Data × List (Buffer Data)))
      → take_first (holds blkno dsk) l ≡ o
      → Taken (holds blkno dsk) l o
      → Serves (
          filled (elim o [
            | some (bp, rest) ↦ some (record bp { bfr_uncache = false }, rest)
            | none ↦ elim (victim l) [
              | some (bp, rest) ↦ some (record bp { bfr_uncache = true }, rest)
              | none ↦ none
            ]
          ]))
  unfolding Serves fill
  serve (some (x, r)) q (took t e) = λ _. hit-Got C dsk blkno q t e
  serve none q nothing =
      replace (victim l) (in_cache-take_first l dsk blkno ∙ ap present q) (victim-Taken l)

  -- If getblk returns a buffer for a block of a cache that is in order, it is the first one, valid, and holds
  -- the block as the cache or else the disk had it. The cache still has no block twice and its clean buffers
  -- are as the disk, and, by the cache and the disk, no block has changed. The driver keeps its promises, and the blocks
  -- are not second copies of what a buffer holds.
  pub getblk_lem :
      (getblk D s l blkno dsk false).0 ≡ true
      → Got block l s dsk blkno (getblk D s l blkno dsk false).1 (getblk D s l blkno dsk false).2
  unfolding getblk searchblock Serves
  getblk_lem = serve (take_first (holds blkno dsk) l) refl (take_first-Taken (holds blkno dsk) l)
