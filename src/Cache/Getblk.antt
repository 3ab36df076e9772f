-- ===== src/Cache/Getblk.antt =====
-- getblk of kernel/blockio.c, against the disk with the writes that the cache still holds back.
use fdpp.Base.{
  ℕ, ◌<◌, ◌≡◌, refl, sym, ap, ◌∙◌, ◌⊎◌, inl, inr, true, false, List, ◌∷◌, Option, none, some, arith,
  Bool-cases,
}
use mathlib.Core.Path.{subst}
use fdpp.Cache.{Buffer, Driver, holds, copies, take_first, flush1}
use fdpp.Cache.Lists.{
  Takes, In, cached, in_cache, Unique, cons, Takes-In, Takes-In_rest, all_cons, not-In,
}
use fdpp.Cache.Blocks.{
  contents, cached-take_first, cached-Takes, cached-none, Unique-Takes, cached-front,
  cached-Takes_self, in_cache-Takes,
}
use fdpp.Cache.Flush.{Obeys, Touched, flush1-keeps, flush1-stores}

module _ {Data : Type 0} where
  -- What is in the cache, or else on the disk.
  abbrev pub shown : Option Data → Data → Data
  shown none d = d
  shown (some c) d = c

  -- A block of which no buffer has a second copy.
  abbrev pub IsPlain : List (Buffer Data) → ℕ → ℕ → Type 0
  IsPlain l dsk blkno =
      (x : Buffer Data) → In x l → Touched x dsk blkno → (dsk ≡ x.b_unit) × (blkno ≡ x.b_blkno)

module _ {S Data : Type 0} (block : S → ℕ → ℕ → Data) where
  -- A block, by the cache and the disk.
  abbrev pub view : List (Buffer Data) → S → ℕ → ℕ → Data
  view l s dsk blkno = shown (cached l dsk blkno) (block s dsk blkno)

  -- A valid buffer that is not dirty holds the block of the disk, and each buffer is written somewhere.
  pub record IsClean (s : S) (x : Buffer Data) : Type 0 where
    pub same : x.bfr_valid ≡ true → (x.bfr_dirty ≡ true) ⊎ (block s x.b_unit x.b_blkno ≡ x.b_buffer)
    pub somewhere : 0 < copies x

  -- The cache is in order: no block is in it twice, each buffer is clean, and flushing a buffer
  -- writes no block of another one.
  pub record IsCache (l : List (Buffer Data)) (s : S) : Type 0 where
    pub unique : Unique l
    pub clean : (x : Buffer Data) → In x l → IsClean s x
    pub apart :
        (x y : Buffer Data)
        → In x l
        → In y l
        → Touched x y.b_unit y.b_blkno
        → (y.b_unit ≡ x.b_unit) × (y.b_blkno ≡ x.b_blkno)

  -- What getblk leaves when it returns the first buffer.
  pub record Got (l : List (Buffer Data)) (s : S) (dsk blkno : ℕ) (l' : List (Buffer Data)) (s' : S)
      : Type 0 where
    pub first : Buffer Data
    pub others : List (Buffer Data)
    pub front : l' ≡ (first ∷ others)
    pub is_valid : holds blkno dsk first ≡ true
    pub reads : first.b_buffer ≡ view l s dsk blkno
    pub unique : Unique l'
    pub clean : (x : Buffer Data) → In x l' → IsClean s' x
    pub shows :
        (dsk' blkno' : ℕ) → IsPlain l dsk' blkno' → view l' s' dsk' blkno' ≡ view l s dsk' blkno'

module _ {S Data : Type 0} {block : S → ℕ → ℕ → Data} {l : List (Buffer Data)} {s : S}
    (C : IsCache block l s) where
  -- A hit.
  pub hit-Got :
      (dsk blkno : ℕ) {x : Buffer Data} {r : List (Buffer Data)}
      → take_first (holds blkno dsk) l ≡ some (x, r)
      → Takes x l r
      → holds blkno dsk x ≡ true
      → Got block l s dsk blkno (record x { bfr_uncache = false } ∷ r) s
  unfolding in_cache
  hit-Got dsk blkno {x} {r} q t e =
      let y = record x { bfr_uncache = false } in
      let c = cached-take_first l dsk blkno ∙ ap contents q in
      let (u, g) = Unique-Takes t C.unique in
      let same = cached-front x y dsk blkno t c e refl refl refl refl in
      record {
        first = y;
        others = r;
        front = refl;
        is_valid = e;
        reads = ap (λ (o : Option Data). shown o (block s dsk blkno)) (sym c);
        unique = cons y g u;
        clean =
            all_cons (IsClean block s)
              (record {
                same = (C.clean x (Takes-In t)).same;
                somewhere = (C.clean x (Takes-In t)).somewhere;
              })
              (λ z i. C.clean z (Takes-In_rest t i));
        shows = λ dsk' blkno' plain.
            ap (λ (o : Option Data). shown o (block s dsk' blkno')) (same dsk' blkno');
      }

  -- A buffer `x` is written back; the others are clean still.
  module _ {D : Driver S Data} (O : Obeys D block) {x : Buffer Data} {r : List (Buffer Data)}
      (t : Takes x l r) where
    kept :
        (dsk' blkno' : ℕ)
        → holds blkno' dsk' x ≡ false
        → IsPlain l dsk' blkno'
        → block (flush1 D s x).2 dsk' blkno' ≡ block s dsk' blkno'
    kept dsk' blkno' e p =
        flush1-keeps O s x dsk' blkno'
          (λ v w. let (a, b) = p x (Takes-In t) w in absurd (ground (arith, e, v, a, b)))

    pub rest-IsClean : (z : Buffer Data) → In z r → IsClean block (flush1 D s x).2 z
    rest-IsClean z i =
        let i' = Takes-In_rest t i in
        let c = C.clean z i' in
        record {
          same = λ v. elim (c.same v) [
            | inl dirty ↦ inl dirty
            | inr e ↦ elim (Bool-cases (holds z.b_blkno z.b_unit x)) [
              | inl q ↦
                  let xv : x.bfr_valid ≡ true = ground (arith, q) in
                  let z_not = not-In x.b_unit x.b_blkno i ((Unique-Takes t C.unique).1 xv) in
                  absurd (ground (arith, q, z_not, v))
              | inr n ↦ inr (kept z.b_unit z.b_blkno n (λ y j w. C.apart y z j i' w) ∙ e)
            ]
          ];
          somewhere = c.somewhere;
        }

  -- A miss: the buffer `x` is written back, and filled with the block.
  module _ {D : Driver S Data} (O : Obeys D block) (dsk blkno : ℕ) (plain : IsPlain l dsk blkno)
      (miss : in_cache l dsk blkno ≡ false) {x : Buffer Data} {r : List (Buffer Data)}
      (t : Takes x l r) (ok : (flush1 D s x).0 ≡ true) where
    abbrev s' : S
    s' = (flush1 D s x).2

    -- The block of the buffer that is replaced.
    old_block : (dsk' blkno' : ℕ) → holds blkno' dsk' x ≡ true → block s' dsk' blkno' ≡ x.b_buffer
    old_block dsk' blkno' e =
        let c = C.clean x (Takes-In t) in
        let v : x.bfr_valid ≡ true = ground (arith, e) in
        let a : x.b_unit ≡ dsk' = ground (arith, e) in
        let b : x.b_blkno ≡ blkno' = ground (arith, e) in
        let stored = flush1-stores O s x c.somewhere v (c.same v) ok in
        subst (λ (k : ℕ). block s' k blkno' ≡ x.b_buffer) a
          (subst (λ (k : ℕ). block s' x.b_unit k ≡ x.b_buffer) b stored)

    rest_shows :
        (dsk' blkno' : ℕ)
        → IsPlain l dsk' blkno'
        → view block r s' dsk' blkno' ≡ view block l s dsk' blkno'
    rest_shows dsk' blkno' p = elim (Bool-cases (holds blkno' dsk' x)) [
      | inl e ↦
          let xv : x.bfr_valid ≡ true = ground (arith, e) in
          let a : x.b_unit ≡ dsk' = ground (arith, e) in
          let b : x.b_blkno ≡ blkno' = ground (arith, e) in
          let gone = cached-none r x.b_unit x.b_blkno ((Unique-Takes t C.unique).1 xv) in
          let gone' : cached r dsk' blkno' ≡ none =
            subst (λ (k : ℕ). cached r k blkno' ≡ none) a
              (subst (λ (k : ℕ). cached r x.b_unit k ≡ none) b gone) in
          rw (gone', cached-Takes_self dsk' blkno' t C.unique e) (old_block dsk' blkno' e)
      | inr n ↦ rw (cached-Takes dsk' blkno' t n, kept O t dsk' blkno' n p) refl
    ]

    -- The buffer behind the read.
    pub miss-Got :
        (y : Buffer Data)
        → holds blkno dsk y ≡ true
        → y.b_buffer ≡ block s' dsk blkno
        → y.bfr_fat ≡ false
        → Got block l s dsk blkno (y ∷ r) s'
    unfolding cached
    miss-Got y e d fat =
        let a : y.b_unit ≡ dsk = ground (arith, e) in
        let b : y.b_blkno ≡ blkno = ground (arith, e) in
        let (x_not, r_not) = in_cache-Takes dsk blkno t miss in
        let old : block s' dsk blkno ≡ view block l s dsk blkno =
          kept O t dsk blkno x_not plain ∙ rw (cached-none l dsk blkno miss) refl in
        record {
          first = y;
          others = r;
          front = refl;
          is_valid = e;
          reads = d ∙ old;
          unique = cons y (λ v. rw (a, b) r_not) (Unique-Takes t C.unique).0;
          clean =
              all_cons (IsClean block s')
                (record { same = λ v. inr (rw (a, b) (sym d)); somewhere = rw fat (omega arith) })
                (rest-IsClean O t);
          shows = λ dsk' blkno' p. elim (Bool-cases (holds blkno' dsk' y)) [
            | inl q ↦
                let a' : dsk ≡ dsk' = ground (arith, e, q) in
                let b' : blkno ≡ blkno' = ground (arith, e, q) in
                rw q (
                  subst (λ (k : ℕ). y.b_buffer ≡ view block l s k blkno') a'
                    (subst (λ (k : ℕ). y.b_buffer ≡ view block l s dsk k) b' (d ∙ old)))
            | inr n ↦ rw n (rest_shows dsk' blkno' p)
          ];
        }
