-- ===== src/Cache/Blocks.antt =====
-- What the cache has for a block, when a buffer is taken out of the list.
use fdpp.Base.{
  ℕ, ◌≡◌, refl, sym, ◌∙◌, inl, inr, true, false, List, [], ◌∷◌, Option, none, some, arith,
  Bool-cases,
}
use mathlib.Core.Path.{subst}
use fdpp.Cache.{Buffer, holds, take_first}
use fdpp.Cache.Lists.{Takes, here, there, cached, in_cache, Unique, cons}

module _ {Data : Type 0} where
  -- The contents of a buffer that was taken out.
  abbrev pub contents : Option (Buffer Data × List (Buffer Data)) → Option Data
  contents none = none
  contents (some (x, r)) = some x.b_buffer

  contents_later :
      (y : Buffer Data) (o : Option (Buffer Data × List (Buffer Data)))
      → contents o ≡ contents (elim o [ none ↦ none | some (x, r) ↦ some (x, y ∷ r) ])
  contents_later y none = refl
  contents_later y (some (x, r)) = refl

  -- The cache has for a block what the buffer holds that is found for it.
  pub cached-take_first :
      (l : List (Buffer Data)) (dsk blkno : ℕ)
      → cached l dsk blkno ≡ contents (take_first (holds blkno dsk) l)
  unfolding cached take_first
  cached-take_first [] dsk blkno = refl
  cached-take_first (x ∷ l) dsk blkno = elim (Bool-cases (holds blkno dsk x)) [
    | inl y ↦ rw y refl
    | inr n ↦
        rw n (cached-take_first l dsk blkno ∙ contents_later x (take_first (holds blkno dsk) l))
  ]

  pub cached-Takes :
      {x : Buffer Data} {l r : List (Buffer Data)} (dsk blkno : ℕ)
      → Takes x l r
      → holds blkno dsk x ≡ false
      → cached r dsk blkno ≡ cached l dsk blkno
  unfolding cached
  cached-Takes {x} dsk blkno here e = rw e refl
  cached-Takes dsk blkno (there y t) e = rw (cached-Takes dsk blkno t e) refl

  pub cached-none :
      (l : List (Buffer Data)) (dsk blkno : ℕ)
      → in_cache l dsk blkno ≡ false
      → cached l dsk blkno ≡ none
  unfolding cached in_cache
  cached-none [] dsk blkno e = refl
  cached-none (x ∷ l) dsk blkno e =
      let x_not : holds blkno dsk x ≡ false = ground (arith, e) in
      rw x_not (cached-none l dsk blkno (ground (arith, e)))

  pub in_cache-Takes :
      {x : Buffer Data} {l r : List (Buffer Data)} (dsk blkno : ℕ)
      → Takes x l r
      → in_cache l dsk blkno ≡ false
      → (holds blkno dsk x ≡ false) × (in_cache r dsk blkno ≡ false)
  unfolding in_cache
  in_cache-Takes dsk blkno here e = (ground (arith, e), ground (arith, e))
  in_cache-Takes dsk blkno (there y t) e =
      let (a, b) = in_cache-Takes dsk blkno t (ground (arith, e)) in (a, ground (arith, e, b))

  -- Two valid buffers that are for the same block.
  clash :
      (x y : Buffer Data)
      → x.bfr_valid ≡ true
      → holds x.b_blkno x.b_unit y ≡ true
      → holds y.b_blkno y.b_unit x ≡ true
  clash x y v e = ground (arith, v, e)

  pub Unique-Takes :
      {x : Buffer Data} {l r : List (Buffer Data)}
      → Takes x l r
      → Unique l
      → Unique r × (x.bfr_valid ≡ true → in_cache r x.b_unit x.b_blkno ≡ false)
  unfolding in_cache
  Unique-Takes here (cons x f u) = (u, f)
  Unique-Takes {x} (there y t) (cons _ f u) =
      let (u', g) = Unique-Takes t u in
      (
        cons y (λ v. (in_cache-Takes y.b_unit y.b_blkno t (f v)).1) u',
        λ v. elim (Bool-cases (holds x.b_blkno x.b_unit y)) [
          | inl e ↦
              let yv : y.bfr_valid ≡ true = ground (arith, e) in
              let one = clash x y v e in
              let two = (in_cache-Takes y.b_unit y.b_blkno t (f yv)).0 in
              absurd (ground (arith, one, two))
          | inr n ↦ rw n (g v)
        ],
      )

  -- The block of a buffer that was found, and no other, is in its place.
  pub cached-front :
      {l r : List (Buffer Data)} (x y : Buffer Data) (dsk blkno : ℕ)
      → Takes x l r
      → cached l dsk blkno ≡ some x.b_buffer
      → holds blkno dsk x ≡ true
      → y.b_unit ≡ x.b_unit
      → y.b_blkno ≡ x.b_blkno
      → y.bfr_valid ≡ x.bfr_valid
      → y.b_buffer ≡ x.b_buffer
      → (dsk' blkno' : ℕ) → cached (y ∷ r) dsk' blkno' ≡ cached l dsk' blkno'
  unfolding cached
  cached-front {l} x y dsk blkno t c e u b v d dsk' blkno' =
      elim (Bool-cases (holds blkno' dsk' y)) [
        | inl q ↦
            let same_dsk : dsk ≡ dsk' = ground (arith, e, q, u) in
            let same_blkno : blkno ≡ blkno' = ground (arith, e, q, b) in
            rw (q, d)
              (sym (
                subst (λ (k : ℕ). cached l k blkno' ≡ some x.b_buffer) same_dsk
                  (subst (λ (k : ℕ). cached l dsk k ≡ some x.b_buffer) same_blkno c)))
        | inr n ↦
            let x_not : holds blkno' dsk' x ≡ false = ground (arith, n, u, b, v) in
            rw n (cached-Takes dsk' blkno' t x_not)
      ]

  pub cached-Takes_self :
      {x : Buffer Data} {l r : List (Buffer Data)} (dsk blkno : ℕ)
      → Takes x l r
      → Unique l
      → holds blkno dsk x ≡ true
      → cached l dsk blkno ≡ some x.b_buffer
  unfolding cached
  cached-Takes_self dsk blkno here u e = rw e refl
  cached-Takes_self {x} dsk blkno (there y t) (cons _ f u) e =
      elim (Bool-cases (holds blkno dsk y)) [
        | inl q ↦
            let yv : y.bfr_valid ≡ true = ground (arith, q) in
            let x_not = (in_cache-Takes y.b_unit y.b_blkno t (f yv)).0 in
            absurd (ground (arith, e, q, x_not))
        | inr n ↦ rw n (cached-Takes_self dsk blkno t u e)
      ]
