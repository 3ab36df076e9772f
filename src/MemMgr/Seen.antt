-- ===== src/MemMgr/Seen.antt =====
-- What the scan of DosMemAlloc has found among the blocks that it has passed.
use mathlib.Core.Path.{subst}
use mathlib.Core.Option.{some-injective}
use fdpp.Base.{
  ℕ, ◌+◌, ◌≤◌, ◌<◌, ◌≡◌, ◌≢◌, refl, sym, ◌⊎◌, inl, inr, true, false, Option, none, some, ℕ_discrete,
  dec_lt, arith,
}
use fdpp.MemMgr.{Mem}
use fdpp.MemMgr.Alloc.{Fit, last_fit, largest, best_fit, first_fit, scanning, Scan, none_or_smaller}
use fdpp.MemMgr.Chain.{At, Evolves, Anywhere, At-gap, At-below, Evolves-trans, Evolves-At}

-- A free block of the chain from `a`, below `n`.
pub record IsFree (m : Mem) (a n x : ℕ) : Type 0 where
  pub at : At m x a
  pub below : x < n
  pub free : (m x).m_psp ≡ 0

-- The block that the mode takes is no worse than the block at `x`: LAST_FIT takes the last, BEST_FIT
-- the smallest, FIRST_FIT the first. LARGEST takes none here.
abbrev pub Prefers : Fit → Mem → Option ℕ → ℕ → Type 0
Prefers largest m _ x = Unit {0}
Prefers _ m none x = ⊥
Prefers last_fit m (some y) x = x ≤ y
Prefers best_fit m (some y) x = (m y).m_size ≤ (m x).m_size
Prefers first_fit m (some y) x = y ≤ x

-- `o` is the largest free block below `n`, if there is one.
pub record Biggest (m : Mem) (a n : ℕ) (o : Option ℕ) : Type 0 where
  pub at : (b : ℕ) → o ≡ some b → IsFree m a n b
  pub maximal : (x : ℕ) → IsFree m a n x → none_or_smaller m o (m x).m_size ≡ false

-- `o` is the block that the mode prefers of the free blocks below `n` that are large enough.
pub record Fits (r : Fit) (size : ℕ) (m : Mem) (a n : ℕ) (o : Option ℕ) : Type 0 where
  pub at : (y : ℕ) → o ≡ some y → IsFree m a n y × (size ≤ (m y).m_size)
  pub prefers : (x : ℕ) → IsFree m a n x → size ≤ (m x).m_size → Prefers r m o x

-- The state of the scan when the blocks of the chain below `n` have been seen.
pub record Seen (r : Fit) (size : ℕ) (m₀ : Mem) (e a n : ℕ) (s : Scan) : Type 0 where
  pub evolves : Evolves Anywhere m₀ s.mem e a
  pub biggest : Biggest s.mem a n s.biggest
  pub fits : Fits r size s.mem a n s.found
  pub first : r ≡ first_fit → s.phase ≡ scanning → s.found ≡ none

same_smaller :
    (m m' : Mem) (o : Option ℕ) (x : ℕ)
    → ((b : ℕ) → o ≡ some b → m' b ≡ m b)
    → m' x ≡ m x
    → none_or_smaller m o (m x).m_size ≡ false
    → none_or_smaller m' o (m' x).m_size ≡ false
same_smaller m m' none x h k z = z
same_smaller m m' (some b) x h k z = rw (h b refl, k) z

same-Prefers :
    (r : Fit) (m m' : Mem) (o : Option ℕ) (x : ℕ)
    → ((y : ℕ) → o ≡ some y → m' y ≡ m y)
    → m' x ≡ m x
    → Prefers r m o x
    → Prefers r m' o x
same-Prefers largest m m' o x h k z = z
same-Prefers last_fit m m' none x h k z = z
same-Prefers last_fit m m' (some y) x h k z = z
same-Prefers best_fit m m' none x h k z = z
same-Prefers best_fit m m' (some y) x h k z = rw (h y refl, k) z
same-Prefers first_fit m m' none x h k z = z
same-Prefers first_fit m m' (some y) x h k z = z

-- What was seen before `p` stays under a change of memory from `p` on.
module _ {m m' : Mem} {a p : ℕ} (same : (x : ℕ) → x < p → m' x ≡ m x) where
  IsFree-forth : (x : ℕ) → IsFree m a p x → IsFree m' a p x
  IsFree-forth x f = record {
    at = At-below f.at λ y h. same y (omega (arith, f.below));
    below = f.below;
    free = rw (same x f.below) f.free;
  }

  IsFree-back : (x : ℕ) → IsFree m' a p x → IsFree m a p x
  IsFree-back x f = record {
    at = At-below f.at λ y h. sym (same y (omega (arith, f.below)));
    below = f.below;
    free = rw (same x f.below) at f.free;
  }

  Biggest-frame : {o : Option ℕ} → Biggest m a p o → Biggest m' a p o
  Biggest-frame {o} v = record {
    at = λ b q. IsFree-forth b (v.at b q);
    maximal = λ x f.
        let g = IsFree-back x f in
        same_smaller m m' o x (λ b q. same b (v.at b q).below) (same x g.below) (v.maximal x g);
  }

  Fits-frame : {r : Fit} {size : ℕ} {o : Option ℕ} → Fits r size m a p o → Fits r size m' a p o
  Fits-frame {r} {size} {o} v = record {
    at = λ y q. let k = v.at y q in (IsFree-forth y k.0, rw (same y k.0.below) k.1);
    prefers = λ x f h.
        let g = IsFree-back x f in
        same-Prefers r m m' o x (λ y q. same y (v.at y q).0.below) (same x g.below)
          (v.prefers x g (rw (same x g.below) at h));
  }

pub Seen-carry :
    {r : Fit} {size : ℕ} {m₀ : Mem} {e a : ℕ} {s : Scan} {m : Mem} {p : ℕ}
    → Seen r size m₀ e a p s
    → At s.mem p a
    → Evolves Anywhere s.mem m e p
    → Seen r size m₀ e a p (record s { mem = m })
Seen-carry {s} {m} {p} v at ev =
    let same : (x : ℕ) → x < p → m x ≡ s.mem x = λ x h. ev.frame x (inl h) in
    record {
      evolves = Evolves-trans v.evolves (Evolves-At at ev);
      biggest = Biggest-frame same v.biggest;
      fits = Fits-frame same v.fits;
      first = v.first;
    }

-- The MCB at `p` and the end `n` of its block.
module _ {m : Mem} {a p n : ℕ} (at : At m p a) (end : n ≡ p + (m p).m_size + 1) where
  IsFree-more : (x : ℕ) → IsFree m a p x → IsFree m a n x
  IsFree-more x f = record { at = f.at; below = omega (arith, f.below); free = f.free }

  IsFree-less : (x : ℕ) → IsFree m a n x → (x ≡ p) ⊎ IsFree m a p x
  IsFree-less x f = elim (dec_lt x p) [
    | yes h ↦ inr (record { at = f.at; below = h; free = f.free })
    | no h ↦ elim (ℕ_discrete x p) [
      | yes k ↦ inl k
      | no k ↦ absurd (omega (arith, f.below, At-gap f.at at (omega arith)))
    ]
  ]

  pub Biggest-skip :
      {o : Option ℕ}
      → ((m p).m_psp ≡ 0 → none_or_smaller m o (m p).m_size ≡ false)
      → Biggest m a p o
      → Biggest m a n o
  Biggest-skip {o} skip v = record {
    at = λ b q. IsFree-more b (v.at b q);
    maximal = λ x f. elim (IsFree-less x f) [
      | inl k ↦ rw k (skip (rw (← k) f.free))
      | inr g ↦ v.maximal x g
    ];
  }

  pub Fits-skip :
      {r : Fit} {size : ℕ} {o : Option ℕ}
      → ((m p).m_psp ≡ 0 → size ≤ (m p).m_size → Prefers r m o p)
      → Fits r size m a p o
      → Fits r size m a n o
  Fits-skip {r} {o} skip v = record {
    at = λ y q. let k = v.at y q in (IsFree-more y k.0, k.1);
    prefers = λ x f h. elim (IsFree-less x f) [
      | inl k ↦ subst (Prefers r m o) (sym k) (skip (rw (← k) f.free) (rw (← k) h))
      | inr g ↦ v.prefers x g h
    ];
  }

  module _ (free : (m p).m_psp ≡ 0) where
    IsFree-here : IsFree m a n p
    IsFree-here = record { at = at; below = omega arith; free = free }

    pub Biggest-take :
        {o : Option ℕ}
        → none_or_smaller m o (m p).m_size ≡ true
        → Biggest m a p o
        → Biggest m a n (some p)
    Biggest-take {o} less v = record {
      at = λ b q. subst (IsFree m a n) (some-injective _ _ q) IsFree-here;
      maximal = λ x f. elim (IsFree-less x f) [
        | inl k ↦ rw k (ground arith)
        | inr g ↦ beats o x less (v.maximal x g)
      ];
    }
      where
        beats :
            (o : Option ℕ) (x : ℕ)
            → none_or_smaller m o (m p).m_size ≡ true
            → none_or_smaller m o (m x).m_size ≡ false
            → none_or_smaller m (some p) (m x).m_size ≡ false
        beats none x h k = cc
        beats (some b) x h k = ground arith

    pub Fits-take :
        {r : Fit} {size : ℕ} {o : Option ℕ}
        → size ≤ (m p).m_size
        → ((x : ℕ) → IsFree m a p x → size ≤ (m x).m_size → Prefers r m (some p) x)
        → Prefers r m (some p) p
        → Fits r size m a p o
        → Fits r size m a n (some p)
    Fits-take {r} {size} large others self v = record {
      at = λ y q.
          subst (λ y. IsFree m a n y × (size ≤ (m y).m_size)) (some-injective _ _ q)
            (IsFree-here, large);
      prefers = λ x f h. elim (IsFree-less x f) [
        | inl k ↦ subst (Prefers r m (some p)) (sym k) self
        | inr g ↦ others x g h
      ];
    }

pub Seen-used :
    {r : Fit} {size : ℕ} {m₀ : Mem} {e a : ℕ} {s : Scan} {p : ℕ}
    → Seen r size m₀ e a p s
    → At s.mem p a
    → (s.mem p).m_psp ≢ 0
    → Seen r size m₀ e a (p + (s.mem p).m_size + 1) s
Seen-used v at used = record {
  evolves = v.evolves;
  biggest = Biggest-skip at refl (λ f. absurd (used f)) v.biggest;
  fits = Fits-skip at refl (λ f. absurd (used f)) v.fits;
  first = v.first;
}
