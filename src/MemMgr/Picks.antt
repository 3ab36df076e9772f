-- ===== src/MemMgr/Picks.antt =====
-- The block that DosMemAlloc takes, or none, when the whole chain has been scanned.
use mathlib.Core.Path.{subst}
use mathlib.Core.Bool.{false≢true}
use mathlib.Core.Option.{some-injective}
use fdpp.Base.{
  ℕ, ◌≤◌, ◌<◌, ◌≡◌, refl, sym, ◌∙◌, ◌⊎◌, inl, inr, true, false, Option, none, some, arith,
  Bool-cases, ◌==◌, Option-cases, ◌≢◌,
}
use fdpp.MemMgr.{Mem}
use fdpp.MemMgr.Alloc.{
  largest_mode, Fit, largest, last_fit, best_fit, first_fit, fit, Scan, size_of, pick,
  none_or_smaller,
}
use fdpp.MemMgr.Chain.{At, Chain-lt, Chain-at}
use fdpp.MemMgr.Seen.{IsFree, Prefers, Seen}

smaller_false :
    (m : Mem) (o : Option ℕ) (n : ℕ)
    → none_or_smaller m o n ≡ false
    → (b : ℕ) × (o ≡ some b) × (n ≤ (m b).m_size)
smaller_false m none n h = absurd (cc)
smaller_false m (some b) n h = (b, refl, ground arith)

smaller_true :
    (m : Mem) (o : Option ℕ) (n : ℕ) → none_or_smaller m o n ≡ true → 0 < n → size_of m o < n
smaller_true m none n h pos = pos
smaller_true m (some b) n h pos = ground arith

le-size_of : (m : Mem) (o : Option ℕ) (n : ℕ) → none_or_smaller m o n ≡ false → n ≤ size_of m o
le-size_of m none n h = absurd (cc)
le-size_of m (some b) n h = ground arith

fit_largest : (mode : ℕ) → fit mode ≡ largest → mode ≡ largest_mode
unfolding fit
fit_largest mode h = ground arith

Prefers-none : (r : Fit) (m : Mem) (x : ℕ) → Prefers r m none x → r ≡ largest
Prefers-none largest m x h = refl
Prefers-none last_fit m x h = absurd h
Prefers-none best_fit m x h = absurd h
Prefers-none first_fit m x h = absurd h

-- What `foundSeg` is behind the scan.
pick-cases :
    (mode size : ℕ) (t : Scan)
    → ((mode ≡ largest_mode)
        × (none_or_smaller t.mem t.biggest size ≡ false)
        × (pick mode size t ≡ t.biggest))
      ⊎ ((mode ≡ largest_mode → none_or_smaller t.mem t.biggest size ≡ true)
          × (pick mode size t ≡ t.found))
unfolding pick
pick-cases mode size t = elim (Bool-cases (mode == largest_mode)) [
  | inr n ↦ inr ((λ h. absurd (ground arith)), rw n refl)
  | inl y ↦ elim (Bool-cases (none_or_smaller t.mem t.biggest size)) [
    | inl k ↦ inr ((λ _. k), rw (y, k) refl)
    | inr k ↦ inl (ground arith, k, rw (y, k) refl)
  ]
]

-- A scan that has seen all of the chain.
module _ {m₀ : Mem} {e p size : ℕ} (mode : ℕ) {t : Scan}
    (seen : Seen (fit mode) size m₀ e p e t) where
  -- It picks a free block that is large enough.
  pub pick-IsFree :
      (x : ℕ) → pick mode size t ≡ some x → IsFree t.mem p e x × (size ≤ (t.mem x).m_size)
  pick-IsFree x h = elim (pick-cases mode size t) [
    | inr (_, q) ↦ seen.fits.at x (sym q ∙ h)
    | inl (_, k, q) ↦
        let (b, is, le) = smaller_false t.mem t.biggest size k in
        let eq = some-injective _ _ (sym is ∙ sym q ∙ h) in
        (seen.biggest.at x (sym q ∙ h), rw (← eq) le)
  ]

  -- The largest free block is at least as large as any.
  pub size_of-le :
      (x : ℕ) → At t.mem x p → (t.mem x).m_psp ≡ 0 → (t.mem x).m_size ≤ size_of t.mem t.biggest
  size_of-le x r z = le-size_of t.mem t.biggest (t.mem x).m_size (
      seen.biggest.maximal x (record {
        at = r;
        below = let c = Chain-lt (Chain-at seen.evolves.chain r) in omega arith;
        free = z;
      }))

  -- It is the size of a free block, or 0 if there is none.
  pub size_of-is :
      ((x : ℕ) × At t.mem x p
        × ((t.mem x).m_psp ≡ 0)
        × ((t.mem x).m_size ≡ size_of t.mem t.biggest))
      ⊎ ((size_of t.mem t.biggest ≡ 0) × ((x : ℕ) → At t.mem x p → (t.mem x).m_psp ≢ 0))
  size_of-is = elim (Option-cases t.biggest) [
    | inl none_free ↦ inr (
      rw none_free refl,
      λ x r z.
          let c = Chain-lt (Chain-at seen.evolves.chain r) in
          let k = seen.biggest.maximal x (record { at = r; below = omega arith; free = z }) in
          absurd (false≢true (sym k ∙ rw none_free refl)),
    )
    | inr (b, is) ↦ let f = seen.biggest.at b is in inl (b, f.at, f.free, rw is refl)
  ]

  -- It is too small, if nothing is picked.
  pub pick-none : pick mode size t ≡ none → 0 < size → size_of t.mem t.biggest < size
  pick-none h pos = elim (Bool-cases (none_or_smaller t.mem t.biggest size)) [
    | inl small ↦ smaller_true t.mem t.biggest size small pos
    | inr k ↦
        let (b, is, le) = smaller_false t.mem t.biggest size k in
        elim (pick-cases mode size t) [
          | inl (_, _, q) ↦ absurd (cc)
          | inr (l, q) ↦
              let bad = fit_largest mode (
                Prefers-none (fit mode) t.mem b (
                  subst (λ o. Prefers (fit mode) t.mem o b) (sym q ∙ h)
                    (seen.fits.prefers b (seen.biggest.at b is) le))) in
              absurd (false≢true (sym k ∙ l bad))
        ]
  ]
