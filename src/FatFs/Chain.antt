-- ===== src/FatFs/Chain.antt =====
-- Chains of clusters in a FAT, and next_cluster of kernel/fattab.c on them.
use fdpp.Base.{
  ℕ, suc, ◌≤◌, ◌<◌, ◌≡◌, refl, sym, ◌∙◌, ◌⊎◌, inl, inr, ◌&&◌, ◌||◌, ltb, leb, if◌then◌else◌, arith,
}
use mathlib.Core.Path.{subst}
use fdpp.FatTab.{Drive, max_cluster, long_last_cluster, long_bad, next_cluster}
use fdpp.FatFs.Table.{IsTable, InDrive}

module _ (n : ℕ) (t : ℕ → ℕ) where
  -- The chain from a cluster ends after `k` clusters with LONG_LAST_CLUSTER.
  pub data Ends : ℕ → ℕ → Type 0 where
    last : {c k : ℕ} → InDrive n c → t c ≡ long_last_cluster → k ≡ 1 → Ends c k
    more : {c k : ℕ} (d j : ℕ) → InDrive n c → t c ≡ d → Ends d j → k ≡ suc j → Ends c k

  -- A cluster is on the chain from another.
  pub data On (x : ℕ) : ℕ → Type 0 where
    here : {c : ℕ} → c ≡ x → On x c
    later : {c : ℕ} (d : ℕ) → InDrive n c → t c ≡ d → On x d → On x c

module _ {n : ℕ} {t : ℕ → ℕ} (small : n < long_bad) where
  pub Ends-InDrive : {c k : ℕ} → Ends n t c k → InDrive n c
  Ends-InDrive (last i e q) = i
  Ends-InDrive (more d j i e r q) = i

  pub Ends-entry :
      {c k m : ℕ} → n ≤ m → Ends n t c k → (t c ≡ long_last_cluster) ⊎ ((1 < t c) × (t c ≤ m))
  Ends-entry le (last i e q) = inl e
  Ends-entry le (more d j i e r q) =
      let i' = Ends-InDrive r in inr (rw e (i'.low, omega (arith, i'.high)))

  pub not-Ends_last : {k : ℕ} → ¬ Ends n t long_last_cluster k
  not-Ends_last e = let i = Ends-InDrive e in omega (arith, i.high, small)

  pub Ends-unique : {c k k' : ℕ} → Ends n t c k → Ends n t c k' → k ≡ k'
  Ends-unique (last i e q) (last i' e' q') = omega arith
  Ends-unique (last i e q) (more d j i' e' r q') =
      absurd (not-Ends_last (subst (λ (x : ℕ). Ends n t x j) (sym e' ∙ e) r))
  Ends-unique (more d j i e r q) (last i' e' q') =
      absurd (not-Ends_last (subst (λ (x : ℕ). Ends n t x j) (sym e ∙ e') r))
  Ends-unique (more d j i e r q) (more d' j' i' e' r' q') =
      let ih = Ends-unique r (subst (λ (x : ℕ). Ends n t x j') (sym e' ∙ e) r') in omega (arith, ih)

  pub beyond : {x : ℕ} → InDrive n x → ¬ On n t x long_last_cluster
  beyond i (here e) = omega (arith, i.high, small)
  beyond i (later d j e o) = omega (arith, j.high, small)

  pub On-Ends :
      {x c k : ℕ} → InDrive n x → On n t x c → Ends n t c k → (j : ℕ) × Ends n t x j × (j ≤ k)
  On-Ends {k = k} i (here e) r = (k, subst (λ (x : ℕ). Ends n t x k) e r, omega arith)
  On-Ends i (later d _ e o) (last i' e' q) = absurd (beyond i (subst (On n t _) (sym e ∙ e') o))
  On-Ends i (later d _ e o) (more d' j i' e' r q) =
      let (m, s, le) = On-Ends i (subst (On n t _) (sym e ∙ e') o) r in (m, s, omega arith)

  -- The first cluster of a chain that ends is not met again.
  pub not-On_self : {c d k : ℕ} → InDrive n c → t c ≡ d → Ends n t d k → ¬ On n t c d
  not-On_self {c} {d} {k} i e r o =
      let (j, s, le) = On-Ends i o r in
      let whole = Ends-unique s (more d k i e r refl) in omega (arith, whole, le)

-- The last lines of next_cluster, where both entries are good.
good_entry :
    (a b m : ℕ)
    → 1 < a
    → a < long_bad
    → (b ≡ long_last_cluster) ⊎ ((1 < b) × (b ≤ m))
    → (if ltb a 2 || leb long_bad a
        then a
        else if ltb b 2 || (ltb b long_bad && ltb m b)
        then 1
        else a)
      ≡ a
good_entry a b m low high ok = ground arith

-- next_cluster on a chain that ends gives the entry.
module _ {n : ℕ} {Holds : Drive → (ℕ → ℕ) → Type 0} (T : IsTable n Holds) {v : Drive} {t : ℕ → ℕ}
    (h : Holds v t) where
  pub next_cluster-Ends : {c k : ℕ} → Ends n t c k → next_cluster v c ≡ t c
  unfolding next_cluster
  next_cluster-Ends (last {c} i e q) = rw (T.reads h c i, e) refl
  next_cluster-Ends (more {c} d j i e r q) =
      let i' = Ends-InDrive T.small r in
      let i'' : InDrive n (t c) = subst (InDrive n) (sym e) i' in
      let m = T.last h in
      let second : (t (t c) ≡ long_last_cluster) ⊎ ((1 < t (t c)) × (t (t c) ≤ max_cluster v.dpb)) =
        subst (λ (x : ℕ). (t x ≡ long_last_cluster) ⊎ ((1 < t x) × (t x ≤ max_cluster v.dpb)))
          (sym e) (Ends-entry T.small (omega (arith, m)) r) in
      rw (T.reads h c i, T.reads h (t c) i'')
        (good_entry (t c) (t (t c)) (max_cluster v.dpb) i''.low (omega (arith, i''.high, T.small))
          second)
