-- ===== src/FatFs/Wipe.antt =====
-- wipe_out_clusters of kernel/fatfs.c frees a chain of clusters.
use fdpp.Base.{
  ℕ, zero, suc, ◌<◌, ◌≡◌, ◌≢◌, refl, sym, ◌∙◌, inl, false, leb, if◌then◌else◌, arith, ==_iff,
  ==_false, by_test, some,
}
use mathlib.Core.Path.{subst}
use fdpp.FatTab.{Drive, is_fat32, long_last_cluster, long_bad, write_fsinfo, link_fat}
use fdpp.FatFs.{lower_hint, wipe_out_clusters}
use fdpp.FatFs.Table.{IsTable, InDrive, replaced}
use fdpp.FatFs.Chain.{
  Ends, last, more, On, here, later, Ends-InDrive, beyond, not-On_self, next_cluster-Ends,
}

module _ (t : ℕ → ℕ) (c value : ℕ) where
  pub replaced_ne : (d : ℕ) → d ≢ c → replaced t c value d ≡ t d
  replaced_ne d ne = rw (==_false d c ne) refl

  pub replaced_self : replaced t c value c ≡ value
  replaced_self = rw ((==_iff c c).1 refl) refl

  module _ {n : ℕ} where
    -- A chain that does not meet the cluster is as before.
    pub Ends-replaced : {d k : ℕ} → ¬ On n t c d → Ends n t d k → Ends n (replaced t c value) d k
    Ends-replaced off (last {c = d} i e q) = last i (replaced_ne d (λ s. off (here s)) ∙ e) q
    Ends-replaced off (more {c = d} d' j i e r q) =
        more d' j i (replaced_ne d (λ s. off (here s)) ∙ e)
          (Ends-replaced (λ o. off (later d' i e o)) r) q

    pub On-replaced : {x d : ℕ} → ¬ On n t c d → On n t x d → On n (replaced t c value) x d
    On-replaced off (here e) = here e
    On-replaced off (later {c = d} d' i e o) =
        later d' i (replaced_ne d (λ s. off (here s)) ∙ e)
          (On-replaced (λ p. off (later d' i e p)) o)

    pub On-before : {x d : ℕ} → ¬ On n t c d → On n (replaced t c value) x d → On n t x d
    On-before off (here e) = here e
    On-before off (later {c = d} d' i e o) =
        let e' : t d ≡ d' = sym (replaced_ne d (λ s. off (here s))) ∙ e in
        later d' i e' (On-before (λ p. off (later d' i e' p)) o)

-- The chain from `c` is free, and the other entries are kept.
pub record Wiped (n : ℕ) (t t' : ℕ → ℕ) (c : ℕ) : Type 0 where
  pub freed : (x : ℕ) → InDrive n x → On n t x c → t' x ≡ 0
  pub others : (x : ℕ) → ¬ On n t x c → t' x ≡ t x

module _ {n : ℕ} {t : ℕ → ℕ} {c : ℕ} (small : n < long_bad) (i : InDrive n c) where
  Wiped-last : t c ≡ long_last_cluster → Wiped n t (replaced t c 0) c
  Wiped-last e = record {
    freed = λ x j o. freed_last x j o;
    others = λ x off. replaced_ne t c 0 x (λ s. off (here (sym s)));
  }
    where
      freed_last : (x : ℕ) → InDrive n x → On n t x c → replaced t c 0 x ≡ 0
      freed_last x j (here s) = subst (λ (y : ℕ). replaced t c 0 y ≡ 0) s (replaced_self t c 0)
      freed_last x j (later d _ q o) = absurd (beyond small j (subst (On n t x) (sym q ∙ e) o))

  Wiped-more :
      {d : ℕ} {t' : ℕ → ℕ} → t c ≡ d → ¬ On n t c d → Wiped n (replaced t c 0) t' d → Wiped n t t' c
  Wiped-more {d} {t'} e off w = record {
    freed = λ x j o. freed_more x j o;
    others = λ x away.
        w.others x (λ o. away (later d i e (On-before t c 0 off o)))
        ∙ replaced_ne t c 0 x (λ s. away (here (sym s)));
  }
    where
      freed_more : (x : ℕ) → InDrive n x → On n t x c → t' x ≡ 0
      freed_more x j (here s) =
          subst (λ (y : ℕ). t' y ≡ 0) s
            (w.others c (λ o. off (On-before t c 0 off o)) ∙ replaced_self t c 0)
      freed_more x j (later d' _ q o) =
          w.freed x j (On-replaced t c 0 off (subst (On n t x) (sym q ∙ e) o))

module _ {n : ℕ} {Holds : Drive → (ℕ → ℕ) → Type 0} (T : IsTable n Holds) where
  wipe_step :
      (f : ℕ) {v v₁ : Drive} {t : ℕ → ℕ} {c k : ℕ}
      → Holds v t
      → Ends n t c k
      → 1 < t c
      → link_fat v c 0 ≡ (0, v₁)
      → wipe_out_clusters (suc f) v c ≡ wipe_out_clusters f (lower_hint v₁ c) (t c)
  unfolding wipe_out_clusters
  wipe_step f {v} {v₁} {t} {c} h e good run =
      let i = Ends-InDrive T.small e in
      let not_last : c ≢ long_last_cluster = λ s. omega (arith, i.high, T.small, s) in
      let forward : leb (t c) 1 ≡ false = ground (arith, good) in
      rw (==_false c long_last_cluster not_last, next_cluster-Ends T h e, run, forward) refl

  wipe_end :
      (f : ℕ) {v : Drive} {t : ℕ → ℕ}
      → Holds v t
      → 0 < f
      → (v' : Drive) × (wipe_out_clusters f v long_last_cluster ≡ some v') × Holds v' t
  unfolding wipe_out_clusters
  wipe_end zero h pos = absurd (omega arith)
  wipe_end (suc f) {v} {t} h pos = (
    if is_fat32 v.dpb then write_fsinfo v else v,
    refl,
    by_test (λ (w : Drive). Holds w t) (is_fat32 v.dpb) _ _ (λ y. T.stored h) (λ x. h),
  )

  -- wipe_out_clusters on a chain that ends, with more rounds than it has clusters, ends. Every cluster
  -- of the chain is free then, and all other entries of the FAT are as before.
  pub wipe_out_clusters-Wiped :
      (f : ℕ) {v : Drive} {t : ℕ → ℕ} {c k : ℕ}
      → Holds v t
      → Ends n t c k
      → k < f
      → (v' : Drive) × (t' : ℕ → ℕ) × (wipe_out_clusters f v c ≡ some v')
        × Holds v' t'
        × Wiped n t t' c
  wipe_out_clusters-Wiped zero h e enough = absurd (omega (arith, enough))
  wipe_out_clusters-Wiped (suc f) {v} {t} {c} h (last i e q) enough =
      let (v₁, run, h₁) = T.writes h c 0 i (inl refl) in
      let (v', stop, h') = wipe_end f (T.lowered h₁ c) (omega arith) in
      let step = wipe_step f h (last i e q) (omega (arith, e)) run in
      (v', replaced t c 0, step ∙ rw e stop, h', Wiped-last T.small i e)
  wipe_out_clusters-Wiped (suc f) {v} {t} {c} h (more d j i e r q) enough =
      let (v₁, run, h₁) = T.writes h c 0 i (inl refl) in
      let off = not-On_self T.small i e r in
      let i' = Ends-InDrive T.small r in
      let rest =
        wipe_out_clusters-Wiped f (T.lowered h₁ c) (Ends-replaced t c 0 off r) (omega arith) in
      let step = wipe_step f h (more d j i e r q) (rw e i'.low) run in
      (rest.0, rest.1, step ∙ rw e rest.2, rest.3, Wiped-more T.small i e off rest.4)
