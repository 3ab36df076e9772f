-- ===== src/FatFs/Cut.antt =====
-- shrink_file of kernel/fatfs.c, on a file whose chain is longer than its size needs.
use fdpp.Base.{
  ℕ, zero, suc, ◌+◌, ◌-◌, ◌<◌, ◌≡◌, ◌≢◌, refl, sym, ◌∙◌, inr, true, false, leb, ◌==◌, arith,
  ==_false, some,
}
use mathlib.Core.Path.{subst}
use fdpp.FatTab.{Drive, long_last_cluster, long_bad, link_fat, next_cluster}
use fdpp.FatFs.{FNode, getdstart, success, wipe_out_clusters, map_cluster}
use fdpp.FatFs.Table.{IsTable, InDrive, replaced}
use fdpp.FatFs.Chain.{
  Ends, last, more, On, here, later, Ends-InDrive, Ends-unique, On-Ends, not-On_self, beyond,
  next_cluster-Ends,
}
use fdpp.FatFs.Seek.{behind, at_cluster, relcluster, first_cluster, Ends-behind, map_cluster-inside}
use fdpp.FatFs.Shrink.{cut_chain, shrink_file}
use fdpp.FatFs.Wipe.{
  Wiped, replaced_ne, replaced_self, Ends-replaced, On-replaced, On-before, wipe_out_clusters-Wiped,
}

-- The chain from `c` is cut behind its cluster `j`: the clusters behind are free, and the entries of the
-- clusters that are not on the chain are as before.
pub record Cut (n : ℕ) (t t' : ℕ → ℕ) (c j : ℕ) : Type 0 where
  pub kept : Ends n t' c (j + 1)
  pub freed : (x : ℕ) → InDrive n x → On n t x (t (behind t c j)) → t' x ≡ 0
  pub others : (x : ℕ) → ¬ On n t x c → t' x ≡ t x

module _ {n : ℕ} (t t' : ℕ → ℕ) (small : n < long_bad) where
  -- A later cluster of the chain is on it.
  On-behind :
      (j : ℕ) {c k : ℕ} → Ends n t c k → j < k → (x : ℕ) → On n t x (behind t c j) → On n t x c
  unfolding behind
  On-behind zero e lt x o = o
  On-behind (suc j) (last i q one) lt x o = absurd (omega (arith, one, lt))
  On-behind (suc j) {c} (more d m i q r one) lt x o =
      let r' = subst (λ (y : ℕ). Ends n t y m) (sym q) r in
      later (t c) i refl (On-behind j r' (omega (arith, one, lt)) x o)

  -- What is before the cut is kept.
  Ends-cut :
      (j : ℕ) {c k : ℕ}
      → Ends n t c k
      → j < k
      → ((c' l : ℕ) → Ends n t c' l → k - j < l → t' c' ≡ t c')
      → t' (behind t c j) ≡ long_last_cluster
      → Ends n t' c (j + 1)
  unfolding behind
  Ends-cut zero e lt same end = last (Ends-InDrive small e) end (omega arith)
  Ends-cut (suc j) (last i q one) lt same end = absurd (omega (arith, one, lt))
  Ends-cut (suc j) {c} {k} (more d m i q r one) lt same end =
      let r' = subst (λ (y : ℕ). Ends n t y m) (sym q) r in
      let rest =
        Ends-cut j r' (omega (arith, one, lt))
          (λ c' l e longer. same c' l e (omega (arith, one, longer))) end in
      more (t c) (j + 1) i (same c k (more d m i q r one) (omega (arith, lt))) rest (omega arith)

  On-before_cut :
      {c' l m x : ℕ} → Ends n t c' l → InDrive n c' → Ends n t x m → m < l → ¬ On n t c' x
  On-before_cut {l = l} {m = m} e i r longer o =
      let (j, s, le) = On-Ends small i o r in
      let whole = Ends-unique small s e in omega (arith, whole, le, longer)

module _ {n : ℕ} {Holds : Drive → (ℕ → ℕ) → Type 0} (T : IsTable n Holds) {v : Drive} {t : ℕ → ℕ}
    (h : Holds v t) where
  -- The last cluster that is kept is `x`.
  cut_nothing :
      (fuel : ℕ) (f : FNode)
      → (f.dir_size == 0) ≡ false
      → cut_chain fuel true v f long_last_cluster ≡ some (success, v, f)
  unfolding cut_chain
  cut_nothing fuel f size = rw size refl

  cut_some :
      (fuel : ℕ) (f : FNode) (d : ℕ) (v₁ w : Drive)
      → (f.dir_size == 0) ≡ false
      → (d == long_last_cluster) ≡ false
      → link_fat v f.f_cluster long_last_cluster ≡ (0, v₁)
      → wipe_out_clusters fuel v₁ d ≡ some w
      → cut_chain fuel true v f d ≡ some (success, w, f)
  unfolding cut_chain
  cut_some fuel f d v₁ w size inner run wiped =
      rw (size, inner, run, cut_chain, wiped) (rw size refl)

  after_seek :
      (fuel : ℕ) (f g g' : FNode) (w : Drive)
      → 0 < f.f_offset
      → map_cluster v (record f { f_offset = f.f_offset - 1 }) false ≡ some (success, v, g)
      → leb (next_cluster v g.f_cluster) 1 ≡ false
      → cut_chain fuel true v g (next_cluster v g.f_cluster) ≡ some (success, w, g')
      → shrink_file fuel true v f ≡ some (success, w, record g' { f_offset = f.f_offset })
  unfolding shrink_file
  after_seek fuel f g g' w pos sought forward done =
      let some_offset : (f.f_offset == 0) ≡ false = ground (arith, pos) in
      rw (some_offset, shrink_file, sought, forward, done) refl

  -- The chain ends where it is cut.
  ends_there :
      {c k : ℕ} (j : ℕ)
      → Ends n t c k
      → j < k
      → t (behind t c j) ≡ long_last_cluster
      → Cut n t t c j
  ends_there {c} j e lt q = record {
    kept = Ends-cut t t T.small j e lt (λ c' l e' longer. refl) q;
    freed = λ y i o. absurd (beyond T.small i (subst (On n t y) q o));
    others = λ y off. refl;
  }

  -- The cluster behind which the chain is cut is `x`, and the next one `d`.
  module _ {c k j d m : ℕ} (e : Ends n t c k) (lt : j < k) (i : InDrive n (behind t c j))
      (q : t (behind t c j) ≡ d) (r : Ends n t d m) (len : k - j ≡ suc m) {t' : ℕ → ℕ}
      (w : Wiped n (replaced t (behind t c j) long_last_cluster) t' d) where
    abbrev x : ℕ
    x = behind t c j

    off_x : ¬ On n t x d
    off_x = not-On_self T.small i q r

    end_x : t' x ≡ long_last_cluster
    end_x =
        w.others x (λ o. off_x (On-before t x long_last_cluster off_x o))
        ∙ replaced_self t x long_last_cluster

    kept_before : (c' l : ℕ) → Ends n t c' l → k - j < l → t' c' ≡ t c'
    kept_before c' l e' longer =
        let away : c' ≢ x = λ s.
          let same =
            Ends-unique T.small (subst (λ (y : ℕ). Ends n t y l) s e') (more d m i q r refl) in
          omega (arith, same, longer, len) in
        w.others c' (λ o.
          On-before_cut t t' T.small e' (Ends-InDrive T.small e') r (omega (arith, longer, len))
            (On-before t x long_last_cluster off_x o))
        ∙ replaced_ne t x long_last_cluster c' away

    wiped-Cut : Cut n t t' c j
    wiped-Cut = record {
      kept = Ends-cut t t' T.small j e lt kept_before end_x;
      freed =
          λ y i' o. w.freed y i' (On-replaced t x long_last_cluster off_x (subst (On n t y) q o));
      others = λ y off.
          w.others y (λ o. off (
            On-behind t t' T.small j e lt y
              (later d i q (On-before t x long_last_cluster off_x o))))
          ∙ replaced_ne t x long_last_cluster y
              (λ s. off (On-behind t t' T.small j e lt y (here (sym s))));
    }

module _ {n : ℕ} {Holds : Drive → (ℕ → ℕ) → Type 0} (T : IsTable n Holds) {v : Drive} {t : ℕ → ℕ}
    (h : Holds v t) where
  abbrev Result : ℕ → FNode → ℕ → ℕ → Type 0
  Result fuel f c j =
      (v' : Drive) × (t' : ℕ → ℕ) × (shrink_file fuel true v f
        ≡ some (success, v', at_cluster f (behind t c j) j))
      × Holds v' t'
      × Cut n t t' c j

  at_end :
      (fuel : ℕ) (f : FNode) {c k : ℕ} (j : ℕ)
      → 0 < f.f_offset
      → 0 < f.dir_size
      → Ends n t c k
      → j < k
      → map_cluster v (record f { f_offset = f.f_offset - 1 }) false
        ≡ some (success, v, at_cluster (record f { f_offset = f.f_offset - 1 }) (behind t c j) j)
      → Ends n t (behind t c j) (k - j)
      → k < fuel
      → Result fuel f c j
  at_end fuel f {c} {k} j pos size e lt sought (last i q one) enough =
      let g = at_cluster (record f { f_offset = f.f_offset - 1 }) (behind t c j) j in
      let reads = next_cluster-Ends T h (last i q one) ∙ q in
      let not_empty : (f.dir_size == 0) ≡ false = ground (arith, size) in
      (
        v,
        t,
        after_seek T h fuel f g g v pos sought (rw reads refl)
            (rw reads (cut_nothing T h fuel g not_empty)),
        h,
        ends_there T h j e lt q,
      )
  at_end fuel f {c} {k} j pos size e lt sought (more d m i q r one) enough =
      let x = behind t c j in
      let g = at_cluster (record f { f_offset = f.f_offset - 1 }) x j in
      let i' = Ends-InDrive T.small r in
      let reads = next_cluster-Ends T h (more d m i q r one) ∙ q in
      let not_empty : (f.dir_size == 0) ≡ false = ground (arith, size) in
      let inner : d ≢ long_last_cluster = λ s. omega (arith, i'.high, T.small, s) in
      let (v₁, run, h₁) = T.writes h x long_last_cluster i (inr (inr refl)) in
      let off = not-On_self T.small i q r in
      let (v', t', wiped, h', w) =
        wipe_out_clusters-Wiped T fuel h₁ (Ends-replaced t x long_last_cluster off r)
          (omega (arith, one, enough)) in
      let forward : leb d 1 ≡ false = ground (arith, i'.low) in
      (
        v',
        t',
        after_seek T h fuel f g g v' pos sought (rw reads forward) (
            rw reads (
              cut_some T h fuel g d v₁ v' not_empty (==_false d long_last_cluster inner) run
                wiped)),
        h',
        wiped-Cut T h e lt i q r one w,
      )

  -- shrink_file of a file with a size and a place in it, whose chain has a cluster for the byte before the
  -- place, succeeds if the buffers can be flushed. The chain of the file then ends with that
  -- cluster, those behind it are free, and all entries of other chains are as before.
  pub shrink_file-Cut :
      (fuel : ℕ) (f : FNode) {k : ℕ}
      → 0 < f.f_offset
      → 0 < f.dir_size
      → Ends n t (first_cluster v f) k
      → f.f_cluster ≡ behind t (first_cluster v f) f.f_cluster_offset
      → f.f_cluster_offset < k
      → relcluster v (record f { f_offset = f.f_offset - 1 }) < k
      → k < fuel
      → (v' : Drive) × (t' : ℕ → ℕ) × (shrink_file fuel true v f
          ≡ some (
            success,
            v',
            at_cluster f
                (behind t
                  (first_cluster v f)
                  (relcluster v (record f { f_offset = f.f_offset - 1 })))
                (relcluster v (record f { f_offset = f.f_offset - 1 })),
          ))
        × Holds v' t'
        × Cut n t t' (first_cluster v f) (relcluster v (record f { f_offset = f.f_offset - 1 }))
  unfolding getdstart
  shrink_file-Cut fuel f {k} pos size e q lt room enough =
      let f' = record f { f_offset = f.f_offset - 1 } in
      at_end fuel f (relcluster v f') pos size e room (map_cluster-inside T h f' e q lt room)
        (Ends-behind T h f' (relcluster v f') e room) enough
