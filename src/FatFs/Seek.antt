-- ===== src/FatFs/Seek.antt =====
-- map_cluster of kernel/fatfs.c in the mode XFR_READ follows the chain of a file.
use fdpp.Base.{
  ℕ, zero, suc, ◌+◌, ◌-◌, ◌/◌, ◌^◌, ◌≤◌, ◌<◌, ◌≡◌, ◌≢◌, refl, sym, ap, ◌∙◌, inl, inr, false, ltb,
  leb, ◌==◌, if◌then◌else◌, arith, dec_lt, Bool-cases, ==_false, Option, some,
}
use mathlib.Core.Path.{subst}
use fdpp.FatTab.{Drive, long_last_cluster, next_cluster}
use fdpp.FatFs.{FNode, Status, success, de_seek, getdstart, follow, seek, map_cluster}
use fdpp.FatFs.Table.{IsTable, InDrive}
use fdpp.FatFs.Chain.{Ends, last, more, Ends-InDrive, next_cluster-Ends}

-- The j-th cluster behind a cluster, by the entries of a table.
unfoldable pub behind : (ℕ → ℕ) → ℕ → ℕ → ℕ
behind t c zero = c
behind t c (suc j) = behind t (t c) j

-- A file that is at a cluster.
abbrev pub at_cluster : FNode → ℕ → ℕ → FNode
at_cluster f c o = record f { f_cluster = c; f_cluster_offset = o }

module _ {n : ℕ} {Holds : Drive → (ℕ → ℕ) → Type 0} (T : IsTable n Holds) {v : Drive} {t : ℕ → ℕ}
    (h : Holds v t) (f : FNode) where
  follow_to :
      (m o c x : ℕ)
      → next_cluster v c ≡ x
      → leb x 1 ≡ false
      → (x == long_last_cluster) ≡ false
      → follow (suc m) v (at_cluster f c o) false ≡ follow m v (at_cluster f x (o + 1)) false
  unfolding follow
  follow_to m o c x e =
      subst
        (λ (y : ℕ).
          leb y 1 ≡ false
          → (y == long_last_cluster) ≡ false
          → follow (suc m) v (at_cluster f c o) false ≡ follow m v (at_cluster f y (o + 1)) false)
        e (λ forward inner. rw (forward, inner) refl)

  follow_step :
      (m o : ℕ) {c k : ℕ}
      → Ends n t c k
      → InDrive n (t c)
      → follow (suc m) v (at_cluster f c o) false ≡ follow m v (at_cluster f (t c) (o + 1)) false
  follow_step m o {c} e i =
      let not_last : t c ≢ long_last_cluster = λ s. omega (arith, i.high, T.small, s) in
      follow_to m o c (t c) (next_cluster-Ends T h e) (ground (arith, i.low))
        (==_false (t c) long_last_cluster not_last)

  follow_end :
      (m o : ℕ) {c k : ℕ}
      → Ends n t c k
      → t c ≡ long_last_cluster
      → follow (suc m) v (at_cluster f c o) false ≡ some (de_seek, v, at_cluster f c o)
  unfolding follow
  follow_end m o {c} e q = rw (next_cluster-Ends T h e, q) refl

  follow_here :
      (o : ℕ) (c : ℕ) → follow 0 v (at_cluster f c o) false ≡ some (success, v, at_cluster f c o)
  unfolding follow
  follow_here o c = refl

  -- Where the chain is long enough, the cluster is reached; else the last one, with DE_SEEK.
  follow-within :
      (m o : ℕ) {c k : ℕ}
      → Ends n t c k
      → m < k
      → follow m v (at_cluster f c o) false ≡ some (success, v, at_cluster f (behind t c m) (o + m))
  unfolding behind
  follow-within zero o {c} e lt =
      follow_here o c ∙ ap (λ (x : ℕ). some (success, v, at_cluster f c x)) (omega arith)
  follow-within (suc m) o (last i q one) lt = absurd (omega (arith, one, lt))
  follow-within (suc m) o {c} {k} (more d j i q r le) lt =
      let i' = subst (InDrive n) (sym q) (Ends-InDrive T.small r) in
      let r' = subst (λ (x : ℕ). Ends n t x j) (sym q) r in
      follow_step m o (more d j i q r le) i'
      ∙ follow-within m (o + 1) r' (omega (arith, le, lt))
      ∙ ap (λ (x : ℕ). some (success, v, at_cluster f (behind t (t c) m) x)) (omega arith)

  Ends-positive : {c k : ℕ} → Ends n t c k → (j : ℕ) × (k ≡ suc j)
  Ends-positive (last i q one) = (0, one)
  Ends-positive (more d j i q r one) = (j, one)

  follow-past :
      (m o l : ℕ) {c k : ℕ}
      → Ends n t c k
      → k ≡ suc l
      → l < m
      → follow m v (at_cluster f c o) false ≡ some (de_seek, v, at_cluster f (behind t c l) (o + l))
  unfolding behind
  follow-past zero o l e s lt = absurd (omega (arith, lt))
  follow-past (suc m) o l {c} (last i q one) s lt =
      let none_behind : 0 ≡ l = omega (arith, one, s) in
      follow_end m o (last i q one) q
      ∙ ap (λ (x : ℕ). some (de_seek, v, at_cluster f c x)) (omega arith)
      ∙ ap (λ (x : ℕ). some (de_seek, v, at_cluster f (behind t c x) (o + x))) none_behind
  follow-past (suc m) o l {c} {k} (more d j i q r one) s lt =
      let i' = subst (InDrive n) (sym q) (Ends-InDrive T.small r) in
      let r' = subst (λ (x : ℕ). Ends n t x j) (sym q) r in
      let (l', s') = Ends-positive r in
      let same : suc l' ≡ l = omega (arith, one, s, s') in
      follow_step m o (more d j i q r one) i'
      ∙ follow-past m (o + 1) l' r' s' (omega (arith, same, lt))
      ∙ ap (λ (x : ℕ). some (de_seek, v, at_cluster f (behind t (t c) l') x)) (omega arith)
      ∙ ap (λ (x : ℕ). some (de_seek, v, at_cluster f (behind t c x) (o + x))) same

  -- The chain from a cluster further on.
  pub Ends-behind : (j : ℕ) {c k : ℕ} → Ends n t c k → j < k → Ends n t (behind t c j) (k - j)
  unfolding behind
  Ends-behind zero {c} {k} e lt = let same : k ≡ k - 0 = omega arith in subst (Ends n t c) same e
  Ends-behind (suc j) (last i q one) lt = absurd (omega (arith, one, lt))
  Ends-behind (suc j) {c} {k} (more d m i q r one) lt =
      let r' = subst (λ (x : ℕ). Ends n t x m) (sym q) r in
      let same : m - j ≡ k - suc j = omega (arith, one) in
      subst (Ends n t (behind t (t c) j)) same (Ends-behind j r' (omega (arith, one, lt)))

  behind-behind : (a b c : ℕ) → behind t (behind t c a) b ≡ behind t c (a + b)
  unfolding behind
  behind-behind zero b c = let same : b ≡ 0 + b = omega arith in ap (behind t c) same
  behind-behind (suc a) b c =
      let same : suc (a + b) ≡ suc a + b = omega arith in
      behind-behind a b (t c) ∙ ap (behind t c) same

-- Reading from a file whose chain has `k` clusters, for the cluster `rel`.
pub data Sought (v : Drive) (t : ℕ → ℕ) (f : FNode) (start k rel : ℕ)
    : Option (Status × Drive × FNode) → Type 0 where
  inside :
      rel < k → Sought v t f start k rel (some (success, v, at_cluster f (behind t start rel) rel))
  past_end :
      (l : ℕ)
      → k ≡ suc l
      → k ≤ rel
      → Sought v t f start k rel (some (de_seek, v, at_cluster f (behind t start l) l))

abbrev pub relcluster : Drive → FNode → ℕ
relcluster v f = f.f_offset / v.dpb.secsize / 2 ^ v.dpb.shftcnt

abbrev pub first_cluster : Drive → FNode → ℕ
first_cluster v f = if f.f_sft_idx == 0xff then f.dircluster else getdstart v.dpb f

module _ {n : ℕ} {Holds : Drive → (ℕ → ℕ) → Type 0} (T : IsTable n Holds) {v : Drive} {t : ℕ → ℕ}
    (h : Holds v t) (f : FNode) where
  -- From the cluster at an offset that is not behind the one that is sought.
  from_offset :
      (o rel : ℕ) {start k : ℕ}
      → Ends n t start k
      → o < k
      → o ≤ rel
      → Sought v t f start k rel (follow (rel - o) v (at_cluster f (behind t start o) o) false)
  from_offset o rel {start} {k} e lt le =
      let e' = Ends-behind T h f o e lt in
      let (l, s) = Ends-positive T h f e in
      elim (dec_lt rel k) [
        | yes y ↦
            subst (Sought v t f start k rel)
              (sym (
                follow-within T h f (rel - o) o e' (omega (arith, y, le))
                ∙ ap (λ (x : ℕ). some (success, v, at_cluster f x (o + (rel - o))))
                    (behind-behind T h f o (rel - o) start)
                ∙ ap (λ (x : ℕ). some (success, v, at_cluster f (behind t start x) x))
                    (omega (arith, le))))
              (inside y)
        | no no_more ↦
            subst (Sought v t f start k rel)
              (sym (
                follow-past T h f (rel - o) o (l - o) e' (omega (arith, s, lt))
                  (omega (arith, s, no_more, le, lt))
                ∙ ap (λ (x : ℕ). some (de_seek, v, at_cluster f x (o + (l - o))))
                    (behind-behind T h f o (l - o) start)
                ∙ ap (λ (x : ℕ). some (de_seek, v, at_cluster f (behind t start x) x))
                    (omega (arith, s, lt))))
              (past_end l s (omega (arith, no_more)))
      ]

  seek-Sought :
      {k : ℕ}
      → Ends n t (first_cluster v f) k
      → f.f_cluster ≡ behind t (first_cluster v f) f.f_cluster_offset
      → f.f_cluster_offset < k
      → Sought v t f (first_cluster v f) k (relcluster v f) (seek v f false)
  unfolding seek behind
  seek-Sought {k} e q lt = elim (Bool-cases (ltb (relcluster v f) f.f_cluster_offset)) [
    | inl y ↦ rw y (from_offset 0 (relcluster v f) e (omega (arith, lt)) (omega arith))
    | inr x ↦ rw x (
        subst
          (λ (c : ℕ). Sought v t f (first_cluster v f) k (relcluster v f) (
            follow (relcluster v f - f.f_cluster_offset) v (at_cluster f c f.f_cluster_offset)
              false))
          (sym q) (from_offset f.f_cluster_offset (relcluster v f) e lt (ground (arith, x))))
  ]

  has_cluster : (f.f_cluster == 0) ≡ false → map_cluster v f false ≡ seek v f false
  unfolding map_cluster
  has_cluster e = rw (map_cluster, e) refl

  -- map_cluster in the mode XFR_READ, of a file that is at the cluster which its offset names, ends and
  -- changes nothing but the place in the file. It is the cluster of the chain in which f_offset
  -- lies, be it before or behind the place so far; or, with DE_SEEK, the last cluster, if the chain is shorter.
  pub map_cluster-Sought :
      {k : ℕ}
      → Ends n t (first_cluster v f) k
      → f.f_cluster ≡ behind t (first_cluster v f) f.f_cluster_offset
      → f.f_cluster_offset < k
      → Sought v t f (first_cluster v f) k (relcluster v f) (map_cluster v f false)
  map_cluster-Sought {k} e q lt =
      let i = Ends-InDrive T.small (Ends-behind T h f f.f_cluster_offset e lt) in
      let some_cluster : f.f_cluster ≢ 0 = λ z. omega (arith, i.low, q, z) in
      subst (Sought v t f (first_cluster v f) k (relcluster v f))
        (sym (has_cluster (==_false f.f_cluster 0 some_cluster))) (seek-Sought e q lt)

  pub map_cluster-inside :
      {k : ℕ}
      → Ends n t (first_cluster v f) k
      → f.f_cluster ≡ behind t (first_cluster v f) f.f_cluster_offset
      → f.f_cluster_offset < k
      → relcluster v f < k
      → map_cluster v f false
        ≡ some (
          success,
          v,
          at_cluster f (behind t (first_cluster v f) (relcluster v f)) (relcluster v f),
        )
  map_cluster-inside e q lt room = settle (map_cluster-Sought e q lt) room
    where
      settle :
          {start k rel : ℕ} {o : Option (Status × Drive × FNode)}
          → Sought v t f start k rel o
          → rel < k
          → o ≡ some (success, v, at_cluster f (behind t start rel) rel)
      settle (inside _) lt = refl
      settle (past_end l s le) lt = absurd (omega (arith, le, lt))
