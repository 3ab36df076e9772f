-- ===== src/FatFs/Extend.antt =====
-- extend of kernel/fatfs.c: a file gets one cluster more.
use fdpp.Base.{
  ℕ, ◌+◌, ◌<◌, ◌≡◌, ◌≢◌, refl, sym, ap, ◌∙◌, ◌⊎◌, inl, inr, arith, ==_false, Option, some,
}
use mathlib.Core.Path.{subst}
use fdpp.FatTab.{Drive, long_last_cluster, long_bad, next_cluster}
use fdpp.FatFs.{FNode, setdstart, extend, extend_by, hint}
use fdpp.FatFs.Table.{IsTable, InDrive, replaced}
use fdpp.FatFs.Chain.{
  Ends, last, more, On, here, later, beyond, Ends-InDrive, Ends-unique, next_cluster-Ends,
}
use fdpp.FatFs.Free.{Found, free_cluster, disk_full, IsHint, find_fat_free-Found}
use fdpp.FatFs.Wipe.{replaced_ne, replaced_self}

-- The table behind a cluster `free` was chained to the last cluster `c`.
abbrev pub chained : (ℕ → ℕ) → ℕ → ℕ → ℕ → ℕ
chained t c free = replaced (replaced t free long_last_cluster) c free

module _ {n : ℕ} (t : ℕ → ℕ) {c free : ℕ} (small : n < long_bad) (i : InDrive n c)
    (j : InDrive n free) (end : t c ≡ long_last_cluster) (unused : t free ≡ 0) where
  differs : c ≢ free
  differs e = omega (arith, end, unused, ap t e)

  chained_free : chained t c free free ≡ long_last_cluster
  chained_free =
      replaced_ne (replaced t free long_last_cluster) c free free (λ e. differs (sym e))
      ∙ replaced_self t free long_last_cluster

  chained_other : (x : ℕ) → x ≢ c → x ≢ free → chained t c free x ≡ t x
  chained_other x p q =
      replaced_ne (replaced t free long_last_cluster) c free x p
      ∙ replaced_ne t free long_last_cluster x q

  -- The chain of the file grows by one cluster.
  pub Ends-chained : {st k : ℕ} → On n t c st → Ends n t st k → Ends n (chained t c free) st (k + 1)
  Ends-chained {st} {k} (here e) r =
      let one = Ends-unique small (subst (λ (x : ℕ). Ends n t x k) e r) (last i end refl) in
      let to_free = replaced_self (replaced t free long_last_cluster) c free in
      subst (λ (x : ℕ). Ends n (chained t c free) x (k + 1)) (sym e)
        (more free 1 i to_free (last j chained_free refl) (omega (arith, one)))
  Ends-chained (later d i' e o) (last i'' e'' q) =
      absurd (beyond small i (subst (On n t c) (sym e ∙ e'') o))
  Ends-chained {st} {k} (later d i' e o) (more d' k' i'' e'' r q) =
      let not_last : st ≢ c = λ s. beyond small i (subst (On n t c) (sym e ∙ ap t s ∙ end) o) in
      let next_one = Ends-InDrive small r in
      let not_free : st ≢ free = λ s. omega (arith, next_one.low, sym e'' ∙ ap t s ∙ unused) in
      more d' (k' + 1) i'' (chained_other st not_last not_free ∙ e'')
        (Ends-chained (subst (On n t c) (sym e ∙ e'') o) r) (omega arith)

-- How extend ends: with a free cluster that is the first or the next one of the file, or with the disk
-- full and the FAT as it was.
pub data Extended (n : ℕ) (Holds : Drive → (ℕ → ℕ) → Type 0) (t : ℕ → ℕ) (f : FNode)
    : ℕ → Drive → FNode → Type 0 where
  first_one :
      {v' : Drive} (free : ℕ)
      → f.f_cluster ≡ 0
      → InDrive n free
      → t free ≡ 0
      → Holds v' (replaced t free long_last_cluster)
      → Extended n Holds t f free v' (setdstart f free)
  next_one :
      {v' : Drive} (free : ℕ)
      → InDrive n f.f_cluster
      → InDrive n free
      → t free ≡ 0
      → Holds v' (chained t f.f_cluster free)
      → Extended n Holds t f free v' f
  full :
      {v' : Drive}
      → ((c : ℕ) → InDrive n c → t c ≢ 0)
      → Holds v' t
      → Extended n Holds t f long_last_cluster v' f

module _ {n : ℕ} {Holds : Drive → (ℕ → ℕ) → Type 0} (T : IsTable n Holds) where
  abbrev Result : (ℕ → ℕ) → FNode → Option (ℕ × Drive × FNode) → Type 0
  Result t f o =
      (r : ℕ) × (v' : Drive) × (f' : FNode) × (o ≡ some (r, v', f')) × Extended n Holds t f r v' f'

  extend_full :
      {v : Drive} {t : ℕ → ℕ} (f : FNode)
      → Holds v t
      → ((c : ℕ) → InDrive n c → t c ≢ 0)
      → Result t f (extend_by f (some (long_last_cluster, v)))
  unfolding extend_by
  extend_full {v} f h none_free = (long_last_cluster, v, f, refl, full none_free h)

  extend_first :
      {v : Drive} {t : ℕ → ℕ} (f : FNode) (free : ℕ)
      → Holds v t
      → InDrive n free
      → t free ≡ 0
      → f.f_cluster ≡ 0
      → Result t f (extend_by f (some (free, v)))
  unfolding extend_by
  extend_first {v} {t} f free h j unused e =
      let (v₁, run, h₁) = T.writes h free long_last_cluster j (inr (inr refl)) in
      let usual : free ≢ long_last_cluster = λ s. omega (arith, j.high, T.small, s) in
      (
        free,
        v₁,
        setdstart f free,
        rw (==_false free long_last_cluster usual, run, e) refl,
        first_one free e j unused h₁,
      )

  extend_next :
      {v : Drive} {t : ℕ → ℕ} (f : FNode) (free : ℕ)
      → Holds v t
      → InDrive n free
      → t free ≡ 0
      → InDrive n f.f_cluster
      → t f.f_cluster ≡ long_last_cluster
      → Result t f (extend_by f (some (free, v)))
  unfolding extend_by
  extend_next {v} {t} f free h j unused i end =
      let c = f.f_cluster in
      let (v₁, run, h₁) = T.writes h free long_last_cluster j (inr (inr refl)) in
      let (v₂, run₂, h₂) = T.writes h₁ c free i (inr (inl j)) in
      let usual : free ≢ long_last_cluster = λ s. omega (arith, j.high, T.small, s) in
      let not_empty : c ≢ 0 = λ s. omega (arith, i.low, s) in
      let still : replaced t free long_last_cluster c ≡ long_last_cluster =
        replaced_ne t free long_last_cluster c (differs t T.small i j end unused) ∙ end in
      let reads : next_cluster v₁ c ≡ long_last_cluster =
        next_cluster-Ends T h₁ (last i still refl) ∙ still in
      (
        free,
        v₂,
        f,
        rw (==_false free long_last_cluster usual, run, ==_false c 0 not_empty, reads, run₂) refl,
        next_one free i j unused h₂,
      )

  by-Found :
      {t : ℕ → ℕ} (f : FNode) {idx : ℕ} {w : Drive} (h : Holds w t)
      → (f.f_cluster ≡ 0) ⊎ (InDrive n f.f_cluster × (t f.f_cluster ≡ long_last_cluster))
      → Found n t idx
      → Result t f (extend_by f (some (idx, w)))
  by-Found f h file (free_cluster c j e) = elim file [
    | inl empty ↦ extend_first f c h j e empty
    | inr (i, end) ↦ extend_next f c h j e i end
  ]
  by-Found f h file (disk_full none_free) = extend_full f h none_free

  -- extend of a file that is empty, or is at its last cluster, ends. It chains a cluster that was
  -- free to the file and changes no other entry of the FAT, or no cluster is free and the FAT is as it
  -- was. The remembered free cluster has to be unknown or one of the drive.
  pub extend-Extended :
      {v : Drive} {t : ℕ → ℕ} (f : FNode)
      → Holds v t
      → 1 < n
      → IsHint n (hint v.dpb)
      → (f.f_cluster ≡ 0) ⊎ (InDrive n f.f_cluster × (t f.f_cluster ≡ long_last_cluster))
      → (r : ℕ) × (v' : Drive) × (f' : FNode) × (extend v f ≡ some (r, v', f'))
        × Extended n Holds t f r v' f'
  unfolding extend
  extend-Extended f h some_one ok file =
      let (idx, w, run, h', found) = find_fat_free-Found T h some_one ok in
      rw run (by-Found f h' file found)
