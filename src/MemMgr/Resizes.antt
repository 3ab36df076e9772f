-- ===== src/MemMgr/Resizes.antt =====
-- DosMemChange resizes the block that it is given, and changes no other block in use.
use mathlib.Core.Path.{subst}
use fdpp.Base.{
  ltb, ℕ, ◌+◌, ◌-◌, ◌%◌, ◌≤◌, ◌<◌, ◌≡◌, ◌≢◌, refl, ap, ◌∙◌, inl, inr, true, Option, none, some,
  arith, Bool-cases, ltb→lt,
}
use fdpp.MemMgr.{
  Mem, Mcb, Status, write, success, de_nomem, next_mcb_size, mcb_valid, mcb_normal, fuel, join_mcbs,
}
use fdpp.MemMgr.Ops.{grow, cut, shrink, dos_mem_change}
use fdpp.MemMgr.Chain.{
  Chain, At, Evolves, At-le, Chain-lt, Chain-at, Evolves-refl, Evolves-trans, Evolves-At, At-step,
  At-below,
}
use fdpp.MemMgr.Local.{one-Evolves, two-Evolves}
use fdpp.MemMgr.Join.{Chain-valid, Joined, join_mcbs-Joined}

abbrev pub But : ℕ → ℕ → Type 0
But p y = y ≢ p

-- How growing ends: the block is large enough, or as large as it can be and still too small.
data Grown (m : Mem) (e p size : ℕ) : Mem × Status × Option ℕ → Type 0 where
  enough :
      {m' : Mem}
      → Evolves (But p) m m' e p
      → size ≤ (m' p).m_size
      → Grown m e p size (m', success, none)
  short :
      {m' : Mem}
      → Joined (But p) m e p m'
      → (m' p).m_size < size
      → Grown m e p size (m', de_nomem, some (m' p).m_size)

grow-Grown :
    (m : Mem) (e p size : ℕ)
    → Chain m e p
    → 0 < p
    → e ≤ 0x1_0000
    → (r : Mem × Status × Option ℕ) × (grow m p size ≡ some r) × Grown m e p size r
unfolding grow
grow-Grown m e p size c low high = elim (Bool-cases (ltb (m p).m_size size)) [
  | inr large ↦ (_, rw large refl, Grown.enough (Evolves-refl c) (ground arith))
  | inl small ↦
      let (m', run, j) =
        join_mcbs-Joined {S = But p} fuel m p e high low c (omega (arith, Chain-lt c))
          (λ u k. k refl) in
      elim (Bool-cases (ltb (m' p).m_size size)) [
        | inl still ↦ (
          (m', de_nomem, some (m' p).m_size),
          rw small (rw run (rw still refl)),
          Grown.short j (ltb→lt _ _ still),
        )
        | inr now ↦ (
          (m', success, none),
          rw small (rw run (rw now refl)),
          Grown.enough j.evolves (ground arith),
        )
      ]
]

-- The cut behind the first `size` paragraphs of a larger block.
module _ (m : Mem) (e p size : ℕ) (c : Chain m e p) (high : e ≤ 0x1_0000)
    (small : size < (m p).m_size) where
  abbrev q : ℕ
  q = p + size + 1

  cut_start : next_mcb_size p size ≡ q
  cut_start = omega (arith, Chain-lt c)

  cut_self : cut m p size p ≡ record (m p) { m_size = size; m_type = mcb_normal }
  unfolding cut
  cut_self = let d = Chain-lt c in ground arith

  cut_new :
      ((cut m p size q).m_type ≡ (m p).m_type)
      × ((cut m p size q).m_size ≡ (m p).m_size - size - 1)
      × ((cut m p size q).m_psp ≡ 0)
  unfolding cut
  cut_new = let d = Chain-lt c in ground arith

  cut_ne : (y : ℕ) → y ≢ p → y ≢ q → cut m p size y ≡ m y
  unfolding cut
  cut_ne y h k = let d = Chain-lt c in ground arith

  cut-Evolves : Evolves (But p) m (cut m p size) e p
  cut-Evolves =
      let n = cut_new in
      two-Evolves m (cut m p size) e p c (λ u k. k refl) (λ u k. k refl) q (rw cut_self refl)
        (rw cut_self refl) n.0 (rw cut_self (omega arith)) (λ u. absurd (u n.2)) cut_ne

-- The new owner of the block.
own-Evolves :
    (m : Mem) (e p psp : ℕ)
    → Chain m e p
    → let m' = write m p (record (m p) { m_psp = psp }) in
      Evolves (But p) m m' e p × ((m' p).m_psp ≡ psp) × ((m' p).m_size ≡ (m p).m_size)
unfolding write
own-Evolves m e p psp c =
    let m' = write m p (record (m p) { m_psp = psp }) in
    (
      one-Evolves m m' e p c (λ u k. k refl) (λ u k. k refl) (ground arith) (ground arith)
          (λ y h. ground arith),
      ground arith,
      ground arith,
    )

record Shrunk (m : Mem) (e p size psp : ℕ) (m' : Mem) : Type 0 where
  evolves : Evolves (But p) m m' e p
  owner : (m' p).m_psp ≡ psp
  exact : (m' p).m_size ≡ size

shrink_run :
    (m : Mem) (p size psp q : ℕ) (m' : Mem)
    → ltb size (m p).m_size ≡ true
    → next_mcb_size p size ≡ q
    → join_mcbs fuel (cut m p size) q ≡ some (success, m')
    → shrink m p size psp ≡ some (write m' p (record (m' p) { m_psp = psp }), success)
unfolding shrink
shrink_run m p size psp q m' less start run = rw less (rw start (rw run refl))

shrink-Shrunk :
    (m : Mem) (e p size psp : ℕ)
    → Chain m e p
    → 0 < p
    → e ≤ 0x1_0000
    → size ≤ (m p).m_size
    → (m' : Mem) × (shrink m p size psp ≡ some (m', success)) × Shrunk m e p size psp m'
unfolding shrink
shrink-Shrunk m e p size psp c low high fits = elim (Bool-cases (ltb size (m p).m_size)) [
  | inr same ↦
      let o = own-Evolves m e p psp c in
      (_, rw same refl, record { evolves = o.0; owner = o.1; exact = o.2 ∙ ground arith })
  | inl less ↦
      let small = ltb→lt _ _ less in
      let ev = cut-Evolves m e p size c high small in
      let n = cut_new m e p size c high small in
      let start = cut_start m e p size c high small in
      let self = cut_self m e p size c high small in
      let next = At-step {m = cut m p size} (At.here {a = p} refl) (rw self refl) in
      let at : At (cut m p size) (p + size + 1) p =
        subst (λ z. At (cut m p size) (p + z + 1) p) (rw self refl) next in
      let (m', run, j) =
        join_mcbs-Joined {S = But p} fuel (cut m p size) (p + size + 1) e high (omega arith)
          (Chain-at ev.chain at) (omega (arith, Chain-lt (Chain-at ev.chain at)))
          (λ u. absurd (u n.2)) in
      let same : m' p ≡ cut m p size p = j.evolves.frame p (inl (omega arith)) in
      let joined = Evolves-At at j.evolves in
      let o = own-Evolves m' e p psp joined.chain in
      (
        write m' p (record (m' p) { m_psp = psp }),
        shrink_run m p size psp (p + size + 1) m' less start run,
        record {
          evolves = Evolves-trans ev (Evolves-trans joined o.0);
          owner = o.1;
          exact = o.2 ∙ ap (λ (z : Mcb). z.m_size) (same ∙ self);
        },
      )
]

-- How DosMemChange ends at a block of an intact chain. It succeeds, and the block has exactly the
-- size requested and belongs to the current process. Or the block is still too small although it
-- has taken in all free blocks that follow: then its owner stays, and `*maxSize` is its size.
pub data Changed (m : Mem) (e a p psp size : ℕ) (m' : Mem) : Status → Option ℕ → Type 0 where
  resized : (m' p).m_psp ≡ psp → (m' p).m_size ≡ size → Changed m e a p psp size m' success none
  too_large :
      (m' p).m_psp ≡ (m p).m_psp
      → (m p).m_size ≤ (m' p).m_size
      → (m' p).m_size < size
      → (Chain m' e (p + (m' p).m_size + 1) → (m' (p + (m' p).m_size + 1)).m_psp ≢ 0)
      → Changed m e a p psp size m' de_nomem (some (m' p).m_size)

module _ (m : Mem) (psp p size : ℕ) where
  -- The run of DosMemChange, from those of its parts.
  change_grown :
      (m' : Mem) (max : Option ℕ) (n : Mem)
      → (p + 1 + 0xffff) % 0x1_0000 ≡ p
      → mcb_valid (m p) ≡ true
      → grow m p size ≡ some (m', success, max)
      → shrink m' p size psp ≡ some (n, success)
      → dos_mem_change m psp (p + 1) size ≡ some (n, success, none)
  unfolding dos_mem_change
  change_grown m' max n para ok run sh = rw para (rw ok (rw run (rw para (rw sh refl))))

  change_short :
      (m' : Mem) (max : Option ℕ)
      → (p + 1 + 0xffff) % 0x1_0000 ≡ p
      → mcb_valid (m p) ≡ true
      → grow m p size ≡ some (m', de_nomem, max)
      → dos_mem_change m psp (p + 1) size ≡ some (m', de_nomem, max)
  unfolding dos_mem_change
  change_short m' max para ok run = rw para (rw ok (rw run refl))

  abbrev Result : ℕ → ℕ → Type 0
  Result e a =
      (m' : Mem) × (status : Status) × (max : Option ℕ) × (dos_mem_change m psp (p + 1) size
        ≡ some (m', status, max))
      × Evolves (But p) m m' e a
      × At m' p a
      × Changed m e a p psp size m' status max

  change_after :
      {e a : ℕ}
      → Chain m e a
      → At m p a
      → 0 < p
      → e ≤ 0x1_0000
      → (p + 1 + 0xffff) % 0x1_0000 ≡ p
      → mcb_valid (m p) ≡ true
      → (r : Mem × Status × Option ℕ) → grow m p size ≡ some r
      → Grown m e p size r
      → Result e a
  change_after c at pos high para ok r run (Grown.enough {m'} ev fits) =
      let (n, sh, s) = shrink-Shrunk m' _ p size psp ev.chain pos high fits in
      let all = Evolves-trans ev s.evolves in
      (
        n,
        success,
        none,
        change_grown m' none n para ok run sh,
        Evolves-At at all,
        At-below at (λ y h. all.frame y (inl h)),
        Changed.resized s.owner s.exact,
      )
  change_after c at pos high para ok r run (Grown.short {m'} j small) = (
    m',
    de_nomem,
    some (m' p).m_size,
    change_short m' (some (m' p).m_size) para ok run,
    Evolves-At at j.evolves,
    At-below at (λ y h. j.evolves.frame y (inl h)),
    Changed.too_large j.owner j.size small j.maximal,
  )

-- DosMemChange at the block with the MCB at `p` of an intact chain ends as `Changed` says. The
-- chain stays intact, the block stays where it was, and every other block in use is kept.
pub dos_mem_change_lem :
    {m : Mem} {e a : ℕ} (psp p size : ℕ)
    → Chain m e a
    → At m p a
    → 0 < a
    → e ≤ 0x1_0000
    → (m' : Mem) × (status : Status) × (max : Option ℕ) × (dos_mem_change m psp (p + 1) size
        ≡ some (m', status, max))
      × Evolves (But p) m m' e a
      × At m' p a
      × Changed m e a p psp size m' status max
dos_mem_change_lem {m} {e} {a} psp p size c at low high =
    let d = Chain-at c at in
    let pos : 0 < p = omega (arith, At-le at) in
    let para : (p + 1 + 0xffff) % 0x1_0000 ≡ p = omega (arith, Chain-lt d) in
    let (r, run, g) = grow-Grown m e p size d pos high in
    change_after m psp p size c at pos high para (Chain-valid d pos high) r run g
