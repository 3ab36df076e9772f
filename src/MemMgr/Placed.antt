-- ===== src/MemMgr/Placed.antt =====
-- Where DosMemAlloc puts the new block: the split of the block found, and its new owner.
use mathlib.Core.Path.{subst}
use fdpp.Base.{
  ℕ, ◌+◌, ◌-◌, ◌≤◌, ◌<◌, ◌≡◌, ◌≢◌, refl, sym, ap, ◌∙◌, inl, inr, ◌||◌, ℕ_discrete, arith,
  Bool-cases, ◌==◌,
}
use fdpp.MemMgr.{Mem, Mcb, mcb_normal}
use fdpp.MemMgr.Alloc.{split, split_first, split_last, claim, from_end, largest_mode}
use fdpp.MemMgr.Chain.{
  Chain, At, Evolves, At-gap, Chain-lt, Chain-at, Anywhere, Evolves-trans, Evolves-spare,
  Evolves-At, At-below, At-step,
}
use fdpp.MemMgr.Local.{one-Evolves, two-Evolves}

-- In `m'` the chain has a block at `x` that belongs to `psp`, where no block was in use before; all
-- other blocks in use are as in `m`.
pub record Placed (m m' : Mem) (e a x psp : ℕ) : Type 0 where
  pub evolves : Evolves (λ y. y ≢ x) m m' e a
  pub at : At m' x a
  pub owner : (m' x).m_psp ≡ psp
  pub unused : At m x a → (m x).m_psp ≡ 0

-- Blocks may be joined before.
pub Placed-after :
    {m n m' : Mem} {e a x psp : ℕ}
    → Evolves Anywhere m n e a
    → Placed n m' e a x psp
    → Placed m m' e a x psp
Placed-after {m} {x} ev p = record {
  evolves = Evolves-trans (Evolves-spare ev) p.evolves;
  at = p.at;
  owner = p.owner;
  unused = λ r. elim (ℕ_discrete (m x).m_psp 0) [
    | yes z ↦ z
    | no u ↦
        let k = ev.kept x r u tt in absurd (u (sym (ap (λ (z : Mcb). z.m_psp) k.1) ∙ p.unused k.0))
  ];
}

-- A free block of the chain, at which DosMemAlloc places the new one.
module _ {m : Mem} {e a f : ℕ} (c : Chain m e a) (at : At m f a) (free : (m f).m_psp ≡ 0)
    (high : e ≤ 0x1_0000) (psp : ℕ) where
  here-Placed :
      (m' : Mem) → Evolves (λ y. y ≢ f) m m' e f → (m' f).m_psp ≡ psp → Placed m m' e a f psp
  here-Placed m' ev owner = record {
    evolves = Evolves-At at ev;
    at = At-below at λ y h. ev.frame y (inl h);
    owner = owner;
    unused = λ _. free;
  }

  -- The whole block.
  claimed : (claim m f psp f).m_size ≡ (m f).m_size
  unfolding claim
  claimed = ground arith

  claim-Placed : Placed m (claim m f psp) e a f psp
  unfolding claim
  claim-Placed =
      here-Placed (claim m f psp)
        (one-Evolves m (claim m f psp) e f (Chain-at c at) (λ u s. s refl) (λ u s. s refl)
          (ground arith) (ground arith) (λ y h. ground arith))
        (ground arith)

  module _ (size : ℕ) (small : size < (m f).m_size) where
    -- Its first part.
    first-Placed :
        let m' = claim (split_first m f size).0 f psp in
        Placed m m' e a f psp × ((m' f).m_size ≡ size)
    unfolding claim split_first
    first-Placed =
        let m' = claim (split_first m f size).0 f psp in
        let d = Chain-lt (Chain-at c at) in
        (
          here-Placed m'
              (two-Evolves m m' e f (Chain-at c at) (λ u s. s refl) (λ u s. s refl) (f + size + 1)
                (ground arith) (ground arith) (ground arith) (ground arith)
                (λ u. absurd (u (ground arith))) (λ y h k. ground arith))
              (ground arith),
          ground arith,
        )

    abbrev last : ℕ
    last = f + (m f).m_size - size

    -- The block behind which the last part begins.
    abbrev cut_last : Mem
    cut_last = claim (split_last m f size).0 last psp

    last_start : (split_last m f size).1 ≡ last
    unfolding split_last
    last_start = let d = Chain-lt (Chain-at c at) in omega arith

    cut_last-front :
        cut_last f
        ≡ record (m f) { m_type = mcb_normal; m_size = (m f).m_size - size - 1; m_psp = 0 }
    unfolding claim split_last
    cut_last-front = let d = Chain-lt (Chain-at c at) in ground arith

    cut_last-back :
        ((cut_last last).m_type ≡ (m f).m_type)
        × ((cut_last last).m_size ≡ size)
        × ((cut_last last).m_psp ≡ psp)
    unfolding claim split_last
    cut_last-back = let d = Chain-lt (Chain-at c at) in ground arith

    cut_last-ne : (y : ℕ) → y ≢ f → y ≢ last → cut_last y ≡ m y
    unfolding claim split_last
    cut_last-ne y h k = let d = Chain-lt (Chain-at c at) in ground arith

    -- Its last part.
    last-Placed : Placed m cut_last e a last psp × ((cut_last last).m_size ≡ size)
    last-Placed =
        let b = cut_last-back in
        let size_eq = ap (λ (z : Mcb). z.m_size) cut_last-front in
        let ev =
          two-Evolves {S = λ y. y ≢ last} m cut_last e f (Chain-at c at) (λ u s. u free)
            (λ u s. u (ap (λ (z : Mcb). z.m_psp) cut_last-front)) last (omega arith)
            (ap (λ (z : Mcb). z.m_type) cut_last-front) b.0 (omega arith) (λ u s. s refl)
            cut_last-ne in
        (
          record {
            evolves = Evolves-At at ev;
            at =
                subst (λ y. At cut_last y a) (omega arith)
                  (At-step (At-below at λ y h. ev.frame y (inl h))
                    (ap (λ (z : Mcb). z.m_type) cut_last-front));
            owner = b.2;
            unused = λ r. absurd (omega (arith, At-gap r at (omega arith)));
          },
          b.1,
        )

  -- Whatever the mode, behind stopIt.
  pub split-Placed :
      (mode size : ℕ)
      → (mode ≢ largest_mode → size ≤ (m f).m_size)
      → let (n, x) = split mode size m f in
        let m' = claim n x psp in
        Placed m m' e a x psp
        × (mode ≢ largest_mode → (m' x).m_size ≡ size)
        × (mode ≡ largest_mode → (m' x).m_size ≡ (m f).m_size)
  unfolding split split_first
  split-Placed mode size fits = elim (Bool-cases (mode == largest_mode || size == (m f).m_size)) [
    | inl whole ↦ rw whole (claim-Placed, (λ h. claimed ∙ ground arith), λ h. claimed)
    | inr part ↦
        let small : size < (m f).m_size = ground (arith, fits) in
        let ne : mode ≢ largest_mode = ground arith in
        elim (Bool-cases (from_end mode)) [
          | inl back ↦
              let r = last-Placed size small in
              rw (part, back, last_start size small) (r.0, (λ h. r.1), λ h. absurd (ne h))
          | inr front ↦
              let r = first-Placed size small in
              rw (part, front) (r.0, (λ h. r.1), λ h. absurd (ne h))
        ]
  ]
