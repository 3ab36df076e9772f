-- ===== src/MemMgr/Local.antt =====
-- Changes of one block of the chain: a new owner, and a split in two.
use mathlib.Core.Path.{subst}
use fdpp.Base.{ℕ, ◌+◌, ◌≤◌, ◌≡◌, ◌≢◌, refl, sym, ap, ◌∙◌, inl, inr, arith}
use fdpp.MemMgr.{Mem, mcb_normal}
use fdpp.MemMgr.Chain.{
  Chain, Evolves, At-le, Chain-lt, Tail, Tail-chain, Chain-tail, Tail-frame, At-cases, At-tail,
  At-frame,
}

module _ {S : ℕ → Type 0} (m m' : Mem) (e a : ℕ) (c : Chain m e a) (own : (m a).m_psp ≢ 0 → S a → ⊥)
    (own' : (m' a).m_psp ≢ 0 → S a → ⊥) where
  -- The block at `a` keeps its place, and is not spared or free before and after.
  pub one-Evolves :
      (m' a).m_type ≡ (m a).m_type
      → (m' a).m_size ≡ (m a).m_size
      → ((y : ℕ) → y ≢ a → m' y ≡ m y)
      → Evolves S m m' e a
  one-Evolves type size same = record {
    chain = Chain-tail a type ends (Tail-frame (Tail-chain c) λ y h. same y (omega arith));
    frame = λ y h. same y (omega (arith, Chain-lt c));
    kept = λ x r u s. elim (At-cases r) [
      | inl q ↦ absurd (own (λ z. u (ap (λ y. (m y).m_psp) q ∙ z)) (subst S q s))
      | inr (k, r') ↦ (
        At-tail a type ends (k, At-frame r' λ y h. same y (omega arith)),
        same x (omega (arith, At-le r')),
      )
    ];
    fresh = λ x r u s. elim (At-cases r) [
      | inl q ↦ absurd (own' (λ z. u (ap (λ y. (m' y).m_psp) q ∙ z)) (subst S q s))
      | inr (k, r') ↦
          let r'' = rw (← ends) at r' in
          (
            At-tail a refl refl (sym type ∙ k, At-frame r'' λ y h. sym (same y (omega arith))),
            same x (omega (arith, At-le r'')),
          )
    ];
  }
    where
      ends : a + (m a).m_size + 1 ≡ a + (m' a).m_size + 1
      ends = rw size

  -- The block at `a` is split: the second part begins at `b`.
  pub two-Evolves :
      (b : ℕ)
      → b ≡ a + (m' a).m_size + 1
      → (m' a).m_type ≡ mcb_normal
      → (m' b).m_type ≡ (m a).m_type
      → (m' a).m_size + (m' b).m_size + 1 ≡ (m a).m_size
      → ((m' b).m_psp ≢ 0 → S b → ⊥)
      → ((y : ℕ) → y ≢ a → y ≢ b → m' y ≡ m y)
      → Evolves S m m' e a
  two-Evolves b start normal type sizes own'' same = record {
    chain =
        Chain-tail a normal start
          (Tail.goes refl (Chain-tail b type ends (Tail-frame (Tail-chain c) beyond)));
    frame = λ y h. same y (omega (arith, Chain-lt c)) (omega (arith, Chain-lt c));
    kept = λ x r u s. elim (At-cases r) [
      | inl q ↦ absurd (own (λ z. u (ap (λ y. (m y).m_psp) q ∙ z)) (subst S q s))
      | inr (k, r') ↦ (
        At-tail a normal start (refl, At-tail b type ends (k, At-frame r' beyond)),
        beyond x (At-le r'),
      )
    ];
    fresh = λ x r u s. elim (At-cases r) [
      | inl q ↦ absurd (own' (λ z. u (ap (λ y. (m' y).m_psp) q ∙ z)) (subst S q s))
      | inr (k, r') ↦ elim (At-cases (rw (← start) at r')) [
        | inl q ↦ absurd (own'' (λ z. u (ap (λ y. (m' y).m_psp) q ∙ z)) (subst S q s))
        | inr (k', r'') ↦
            let w = rw (← ends) at r'' in
            (
              At-tail a refl refl (sym type ∙ k', At-frame w λ y h. sym (beyond y h)),
              beyond x (At-le w),
            )
      ]
    ];
  }
    where
      ends : a + (m a).m_size + 1 ≡ b + (m' b).m_size + 1
      ends = omega arith

      beyond : (y : ℕ) → a + (m a).m_size + 1 ≤ y → m' y ≡ m y
      beyond y h = same y (omega arith) (omega arith)
