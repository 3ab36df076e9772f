-- ===== src/MemMgr/Join.antt =====
-- joinMCBs joins free blocks, and changes nothing in use.
use fdpp.Base.{
  ℕ, zero, suc, ◌+◌, ◌≤◌, ◌<◌, ◌≡◌, ◌≢◌, refl, sym, ap, ◌∙◌, inl, inr, true, some, ℕ_discrete,
  arith,
}
use mathlib.Core.Path.{subst}
use fdpp.MemMgr.{Mem, mcb_normal, success, next_mcb, mcb_valid, absorb, join_mcbs}
use fdpp.MemMgr.Chain.{
  Chain, At, Evolves, At-le, Chain-lt, Tail, Tail-chain, Chain-tail, Tail-frame, At-cases, At-tail,
  At-frame, Evolves-refl, Evolves-trans,
}

-- One round, at two neighbours of which the second is free.
module _ (m : Mem) (p e : ℕ) (high : e ≤ 0x1_0000) (c : Chain m e (p + (m p).m_size + 1)) where
  abbrev after : ℕ
  after = p + (m p).m_size + 1

  absorb_self :
      absorb m p after p
      ≡ record (m p) { m_type = (m after).m_type; m_size = (m p).m_size + ((m after).m_size + 1) }
  unfolding absorb
  absorb_self = ground (arith, Chain-lt c)

  absorb_ne : (y : ℕ) → y ≢ p → y ≢ after → absorb m p after y ≡ m y
  unfolding absorb
  absorb_ne y h k = ground arith

  abbrev m' : Mem
  m' = absorb m p after

  same : (y : ℕ) → after + (m after).m_size + 1 ≤ y → m' y ≡ m y
  same y h = absorb_ne y (omega arith) (omega arith)

  ends : after + (m after).m_size + 1 ≡ p + (m' p).m_size + 1
  ends = rw absorb_self (omega arith)

  type : (m' p).m_type ≡ (m after).m_type
  type = rw absorb_self

  owner : (m' p).m_psp ≡ (m p).m_psp
  owner = rw absorb_self

  module _ {S : ℕ → Type 0} (t : (m p).m_type ≡ mcb_normal) (idle : (m after).m_psp ≡ 0)
      (own : (m p).m_psp ≢ 0 → S p → ⊥) where
    -- The round keeps the chain and what is in use, and leaves `p` with its owner.
    absorb-Evolves : Evolves S m m' e p
    absorb-Evolves = record {
      chain = Chain-tail p type ends (Tail-frame (Tail-chain c) same);
      frame = λ y h. absorb_ne y (omega (arith, Chain-lt c)) (omega (arith, Chain-lt c));
      kept = kept;
      fresh = fresh;
    }
      where
        kept : (x : ℕ) → At m x p → (m x).m_psp ≢ 0 → S x → At m' x p × (m' x ≡ m x)
        kept x r u s = elim (At-cases r) [
          | inl q ↦ absurd (own (λ z. u (ap (λ y. (m y).m_psp) q ∙ z)) (subst S q s))
          | inr (n, r') ↦ elim (At-cases r') [
            | inl q ↦ absurd (u (rw q idle))
            | inr (k, r'') ↦ (At-tail p type ends (k, At-frame r'' same), same x (At-le r''))
          ]
        ]

        fresh : (x : ℕ) → At m' x p → (m' x).m_psp ≢ 0 → S x → At m x p × (m' x ≡ m x)
        fresh x r u s = elim (At-cases r) [
          | inl q ↦ absurd (own (λ z. u (ap (λ y. (m' y).m_psp) q ∙ owner ∙ z)) (subst S q s))
          | inr (n, r') ↦
              let r'' = rw (← ends) at r' in
              (
                At-tail p t refl (
                  refl,
                  At-tail after refl refl (sym type ∙ n, At-frame r'' λ y h. sym (same y h)),
                ),
                same x (At-le r''),
              )
        ]

-- Every block of a chain is valid, and its successor is what nxtMCB computes.
pub Chain-valid : {m : Mem} {e a : ℕ} → Chain m e a → 0 < a → e ≤ 0x1_0000 → mcb_valid (m a) ≡ true
Chain-valid {m} {e} {a} c low high =
    let d = Chain-lt c in
    elim (Tail-chain c) [ Tail.ended t l ↦ ground arith | Tail.goes t r ↦ ground arith ]

pub next_mcb_lem :
    {m : Mem} {e : ℕ} (a : ℕ)
    → Chain m e (a + (m a).m_size + 1)
    → e ≤ 0x1_0000
    → next_mcb m a ≡ a + (m a).m_size + 1
next_mcb_lem a c high = omega (arith, Chain-lt c)

-- What joinMCBs does at a block `p`: it succeeds, `p` keeps its owner, does not shrink, and is not
-- followed by a free block any more.
pub record Joined (S : ℕ → Type 0) (m : Mem) (e p : ℕ) (m' : Mem) : Type 0 where
  pub evolves : Evolves S m m' e p
  pub owner : (m' p).m_psp ≡ (m p).m_psp
  pub name : (m' p).m_name ≡ (m p).m_name
  pub size : (m p).m_size ≤ (m' p).m_size
  pub maximal : Chain m' e (p + (m' p).m_size + 1) → (m' (p + (m' p).m_size + 1)).m_psp ≢ 0

pub join_mcbs-Joined :
    {S : ℕ → Type 0} (f : ℕ) (m : Mem) (p e : ℕ)
    → e ≤ 0x1_0000
    → 0 < p
    → Chain m e p
    → e < f + (p + (m p).m_size + 1)
    → ((m p).m_psp ≢ 0 → S p → ⊥)
    → (m' : Mem) × (join_mcbs f m p ≡ some (success, m')) × Joined S m e p m'
unfolding join_mcbs
join_mcbs-Joined zero m p e high low c enough own = absurd (omega (arith, Chain-lt c))
join_mcbs-Joined {S} (suc f) m p e high low c enough own = elim (Tail-chain c) [
  | Tail.ended t l ↦ (m, ground arith, idle_join λ r. absurd (omega (arith, Chain-lt r)))
  | Tail.goes t r ↦ elim (ℕ_discrete (m (p + (m p).m_size + 1)).m_psp 0) [
    | no busy ↦ (m, ground (arith, next_mcb_lem p r high), idle_join λ _. busy)
    | yes idle ↦
        let v = absorb-Evolves m p e high r {S = S} t idle own in
        let o = owner m p e high r in
        let n = absorb m p (p + (m p).m_size + 1) in
        let rest : (m' : Mem) × (join_mcbs f n p ≡ some (success, m')) × Joined S n e p m' =
          join_mcbs-Joined {S = S} f n p e high low v.chain (omega (arith, ends m p e high r))
            (λ u. own (λ z. u (o ∙ z))) in
        let (m', run, j) = rest in
        (
          m',
          ground (arith, next_mcb_lem p r high, Chain-valid r (omega arith) high, run),
          record {
            evolves = Evolves-trans v j.evolves;
            owner = j.owner ∙ o;
            name = j.name ∙ rw (absorb_self m p e high r) refl;
            size = omega (arith, j.size, ends m p e high r);
            maximal = j.maximal;
          },
        )
  ]
]
  where
    idle_join :
        (Chain m e (p + (m p).m_size + 1) → (m (p + (m p).m_size + 1)).m_psp ≢ 0) → Joined S m e p m
    idle_join busy = record {
      evolves = Evolves-refl c;
      owner = refl;
      name = refl;
      size = omega arith;
      maximal = busy;
    }
