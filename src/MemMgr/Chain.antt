-- ===== src/MemMgr/Chain.antt =====
-- The chain of MCBs as a predicate on memory, and what it means that memory changes while the
-- blocks in use stay as they are.
use fdpp.Base.{ℕ, ◌+◌, ◌≤◌, ◌<◌, ◌≡◌, ◌≢◌, refl, sym, ap, ◌∙◌, ◌⊎◌, inl, inr, arith}
use fdpp.MemMgr.{Mem, Mcb, write, mcb_normal, mcb_last}

module _ (m : Mem) where
  -- From `a` MCBs follow one another without a gap up to the last one, whose block ends at `e`.
  pub data Chain (e : ℕ) : ℕ → Type 0 where
    last : {a : ℕ} → (m a).m_type ≡ mcb_last → a + (m a).m_size + 1 ≡ e → Chain e a
    more :
        {a : ℕ} (b : ℕ)
        → (m a).m_type ≡ mcb_normal
        → b ≡ a + (m a).m_size + 1
        → Chain e b
        → Chain e a

  -- Following the chain from `a` one comes to the MCB at `x`.
  pub data At (x : ℕ) : ℕ → Type 0 where
    here : {a : ℕ} → x ≡ a → At x a
    next : {a : ℕ} (b : ℕ) → (m a).m_type ≡ mcb_normal → b ≡ a + (m a).m_size + 1 → At x b → At x a

-- From `m` to `m'` the chain from `a` to `e` stays one, memory outside it stays, and the blocks in
-- use at addresses that are `Spared` are the same, headers included: none is lost, none is new.
pub record Evolves (Spared : ℕ → Type 0) (m m' : Mem) (e a : ℕ) : Type 0 where
  pub chain : Chain m' e a
  pub frame : (y : ℕ) → (y < a) ⊎ (e ≤ y) → m' y ≡ m y
  pub kept : (x : ℕ) → At m x a → (m x).m_psp ≢ 0 → Spared x → At m' x a × (m' x ≡ m x)
  pub fresh : (x : ℕ) → At m' x a → (m' x).m_psp ≢ 0 → Spared x → At m x a × (m' x ≡ m x)

abbrev pub Anywhere : ℕ → Type 0
Anywhere x = Unit {0}

pub write_self : (m : Mem) (a : ℕ) (c : Mcb) → write m a c a ≡ c
unfolding write
write_self m a c = ground arith

pub write_ne : (m : Mem) (a : ℕ) (c : Mcb) (x : ℕ) → x ≢ a → write m a c x ≡ m x
unfolding write
write_ne m a c x h = ground arith

pub At-le : {m : Mem} {x a : ℕ} → At m x a → a ≤ x
At-le (here e) = omega arith
At-le (next b t e r) = omega (arith, At-le r)

pub Chain-lt : {m : Mem} {e a : ℕ} → Chain m e a → a + (m a).m_size < e
Chain-lt (last t l) = omega arith
Chain-lt (more b t l c) = omega (arith, Chain-lt c)

normal≢last : {n : ℕ} → n ≡ mcb_normal → n ≡ mcb_last → ⊥
normal≢last p q = omega arith

pub Chain-at : {m : Mem} {e x a : ℕ} → Chain m e a → At m x a → Chain m e x
Chain-at {m} {e} c (here q) = rw q c
Chain-at (last t l) (next b t' l' r) = absurd (normal≢last t' t)
Chain-at {m} {e} {x} (more b t l c) (next b' t' l' r) = Chain-at c (rw (l ∙ sym l') r)

-- Memory that is the same from `a` on holds the same chain.
pub Chain-frame :
    {m m' : Mem} {e a : ℕ} → Chain m e a → ((y : ℕ) → a ≤ y → m' y ≡ m y) → Chain m' e a
Chain-frame {a} (last t l) same =
    last (ap (λ c. c.m_type) (same a (omega arith)) ∙ t) (rw (same a (omega arith)) l)
Chain-frame {a} (more b t l c) same =
    more b (ap (λ c. c.m_type) (same a (omega arith)) ∙ t) (rw (same a (omega arith)) l)
      (Chain-frame c λ y h. same y (omega arith))

pub At-frame : {m m' : Mem} {x a : ℕ} → At m x a → ((y : ℕ) → a ≤ y → m' y ≡ m y) → At m' x a
At-frame (here q) same = here q
At-frame {a} (next b t l r) same =
    next b (ap (λ c. c.m_type) (same a (omega arith)) ∙ t) (rw (same a (omega arith)) l)
      (At-frame r λ y h. same y (omega arith))

module _ {S : ℕ → Type 0} where
  pub Evolves-refl : {m : Mem} {e a : ℕ} → Chain m e a → Evolves S m m e a
  Evolves-refl c = record {
    chain = c;
    frame = λ y h. refl;
    kept = λ x r u s. (r, refl);
    fresh = λ x r u s. (r, refl);
  }

  pub Evolves-trans :
      {m m' m'' : Mem} {e a : ℕ} → Evolves S m m' e a → Evolves S m' m'' e a → Evolves S m m'' e a
  Evolves-trans {m} {m'} {m''} p q = record {
    chain = q.chain;
    frame = λ y h. q.frame y h ∙ p.frame y h;
    kept = λ x r u s.
        let k = p.kept x r u s in
        let l = q.kept x k.0 (λ z. u (sym (ap (λ c. c.m_psp) k.1) ∙ z)) s in (l.0, l.1 ∙ k.1);
    fresh = λ x r u s.
        let k = q.fresh x r u s in
        let l = p.fresh x k.0 (λ z. u (ap (λ c. c.m_psp) k.1 ∙ z)) s in (l.0, k.1 ∙ l.1);
  }

  -- A change behind a block is a change of the chain from that block on.
  Evolves-cons :
      {m m' : Mem} {e a : ℕ} (b : ℕ)
      → (m a).m_type ≡ mcb_normal
      → b ≡ a + (m a).m_size + 1
      → Evolves S m m' e b
      → Evolves S m m' e a
  Evolves-cons {m} {m'} {e} {a} b t l v = record {
    chain = more b (ap (λ c. c.m_type) same ∙ t) (rw same l) v.chain;
    frame = λ y h. v.frame y (omega arith);
    kept = kept;
    fresh = fresh;
  }
    where
      same : m' a ≡ m a
      same = v.frame a (inl (omega arith))

      kept : (x : ℕ) → At m x a → (m x).m_psp ≢ 0 → S x → At m' x a × (m' x ≡ m x)
      kept x (here q) u s = (here q, rw q same)
      kept x (next b' t' l' r) u s =
          let k = v.kept x (rw (l ∙ sym l') r) u s in
          (next b (ap (λ c. c.m_type) same ∙ t) (rw same l) k.0, k.1)

      fresh : (x : ℕ) → At m' x a → (m' x).m_psp ≢ 0 → S x → At m x a × (m' x ≡ m x)
      fresh x (here q) u s = (here q, rw q same)
      fresh x (next b' t' l' r) u s =
          let k = v.fresh x (rw (l ∙ sym (rw same at l')) r) u s in (next b t l k.0, k.1)

  pub Evolves-At : {m m' : Mem} {e p a : ℕ} → At m p a → Evolves S m m' e p → Evolves S m m' e a
  Evolves-At {m} {m'} {e} (here q) v = rw (← q) v
  Evolves-At (next b t l r) v = Evolves-cons b t l (Evolves-At r v)

-- What follows a block of type `t` that ends before `b`: nothing, or a chain.
pub data Tail (m : Mem) (e t b : ℕ) : Type 0 where
  ended : t ≡ mcb_last → b ≡ e → Tail m e t b
  goes : t ≡ mcb_normal → Chain m e b → Tail m e t b

abbrev pub TailAt : Mem → ℕ → ℕ → ℕ → Type 0
TailAt m x t b = (t ≡ mcb_normal) × At m x b

pub Tail-chain : {m : Mem} {e a : ℕ} → Chain m e a → Tail m e (m a).m_type (a + (m a).m_size + 1)
Tail-chain (last t l) = ended t l
Tail-chain {m} {e} (more b t l c) = goes t (rw (← l) c)

pub Chain-tail :
    {m : Mem} {e t b : ℕ} (a : ℕ)
    → (m a).m_type ≡ t
    → b ≡ a + (m a).m_size + 1
    → Tail m e t b
    → Chain m e a
Chain-tail a u l (ended h k) = last (u ∙ h) (sym l ∙ k)
Chain-tail a u l (goes h c) = more _ (u ∙ h) l c

pub Tail-frame :
    {m m' : Mem} {e t b : ℕ} → Tail m e t b → ((y : ℕ) → b ≤ y → m' y ≡ m y) → Tail m' e t b
Tail-frame (ended h k) same = ended h k
Tail-frame (goes h c) same = goes h (Chain-frame c same)

pub At-cases :
    {m : Mem} {x a : ℕ} → At m x a → (x ≡ a) ⊎ TailAt m x (m a).m_type (a + (m a).m_size + 1)
At-cases (here q) = inl q
At-cases {m} {x} (next b t l r) = inr (t, rw (← l) r)

pub At-tail :
    {m : Mem} {x t b : ℕ} (a : ℕ)
    → (m a).m_type ≡ t
    → b ≡ a + (m a).m_size + 1
    → TailAt m x t b
    → At m x a
At-tail a u l (h, r) = next _ (u ∙ h) l r

-- What is reached before `n` depends on the memory below `n` only.
pub At-below : {m m' : Mem} {x a : ℕ} → At m x a → ((y : ℕ) → y < x → m' y ≡ m y) → At m' x a
At-below (here q) same = here q
At-below {a} (next b t l r) same =
    let e = same a (omega (arith, At-le r)) in
    next b (ap (λ c. c.m_type) e ∙ t) (rw e l) (At-below r same)

-- Between an MCB and the end of its block there is no other.
pub At-gap : {m : Mem} {x p a : ℕ} → At m x a → At m p a → p < x → p + (m p).m_size + 1 ≤ x
At-gap {m} {x} {p} r (here q) h = elim (At-cases r) [
  | inl k ↦ absurd (omega arith)
  | inr (t, r') ↦ rw q (At-le r')
]
At-gap {m} {x} {p} r (next b t l w) h = elim (At-cases r) [
  | inl k ↦ absurd (omega (arith, At-le w))
  | inr (t', r') ↦ At-gap (rw l r') w h
]

-- One more step of the chain.
pub At-step :
    {m : Mem} {p a : ℕ} → At m p a → (m p).m_type ≡ mcb_normal → At m (p + (m p).m_size + 1) a
At-step {m} {p} (here q) t = next (p + (m p).m_size + 1) (rw (← q) t) (rw q refl) (here refl)
At-step (next b u l r) t = next b u l (At-step r t)

pub Evolves-spare :
    {S : ℕ → Type 0} {m m' : Mem} {e a : ℕ} → Evolves Anywhere m m' e a → Evolves S m m' e a
Evolves-spare v = record {
  chain = v.chain;
  frame = v.frame;
  kept = λ x r u s. v.kept x r u tt;
  fresh = λ x r u s. v.fresh x r u tt;
}

pub At-trans : {m : Mem} {x p a : ℕ} → At m x p → At m p a → At m x a
At-trans {m} {x} r (here q) = rw (← q) r
At-trans r (next b t l w) = next b t l (At-trans r w)
