-- ===== src/MemMgr/Releases.antt =====
-- DosMemFree and FreeProcessMem free what they are asked to free, and nothing else.
use mathlib.Core.Path.{subst}
use fdpp.Base.{
  if◌then◌else◌, ◌==◌, ==_iff, ==_false, ℕ, zero, suc, ◌+◌, ◌≤◌, ◌<◌, ◌≡◌, ◌≢◌, refl, sym, ap, ◌∙◌,
  inl, inr, true, some, ℕ_discrete, arith,
}
use fdpp.MemMgr.{Mem, Mcb, success, next_mcb, mcb_freeable, mcb_valid, mcb_normal, mcb_last, fuel}
use fdpp.MemMgr.Ops.{dos_mem_free, free_process}
use fdpp.MemMgr.Chain.{
  Chain, At, Evolves, At-le, Chain-lt, Chain-at, Tail, Tail-chain, Evolves-refl, Evolves-trans,
  Evolves-At, At-cases, At-frame, At-tail,
}
use fdpp.MemMgr.Local.{one-Evolves}
use fdpp.MemMgr.Join.{Chain-valid, next_mcb_lem}

Chain-freeable : {m : Mem} {e p : ℕ} → Chain m e p → mcb_freeable (m p) ≡ true
Chain-freeable {m} {p} c = elim (Tail-chain c) [
  | Tail.ended t l ↦ ground arith
  | Tail.goes t r ↦ ground arith
]

-- What DosMemFree does to the memory at the block itself, and elsewhere.
module _ {m : Mem} {e p : ℕ} (c : Chain m e p) (low : 0 < p) where
  abbrev freed : Mem
  freed = (dos_mem_free m p).0

  free_status : (dos_mem_free m p).1 ≡ success
  unfolding dos_mem_free
  free_status = ground (arith, Chain-freeable c)

  freed_self :
      ((freed p).m_psp ≡ 0) × ((freed p).m_size ≡ (m p).m_size) × ((freed p).m_type ≡ (m p).m_type)
  unfolding dos_mem_free
  freed_self = ground (arith, Chain-freeable c)

  freed_ne : (y : ℕ) → y ≢ p → freed y ≡ m y
  unfolding dos_mem_free
  freed_ne y h = ground arith

  freed-Evolves : {S : ℕ → Type 0} → ((m p).m_psp ≢ 0 → S p → ⊥) → Evolves S m freed e p
  freed-Evolves own =
      one-Evolves m freed e p c own (λ u. absurd (u freed_self.0)) freed_self.2 freed_self.1
        freed_ne

-- Of a block of the chain DosMemFree makes a free block of the same size, and every other block in
-- use is kept as it was; the chain stays intact.
pub dos_mem_free_lem :
    {m : Mem} {e a : ℕ} (p : ℕ)
    → Chain m e a
    → At m p a
    → 0 < a
    → let (m', status) = dos_mem_free m p in
      (status ≡ success)
      × Evolves (λ y. y ≢ p) m m' e a
      × ((m' p).m_psp ≡ 0)
      × ((m' p).m_size ≡ (m p).m_size)
dos_mem_free_lem p c at low =
    let d = Chain-at c at in
    let pos : 0 < p = omega (arith, At-le at) in
    let s = freed_self d pos in
    (free_status d pos, Evolves-At at (freed-Evolves d pos (λ u k. k refl)), s.0, s.1)

-- The loop of FreeProcessMem from `p` on, at memory that is as at first from `p` on.
module _ (m₀ : Mem) (ps e : ℕ) (high : e ≤ 0x1_0000) where
  abbrev Others : ℕ → Type 0
  Others y = (m₀ y).m_psp ≢ ps

  record Freed (m : Mem) (p : ℕ) (m' : Mem) : Type 0 where
    evolves : Evolves Others m m' e p
    gone : (x : ℕ) → At m x p → (m x).m_psp ≡ ps → At m' x p × ((m' x).m_psp ≡ 0)

  -- One round.
  abbrev once : Mem → ℕ → Mem
  once m p = if (m p).m_psp == ps then (dos_mem_free m p).0 else m

  record Once (m : Mem) (p : ℕ) (m₁ : Mem) : Type 0 where
    evolves : Evolves Others m m₁ e p
    type : (m₁ p).m_type ≡ (m p).m_type
    size : (m₁ p).m_size ≡ (m p).m_size
    ne : (y : ℕ) → y ≢ p → m₁ y ≡ m y
    gone : (m p).m_psp ≡ ps → (m₁ p).m_psp ≡ 0

  once-Once : (m : Mem) (p : ℕ) → Chain m e p → 0 < p → m p ≡ m₀ p → Once m p (once m p)
  once-Once m p c low same = elim (ℕ_discrete (m p).m_psp ps) [
    | yes mine ↦ rw ((==_iff _ _).1 mine) record {
      evolves = freed-Evolves c low λ u k. k (sym (ap (λ (z : Mcb). z.m_psp) same) ∙ mine);
      type = (freed_self c low).2;
      size = (freed_self c low).1;
      ne = freed_ne c low;
      gone = λ _. (freed_self c low).0;
    }
    | no other ↦ rw (==_false _ _ other) record {
      evolves = Evolves-refl c;
      type = refl;
      size = refl;
      ne = λ y h. refl;
      gone = λ q. absurd (other q);
    }
  ]

  -- What the rounds behind the first have freed is freed.
  gone_next :
      {m : Mem} {p : ℕ} (n m' : Mem)
      → Once m p n
      → (n p).m_type ≡ mcb_normal
      → Freed n (p + (n p).m_size + 1) m'
      → (x : ℕ) → At m x p
      → (m x).m_psp ≡ ps
      → At m' x p × ((m' x).m_psp ≡ 0)
  gone_next {m} {p} n m' o t rest x r mine =
      let same : m' p ≡ n p = rest.evolves.frame p (inl (omega arith)) in
      elim (At-cases r) [
        | inl q ↦ (
          At.here q,
          ap (λ y. (m' y).m_psp) q
              ∙ ap (λ (z : Mcb). z.m_psp) same
              ∙ o.gone (subst (λ y. (m y).m_psp ≡ ps) q mine),
        )
        | inr (k, r') ↦
            let at = At-frame {m' = n} r' (λ y h. o.ne y (omega arith)) in
            let k' =
              rest.gone x (subst (λ z. At n x (p + z + 1)) (sym o.size) at)
                (ap (λ (z : Mcb). z.m_psp) (o.ne x (omega (arith, At-le r'))) ∙ mine) in
            (At-tail p (ap (λ (z : Mcb). z.m_type) same ∙ t) (rw same refl) (refl, k'.0), k'.1)
      ]

  free_process_next :
      (f : ℕ) (m : Mem) (p : ℕ)
      → mcb_valid (m p) ≡ true
      → (once m p p).m_type ≡ mcb_normal
      → free_process (suc f) m ps p ≡ free_process f (once m p) ps (next_mcb (once m p) p)
  unfolding free_process
  free_process_next f m p ok t = rw (ok, (==_false (once m p p).m_type mcb_last (omega arith))) refl

  free_process_last :
      (f : ℕ) (m : Mem) (p : ℕ)
      → mcb_valid (m p) ≡ true
      → (once m p p).m_type ≡ mcb_last
      → free_process (suc f) m ps p ≡ some (once m p, success)
  unfolding free_process
  free_process_last f m p ok t = rw (ok, (==_iff (once m p p).m_type mcb_last).1 t) refl

  free_process-Freed :
      (f : ℕ) (m : Mem) (p : ℕ)
      → Chain m e p
      → 0 < p
      → e < f + p
      → ((y : ℕ) → p ≤ y → m y ≡ m₀ y)
      → (m' : Mem) × (free_process f m ps p ≡ some (m', success)) × Freed m p m'
  free_process-Freed zero m p c low enough same = absurd (omega (arith, Chain-lt c))
  free_process-Freed (suc f) m p c low enough same =
      let o = once-Once m p c low (same p (omega arith)) in
      let ok = Chain-valid c low high in
      elim (Tail-chain o.evolves.chain) [
        | Tail.ended t l ↦ (
          once m p,
          free_process_last f m p ok t,
          record {
            evolves = o.evolves;
            gone = λ x r mine. elim (At-cases r) [
              | inl q ↦ (At.here q, rw q (o.gone (rw (← q) mine)))
              | inr (n, _) ↦ absurd (omega (arith, o.type))
            ];
          },
        )
        | Tail.goes t r ↦
            let b = p + (once m p p).m_size + 1 in
            let rest : (m' : Mem) × (free_process f (once m p) ps b ≡ some (m', success))
                × Freed (once m p) b m' =
              free_process-Freed f (once m p) b r (omega arith) (omega arith)
                (λ y h. o.ne y (omega arith) ∙ same y (omega arith)) in
            (
              rest.0,
              free_process_next f m p ok t ∙ rw (next_mcb_lem p r high) rest.1,
              record {
                evolves =
                    Evolves-trans o.evolves
                      (Evolves-At (At.next b t refl (At.here refl)) rest.2.evolves);
                gone = gone_next (once m p) rest.0 o t rest.2;
              },
            )
      ]

-- FreeProcessMem goes through an intact chain and frees the blocks of the process `ps`: each of
-- them is in the chain still, and free; the blocks of all other owners are kept as they were, no
-- block comes into use, and the chain stays intact.
pub free_process_lem :
    {m : Mem} {e a : ℕ} (ps : ℕ)
    → Chain m e a
    → 0 < a
    → e ≤ 0x1_0000
    → (m' : Mem) × (free_process fuel m ps a ≡ some (m', success))
      × Evolves (λ y. (m y).m_psp ≢ ps) m m' e a
      × ((x : ℕ) → At m x a → (m x).m_psp ≡ ps → At m' x a × ((m' x).m_psp ≡ 0))
free_process_lem {m} {e} {a} ps c low high =
    let (m', run, f) =
      free_process-Freed m ps e high fuel m a c low (omega (arith, Chain-lt c)) (λ y h. refl) in
    (m', run, f.evolves, f.gone)
