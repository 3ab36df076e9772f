-- ===== src/Hma/Changes.antt =====
-- Growing and shrinking in DosHMAChange.
use fdpp.Base.{
  ℕ, ◌+◌, ◌-◌, ◌%◌, ◌<◌, ◌≤◌, ◌≡◌, refl, sym, ap, ◌∙◌, List, ◌∷◌, ◌++◌, ◌==◌, true, false, Option,
  some, ltb, leb, lt→ltb, if◌then◌else◌, ==_iff, ==_false, dec_lt, arith,
}
use mathlib.Core.Path.{subst}
use fdpp.MemMgr.{Status, success, de_nomem}
use fdpp.Hma.{Headers, rounds, join, own, hma_grow, hma_shrink}
use fdpp.Hma.Chain.{Block, Chain, Below, push, coalesce, Chain-le, Heads-frame}
use fdpp.Hma.Joins.{gather, coalesce-gather, join-Joined}
use fdpp.Hma.Places.{pieces, split_at, split_at-Chain, split_at_below, own-Chain, own_ne}

-- A block, with the free ones behind it if it has to grow; and what is then behind it.
abbrev pub reach : ℕ → Block → List Block → Block × List Block
reach size b l = if leb size b.size then (b, l) else gather b l

pub ltb-false : (a b : ℕ) → b ≤ a → ltb a b ≡ false
ltb-false a b h = ground arith

leb-true : (a b : ℕ) → a ≤ b → leb a b ≡ true
leb-true a b h = ground arith

leb-false : (a b : ℕ) → b < a → leb a b ≡ false
leb-false a b h = ground arith

-- Growing.
pub record Grown (o : Option (Status × Headers)) (m : Headers) (size : ℕ) (b : Block)
    (l : List Block) : Type 0 where
  pub memory : Headers
  pub run : o ≡ some (if ltb (reach size b l).0.size size then de_nomem else success, memory)
  pub chain : Chain memory b.start ((reach size b l).0 ∷ (reach size b l).1)
  pub same : Below b.start m memory

grow_none :
    (m : Headers) (p size : ℕ) → ltb (m p).size size ≡ false → hma_grow m p size ≡ some (success, m)
unfolding hma_grow
grow_none m p size e = rw e refl

grow_joined :
    (m n : Headers) (p size : ℕ)
    → ltb (m p).size size ≡ true
    → join rounds m p ≡ some (success, n)
    → hma_grow m p size ≡ some (if ltb (n p).size size then de_nomem else success, n)
unfolding hma_grow
grow_joined m n p size e j = rw (e, j, hma_grow) refl

pub hma_grow-Grown :
    (m : Headers) (size : ℕ) (b : Block) (l : List Block)
    → Chain m b.start (b ∷ l)
    → Grown (hma_grow m b.start size) m size b l
hma_grow-Grown m size b l (s, z, d, k) = elim (dec_lt b.size size) [
  | yes lt ↦
      let j =
        join-Joined rounds m b l (omega (arith, Chain-le l m (b.start + 16 + b.size) k))
          (s, z, d, k) in
      let c = j.chain in
      let g = gather b l in
      let t : leb size b.size ≡ false = leb-false size b.size lt in
      let n : (j.memory b.start).size ≡ g.0.size =
        subst (λ x. (j.memory x).size ≡ g.0.size) c.0 c.2.size in
      record {
        memory = j.memory;
        run = rw t (
            grow_joined m j.memory b.start size (rw d.size (lt→ltb b.size size lt)) j.run
            ∙ ap (λ x. some (if ltb x size then de_nomem else success, j.memory)) n);
        chain = rw t c;
        same = j.same;
      }
  | no ge ↦
      let le : size ≤ b.size = omega arith in
      let t : leb size b.size ≡ true = leb-true size b.size le in
      record {
        memory = m;
        run =
            rw (t, ltb-false b.size size le)
              (grow_none m b.start size (rw d.size (ltb-false b.size size le)));
        chain = rw t (s, z, d, k);
        same = λ y lt. refl;
      }
]

-- Shrinking.
pub record Shrunk (o : Option (Status × Headers)) (m : Headers) (psp size : ℕ) (b : Block)
    (l : List Block) : Type 0 where
  pub memory : Headers
  pub blocks : List Block
  pub run : o ≡ some (success, memory)
  pub chain : Chain memory b.start blocks
  pub view : coalesce blocks ≡ coalesce (pieces false psp size b ++ l)
  pub same : Below b.start m memory

shrink_none :
    (m : Headers) (p size psp : ℕ)
    → ltb size (m p).size ≡ false
    → hma_shrink m p size psp ≡ some (success, own m p psp)
unfolding hma_shrink
shrink_none m p size psp e = rw e refl

shrink_split :
    (m n : Headers) (p q size psp rest : ℕ)
    → ltb size (m p).size ≡ true
    → (p + size + 16) % 0x1_0000 ≡ q
    → ((m p).size + 0x2_0000 - size - 16) % 0x1_0000 ≡ rest
    → join rounds (split_at m p q size rest) q ≡ some (success, n)
    → hma_shrink m p size psp ≡ some (success, own n p psp)
unfolding hma_shrink
shrink_split m n p q size psp rest e f g j = rw (e, f, g, j, hma_shrink) refl

pub hma_shrink-Shrunk :
    (m : Headers) (psp size : ℕ) (b : Block) (l : List Block)
    → size % 16 ≡ 0
    → size ≤ b.size
    → Chain m b.start (b ∷ l)
    → Shrunk (hma_shrink m b.start size psp) m psp size b l
hma_shrink-Shrunk m psp size b l even fits c = elim (dec_lt size b.size) [
  | no ge ↦
      let (s, z, d, k) = c in
      let e : size ≡ b.size = omega arith in
      let t : (size == b.size) ≡ true = (==_iff size b.size).1 e in
      record {
        memory = own m b.start psp;
        blocks = record b { owner = psp } ∷ l;
        run = shrink_none m b.start size psp (rw d.size (ltb-false size b.size (omega arith)));
        chain = own-Chain m psp b l c;
        view = rw t (ap (λ x. coalesce (record b { owner = psp; size = x } ∷ l)) (sym e));
        same = λ y lt. own_ne m b.start psp y (omega arith);
      }
  | yes lt ↦
      let (s, z, d, k) = c in
      let le = Chain-le l m (b.start + 16 + b.size) k in
      let rest = b.size - size - 16 in
      let q = b.start + 16 + size in
      let first = record b { size = size } in
      let second : Block = record { start = q; owner = 0; size = rest } in
      let n = split_at m b.start q size rest in
      let (s₁, z₁, d₁, k₁) = split_at-Chain m b l size rest even (omega arith) (omega arith) c in
      let j = join-Joined rounds n second l (omega (arith, le)) k₁ in
      let g = gather second l in
      let w : Chain j.memory b.start (first ∷ g.0 ∷ g.1) =
        (refl, z₁, Heads-frame first (j.same b.start (omega arith)) d₁, j.chain) in
      let t : (size == b.size) ≡ false = ==_false size b.size (λ e. absurd (omega arith)) in
      record {
        memory = own j.memory b.start psp;
        blocks = record first { owner = psp } ∷ g.0 ∷ g.1;
        run =
            shrink_split m j.memory b.start q size psp rest (rw d.size (lt→ltb size b.size lt))
              (omega arith) (rw d.size (omega arith)) j.run;
        chain = own-Chain j.memory psp first (g.0 ∷ g.1) w;
        view = rw t (ap (push (record first { owner = psp })) (coalesce-gather second l refl));
        same = λ y h.
            own_ne j.memory b.start psp y (omega arith)
            ∙ (j.same y (omega arith)
                ∙ split_at_below m b.start q size rest (λ e. absurd (omega arith)) (omega arith) y
                    h);
      }
]
