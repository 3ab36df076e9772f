-- ===== src/Hma/Divides.antt =====
-- The block found is split, and the piece that is granted gets its owner.
use fdpp.Base.{
  ℕ, ◌+◌, ◌-◌, ◌%◌, ◌≤◌, ◌≡◌, ◌≢◌, refl, sym, ◌∙◌, List, [], ◌∷◌, ◌++◌, ◌==◌, true, false, Bool,
  ==_iff, ==_false, ℕ_discrete, arith,
}
use mathlib.Core.Path.{subst}
use fdpp.Hma.{Headers, own, divide}
use fdpp.Hma.Chain.{Block, Chain, Below, Chain-le, Chain-at, Chain-replace}
use fdpp.Hma.Places.{granted, pieces, split_at, own_ne, own-Chain, split_at-Chain, split_at_below}

module _ (m : Headers) (psp size : ℕ) (b : Block) (l : List Block) (even : size % 16 ≡ 0)
    (fits : size ≤ b.size) (c : Chain m b.start (b ∷ l)) where
  -- What DosHMAAlloc does once it has found the block.
  pub record Placed (topdown : Bool) : Type 0 where
    pub header : (divide m b.start size topdown).0 ≡ (granted topdown psp size b).start
    pub chain :
        Chain
          (own (divide m b.start size topdown).1 (granted topdown psp size b).start psp)
          b.start
          (pieces topdown psp size b ++ l)
    pub same :
        Below b.start m
          (own (divide m b.start size topdown).1 (granted topdown psp size b).start psp)

  header_size : (m b.start).size ≡ b.size
  header_size = let (s, z, h, k) = c in h.size

  divide_whole : size ≡ b.size → (topdown : Bool) → divide m b.start size topdown ≡ (b.start, m)
  unfolding divide
  divide_whole e topdown =
      let t : (size == b.size) ≡ true = (==_iff size b.size).1 e in rw (header_size, t) refl

  granted_whole : size ≡ b.size → (topdown : Bool) → (granted topdown psp size b).start ≡ b.start
  granted_whole e true = omega arith
  granted_whole e false = refl

  whole : size ≡ b.size → (topdown : Bool) → Placed topdown
  whole e topdown =
      let t : (size == b.size) ≡ true = (==_iff size b.size).1 e in
      let g = granted_whole e topdown in
      record {
        header = rw (divide_whole e topdown) (sym g);
        chain =
            rw (divide_whole e topdown, t)
              (subst
                (λ x.
                  Chain (own m x psp) b.start (record { start = x; owner = psp; size = size } ∷ l))
                (sym g)
                (subst
                  (λ x. Chain (own m b.start psp) b.start (record b { owner = psp; size = x } ∷ l))
                  (sym e) (own-Chain m psp b l c)));
        same = λ y lt. rw (divide_whole e topdown, g) (own_ne m b.start psp y (omega arith));
      }

  module _ (differs : size ≢ b.size) where
    gap : size + 16 ≤ b.size
    gap = let (s, z, h, k) = c in omega arith

    end_le : b.start + 16 + b.size ≤ 0x1_0000
    end_le = let (s, z, h, k) = c in omega (arith, Chain-le l m (b.start + 16 + b.size) k)

    size_even : b.size % 16 ≡ 0
    size_even = let (s, z, h, k) = c in z

    t : (size == b.size) ≡ false
    t = ==_false size b.size differs

    divide_up :
        divide m b.start size false
        ≡ (b.start, split_at m b.start (b.start + 16 + size) size (b.size - size - 16))
    unfolding divide
    divide_up =
        let p : (b.start + size + 16) % 0x1_0000 ≡ b.start + 16 + size =
          omega (arith, gap, end_le) in
        let r : (b.size + 0x2_0000 - size - 16) % 0x1_0000 ≡ b.size - size - 16 =
          omega (arith, gap, end_le) in
        rw (header_size, t, p, r) refl

    divide_down : divide m b.start size true ≡ (
      b.start + b.size - size,
      split_at m b.start (b.start + b.size - size) (b.size - size - 16) size,
    )
    unfolding divide
    divide_down =
        let p : (b.start + b.size + 0x1_0000 - size) % 0x1_0000 ≡ b.start + b.size - size =
          omega (arith, gap, end_le) in
        let r : (b.size + 0x2_0000 - size - 16) % 0x1_0000 ≡ b.size - size - 16 =
          omega (arith, gap, end_le) in
        rw (header_size, t, p, r) refl

    up : Placed false
    up =
        let rest = b.size - size - 16 in
        record {
          header = rw divide_up refl;
          chain =
              rw (divide_up, t)
                (own-Chain (split_at m b.start (b.start + 16 + size) size rest) psp
                  (record b { size = size })
                  (record { start = b.start + 16 + size; owner = 0; size = rest } ∷ l)
                  (split_at-Chain m b l size rest even (omega (arith, gap, size_even))
                    (omega (arith, gap)) c));
          same = λ y lt. rw divide_up (
              own_ne (split_at m b.start (b.start + 16 + size) size rest) b.start psp y
                (omega arith)
              ∙ split_at_below m b.start (b.start + 16 + size) size rest (λ e. absurd (omega arith))
                  (omega arith) y lt);
        }

    down : Placed true
    down =
        let rest = b.size - size - 16 in
        let p = b.start + b.size - size in
        let e : b.start + 16 + rest ≡ p = omega (arith, gap) in
        let n = split_at m b.start p rest size in
        let first = record b { size = rest } in
        let second : Block = record { start = p; owner = 0; size = size } in
        let d : Chain n b.start (first ∷ second ∷ l) =
          subst
            (λ x.
              Chain (split_at m b.start x rest size) b.start
                (first ∷ record { start = x; owner = 0; size = size } ∷ l))
            e
            (split_at-Chain m b l rest size (omega (arith, gap, size_even)) even
              (omega (arith, gap)) c) in
        record {
          header = rw divide_down refl;
          chain =
              rw (divide_down, t)
                (Chain-replace second l (first ∷ []) (record second { owner = psp } ∷ l) n
                  (own n p psp) b.start d (λ y lt. own_ne n p psp y (omega arith))
                  (own-Chain n psp second l (Chain-at second l (first ∷ []) n b.start d)));
          same = λ y lt. rw divide_down (
              own_ne n p psp y (omega arith)
              ∙ split_at_below m b.start p rest size (λ q. absurd (omega (arith, gap)))
                  (omega (arith, gap)) y lt);
        }

  pub divide-Placed : (topdown : Bool) → Placed topdown
  divide-Placed topdown = elim (ℕ_discrete size b.size) [
    | yes e ↦ whole e topdown
    | no e ↦ elim topdown as (λ t. Placed t) [ true ↦ down e | false ↦ up e ]
  ]
