-- ===== src/Hma/Places.antt =====
-- Memory after a split, and after a change of the owner.
use fdpp.Base.{
  ℕ, ◌+◌, ◌-◌, ◌%◌, ◌≤◌, ◌≡◌, ◌≢◌, refl, ap, ◌∙◌, List, [], ◌∷◌, ◌==◌, Bool, if◌then◌else◌, arith,
}
use mathlib.Core.Path.{subst}
use fdpp.Hma.{Headers, store, own, init_mcb}
use fdpp.Hma.Chain.{Block, Chain, Below, Chain-le, Chain-frame, store_self, store_ne}

-- The piece that is granted, and the pieces of the block.
abbrev pub granted : Bool → ℕ → ℕ → Block → Block
granted topdown psp size b = record {
  start = if topdown then b.start + b.size - size else b.start;
  owner = psp;
  size = size;
}

abbrev pub pieces : Bool → ℕ → ℕ → Block → List Block
pieces topdown psp size b =
    let g = granted topdown psp size b in
    let rest = b.size - size - 16 in
    if size == b.size
    then g ∷ []
    else if topdown
    then record b { size = rest } ∷ g ∷ []
    else g ∷ record { start = b.start + 16 + size; owner = 0; size = rest } ∷ []

-- Memory after the split at two places.
abbrev pub split_at : Headers → ℕ → ℕ → ℕ → ℕ → Headers
split_at m found p first second =
    let m₁ = store m p (record init_mcb { next = (m found).next; size = second }) in
    store m₁ found (record (m₁ found) { next = p; size = first })

module _ (m : Headers) (found p first second : ℕ) (ne : p ≢ found) where
  split_at_found :
      split_at m found p first second found ≡ record (m found) { next = p; size = first }
  unfolding store
  split_at_found = ground arith

  split_at_p :
      split_at m found p first second p ≡ record init_mcb { next = (m found).next; size = second }
  unfolding store
  split_at_p = ground arith

  split_at_ne : (y : ℕ) → y ≢ found → y ≢ p → split_at m found p first second y ≡ m y
  unfolding store
  split_at_ne y h k = ground arith

pub own_self : (m : Headers) (p psp : ℕ) → own m p psp p ≡ record (m p) { owner = psp }
unfolding own
own_self m p psp = store_self m p (record (m p) { owner = psp })

pub own_ne : (m : Headers) (p psp y : ℕ) → y ≢ p → own m p psp y ≡ m y
unfolding own
own_ne m p psp y h = store_ne m p (record (m p) { owner = psp }) y h

-- A new owner at a block of the chain.
pub own-Chain :
    (m : Headers) (psp : ℕ) (b : Block) (l : List Block)
    → Chain m b.start (b ∷ l)
    → Chain (own m b.start psp) b.start (record b { owner = psp } ∷ l)
own-Chain m psp b l (s, z, h, k) =
    let t = own_self m b.start psp in
    (
      refl,
      z,
      record {
        signature = ap (λ r. r.signature) t ∙ h.signature;
        owner = ap (λ r. r.owner) t;
        size = ap (λ r. r.size) t ∙ h.size;
        next = ap (λ r. r.next) t ∙ h.next;
      },
      Chain-frame l (b.start + 16 + b.size) (λ y lt. own_ne m b.start psp y (omega arith)) k,
    )

-- The two pieces as a chain: `c` in front, `d` behind it.
pub split_at-Chain :
    (m : Headers) (b : Block) (l : List Block) (first second : ℕ)
    → first % 16 ≡ 0
    → second % 16 ≡ 0
    → b.size ≡ first + 16 + second
    → Chain m b.start (b ∷ l)
    → Chain (split_at m b.start (b.start + 16 + first) first second) b.start (
        record b { size = first }
        ∷ record { start = b.start + 16 + first; owner = 0; size = second }
        ∷ l)
split_at-Chain m b l first second z₁ z₂ e (s, z, h, k) =
    let p = b.start + 16 + first in
    let ne : p ≢ b.start = λ q. absurd (omega arith) in
    let t = split_at_found m b.start p first second ne in
    let u = split_at_p m b.start p first second ne in
    let le = Chain-le l m (b.start + 16 + b.size) k in
    let hn = h.next in
    let same = λ (y : ℕ) (lt : p + 16 + second ≤ y).
      split_at_ne m b.start p first second ne y (omega arith) (omega arith) in
    (
      refl,
      z₁,
      record {
        signature = ap (λ r. r.signature) t ∙ h.signature;
        owner = ap (λ r. r.owner) t ∙ h.owner;
        size = ap (λ r. r.size) t;
        next = ap (λ r. r.next) t ∙ omega arith;
      },
      (
        refl,
        z₂,
        record {
          signature = ap (λ r. r.signature) u;
          owner = ap (λ r. r.owner) u;
          size = ap (λ r. r.size) u;
          next = ap (λ r. r.next) u ∙ omega arith;
        },
        Chain-frame l (p + 16 + second) same (subst (λ x. Chain m x l) (omega arith) k),
      ),
    )

pub split_at_below :
    (m : Headers) (found p first second : ℕ)
    → p ≢ found
    → found ≤ p
    → Below found m (split_at m found p first second)
split_at_below m found p first second ne le y lt =
    split_at_ne m found p first second ne y (omega arith) (omega arith)
