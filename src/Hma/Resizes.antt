-- ===== src/Hma/Resizes.antt =====
-- DosHMAChange as a whole.
use fdpp.Base.{
  ℕ, ◌+◌, ◌%◌, ◌<◌, ◌≡◌, ◌≢◌, refl, sym, ap, ◌∙◌, ◌⊎◌, inl, inr, List, ◌∷◌, ◌++◌, ◌==◌, true, false,
  Option, some, ltb, leb, lt→ltb, if◌then◌else◌, Bool-cases, ==_false, dec_lt, arith,
}
use mathlib.Core.Path.{subst}
use fdpp.MemMgr.{Status, success, de_nomem}
use fdpp.Hma.{Headers, hma_grow, hma_shrink, dos_hma_change}
use fdpp.Hma.Chain.{Block, Chain, coalesce, Chain-at, Chain-replace}
use fdpp.Hma.Views.{coalesce-append}
use fdpp.Hma.Joins.{gather_start}
use fdpp.Hma.Places.{pieces}
use fdpp.Hma.Changes.{reach, ltb-false, hma_grow-Grown, Shrunk, hma_shrink-Shrunk}

-- The block at an offset has the new size, or as much as there is.
pub record Resized (o : Option (Status × Headers)) (psp size : ℕ) (before : List Block) (b : Block)
    (behind : List Block) : Type 0 where
  pub memory : Headers
  pub blocks : List Block
  pub run : o ≡ some (success, memory)
  pub chain : Chain memory 0x10 blocks
  pub view : coalesce blocks ≡ coalesce (before ++ (pieces false psp size b ++ behind))

pub record Stretched (o : Option (Status × Headers)) (before : List Block) (b : Block)
    (behind : List Block) : Type 0 where
  pub memory : Headers
  pub run : o ≡ some (de_nomem, memory)
  pub chain : Chain memory 0x10 (before ++ b ∷ behind)

module _ (m : Headers) (off size psp : ℕ) (before : List Block) (b : Block) (behind : List Block)
    (even : size % 16 ≡ 0) (positive : size ≢ 0) (place : off ≡ b.start + 16) (low : off < 0x1_0000)
    (c : Chain m 0x10 (before ++ b ∷ behind)) where
  at : Chain m b.start (b ∷ behind)
  at = Chain-at b behind before m 0x10 c

  module _ (n : Headers) where
    header : (off + 0xfff0) % 0x1_0000 ≡ b.start
    header = omega arith

    not_zero : (size == 0) ≡ false
    not_zero = ==_false size 0 positive

    change_grown :
        hma_grow m b.start size ≡ some (success, n)
        → dos_hma_change true m off size psp ≡ hma_shrink n b.start size psp
    unfolding dos_hma_change
    change_grown e =
        let d = at.2.signature in
        rw (not_zero, header, d, e, dos_hma_change) (ap (λ p. hma_shrink n p size psp) header)

    change_small :
        hma_grow m b.start size ≡ some (de_nomem, n)
        → dos_hma_change true m off size psp ≡ some (de_nomem, n)
    unfolding dos_hma_change
    change_small e = let d = at.2.signature in rw (not_zero, header, d, e, dos_hma_change) refl

  reach_start : (l : List Block) → (reach size b l).0.start ≡ b.start
  reach_start l = elim (Bool-cases (leb size b.size)) [
    | inl e ↦ rw e refl
    | inr e ↦ rw e (gather_start b l)
  ]

  -- DosHMAChange of the offset of a block, to a size above 0 in paragraphs, ends. The block takes in the
  -- free blocks behind it if it is smaller than that. If it is then as large, the result is SUCCESS: the
  -- block has the size and belongs to the process, and what it is larger by is a free block behind it.
  -- If not, the result is DE_NOMEM, and the block keeps all that it has taken in. All other blocks stay.
  pub dos_hma_change-Resized :
      Resized
        (dos_hma_change true m off size psp)
        psp
        size
        before
        (reach size b behind).0
        (reach size b behind).1
      ⊎ (((reach size b behind).0.size < size)
          × Stretched
              (dos_hma_change true m off size psp)
              before
              (reach size b behind).0
              (reach size b behind).1)
  dos_hma_change-Resized =
      let w = hma_grow-Grown m size b behind at in
      let g = reach size b behind in
      let s = reach_start behind in
      let k : Chain w.memory 0x10 (before ++ g.0 ∷ g.1) =
        Chain-replace b behind before (g.0 ∷ g.1) m w.memory 0x10 c w.same w.chain in
      elim (dec_lt g.0.size size) [
        | yes lt ↦
            let t : ltb g.0.size size ≡ true = lt→ltb g.0.size size lt in
            inr (
              lt,
              record {
                memory = w.memory;
                run =
                    change_small w.memory
                      (w.run ∙ ap (λ x. some (if x then de_nomem else success, w.memory)) t);
                chain = k;
              },
            )
        | no ge ↦
            let t : ltb g.0.size size ≡ false = ltb-false g.0.size size (omega arith) in
            let v : Shrunk (hma_shrink w.memory g.0.start size psp) w.memory psp size g.0 g.1 =
              hma_shrink-Shrunk w.memory psp size g.0 g.1 even (omega arith)
                (subst (λ x. Chain w.memory x (g.0 ∷ g.1)) (sym s) w.chain) in
            inl (record {
              memory = v.memory;
              blocks = before ++ v.blocks;
              run =
                  change_grown w.memory
                    (w.run ∙ ap (λ x. some (if x then de_nomem else success, w.memory)) t)
                  ∙ (ap (λ p. hma_shrink w.memory p size psp) (sym s) ∙ v.run);
              chain = Chain-replace g.0 g.1 before v.blocks w.memory v.memory 0x10 k v.same v.chain;
              view = coalesce-append before v.blocks (pieces false psp size g.0 ++ g.1) v.view;
            })
      ]
