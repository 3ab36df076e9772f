-- ===== src/Hma/Frees.antt =====
-- DosHMAFree.
use fdpp.Base.{
  ℕ, ◌+◌, ◌%◌, ◌<◌, ◌≡◌, ◌≢◌, refl, ap, ◌∙◌, List, ◌∷◌, ◌++◌, ◌==◌, true, false, Option, some,
  ==_false, ℕ_discrete, arith,
}
use fdpp.MemMgr.{Status, success}
use fdpp.Hma.{Headers, rounds, join, own, dos_hma_free}
use fdpp.Hma.Chain.{Block, Chain, push, coalesce, Chain-le, Chain-at, Chain-replace}
use fdpp.Hma.Views.{coalesce-append}
use fdpp.Hma.Joins.{gather, coalesce-gather, join-Joined}
use fdpp.Hma.Places.{own-Chain, own_ne}

abbrev pub freed : Block → Block
freed b = record b { owner = 0 }

-- The block at an offset is free afterwards, and all other blocks stay.
pub record Freed (o : Option (Status × Headers)) (before : List Block) (b : Block)
    (behind : List Block) : Type 0 where
  pub memory : Headers
  pub blocks : List Block
  pub run : o ≡ some (success, memory)
  pub chain : Chain memory 0x10 blocks
  pub view : coalesce blocks ≡ coalesce (before ++ freed b ∷ behind)

module _ (m : Headers) (off : ℕ) (before : List Block) (b : Block) (behind : List Block)
    (place : off ≡ b.start + 16) (low : off < 0x1_0000)
    (c : Chain m 0x10 (before ++ b ∷ behind)) where
  header : (off + 0xfff0) % 0x1_0000 ≡ b.start
  header = omega arith

  free_idle : b.owner ≡ 0 → dos_hma_free true m off ≡ some (success, m)
  unfolding dos_hma_free
  free_idle idle =
      let (s, z, h, k) = Chain-at b behind before m 0x10 c in
      let e : (off == 0) ≡ false = ==_false off 0 (λ q. absurd (omega arith)) in
      rw (e, header, h.signature, h.owner, idle) refl

  free_busy : b.owner ≢ 0 → dos_hma_free true m off ≡ join rounds (own m b.start 0) b.start
  unfolding dos_hma_free
  free_busy busy =
      let (s, z, h, k) = Chain-at b behind before m 0x10 c in
      let e : (off == 0) ≡ false = ==_false off 0 (λ q. absurd (omega arith)) in
      let o : (b.owner == 0) ≡ false = ==_false _ _ busy in
      rw (e, header, h.signature, h.owner, o) refl

  -- DosHMAFree of the offset of a block succeeds; the block is free afterwards, and all other blocks
  -- stay. Free neighbours may have become one block.
  pub dos_hma_free-Freed : Freed (dos_hma_free true m off) before b behind
  dos_hma_free-Freed = elim (ℕ_discrete b.owner 0) [
    | yes idle ↦ record {
      memory = m;
      blocks = before ++ b ∷ behind;
      run = free_idle idle;
      chain = c;
      view =
          coalesce-append before (b ∷ behind) (freed b ∷ behind)
            (ap (λ x. push (record b { owner = x }) (coalesce behind)) idle);
    }
    | no busy ↦
        let at = Chain-at b behind before m 0x10 c in
        let n = own m b.start 0 in
        let d = own-Chain m 0 b behind at in
        let j =
          join-Joined rounds n (freed b) behind (omega (arith, Chain-le (b ∷ behind) m b.start at))
            d in
        let g = gather (freed b) behind in
        record {
          memory = j.memory;
          blocks = before ++ g.0 ∷ g.1;
          run = free_busy busy ∙ j.run;
          chain =
              Chain-replace b behind before (g.0 ∷ g.1) m j.memory 0x10 c
                (λ y lt. j.same y lt ∙ own_ne m b.start 0 y (omega arith)) j.chain;
          view =
              coalesce-append before (g.0 ∷ g.1) (freed b ∷ behind)
                (coalesce-gather (freed b) behind refl);
        }
  ]
