-- ===== src/Hma/Returns.antt =====
-- What is allocated and freed at once leaves the view as it was.
use fdpp.Base.{
  ℕ, ◌+◌, ◌-◌, ◌%◌, ◌≤◌, ◌≡◌, ◌≢◌, refl, sym, ap, ◌∙◌, inl, inr, List, [], ◌∷◌, ◌++◌, ◌==◌, true,
  false, Bool, Option, none, some, ==_iff, ==_false, ℕ_discrete, arith,
}
use mathlib.Core.List.{append_assoc}
use fdpp.MemMgr.{Status, success, de_nomem}
use fdpp.Hma.{Headers, dos_hma_alloc, dos_hma_free}
use fdpp.Hma.Chain.{Block, Chain, push, coalesce, Chain-le, Chain-at}
use fdpp.Hma.Views.{coalesce-append, coalesce-coalesce, push-push}
use fdpp.Hma.Places.{granted, pieces}
use fdpp.Hma.Allocates.{Granted, dos_hma_alloc-Granted}
use fdpp.Hma.Frees.{freed, dos_hma_free-Freed}

-- DosHMAFree succeeds and leaves blocks with the view of the list.
pub record Restored (o : Option (Status × Headers)) (l : List Block) : Type 0 where
  pub memory : Headers
  pub blocks : List Block
  pub run : o ≡ some (success, memory)
  pub chain : Chain memory 0x10 blocks
  pub view : coalesce blocks ≡ coalesce l

-- The pieces, the one that was granted freed, are the block again.
module _ (psp size : ℕ) (b : Block) (idle : b.owner ≡ 0) (fits : size ≤ b.size)
    (l : List Block) where
  freed_whole :
      size ≡ b.size → (b' : Block) → b' ≡ record b { owner = psp; size = size } → freed b' ≡ b
  freed_whole e b' q = rw q (ground arith)

  freed_up :
      size + 16 ≤ b.size
      → coalesce (
          freed (record b { owner = psp; size = size })
          ∷ record { start = b.start + 16 + size; owner = 0; size = b.size - size - 16 }
          ∷ l)
        ≡ coalesce (b ∷ l)
  freed_up gap =
      push-push (record b { owner = 0; size = size })
        (record { start = b.start + 16 + size; owner = 0; size = b.size - size - 16 }) (coalesce l)
        refl refl
      ∙ ap (λ x. push x (coalesce l)) (ground arith)

  freed_down :
      size + 16 ≤ b.size
      → coalesce (record b { size = b.size - size - 16 } ∷ freed (granted true psp size b) ∷ l)
        ≡ coalesce (b ∷ l)
  freed_down gap =
      push-push (record b { size = b.size - size - 16 }) (freed (granted true psp size b))
        (coalesce l) idle refl
      ∙ ap (λ x. push x (coalesce l)) (ground arith)

restore :
    (m : Headers) (l before : List Block) (g : Block) (behind : List Block)
    → g.size ≢ 0
    → Chain m 0x10 (before ++ g ∷ behind)
    → coalesce (before ++ freed g ∷ behind) ≡ coalesce l
    → Restored (dos_hma_free true m ((g.start + 16) % 0x1_0000)) l
restore m l before g behind n c e =
    let (s, z, h, k) = Chain-at g behind before m 0x10 c in
    let le = Chain-le behind m (g.start + 16 + g.size) k in
    let r =
      dos_hma_free-Freed m ((g.start + 16) % 0x1_0000) before g behind (omega arith) (omega arith)
        c in
    record { memory = r.memory; blocks = r.blocks; run = r.run; chain = r.chain; view = r.view ∙ e }

-- The view of the list, with the block that was found in it.
view_lem :
    (l before : List Block) (b : Block) (behind : List Block)
    → coalesce l ≡ before ++ b ∷ coalesce behind
    → coalesce (before ++ b ∷ behind) ≡ coalesce l
view_lem l before b behind e =
    coalesce-append before (b ∷ behind) (b ∷ coalesce behind)
      (ap (push b) (sym (coalesce-coalesce behind)))
    ∙ (ap coalesce (sym e) ∙ coalesce-coalesce l)

Granted-Restored :
    (o : Option (Status × Option ℕ × Headers)) (topdown : Bool) (size psp : ℕ) (l : List Block)
    → size % 16 ≡ 0
    → size ≢ 0
    → (v : Granted o topdown size psp l)
    → Restored
        (dos_hma_free true v.memory (((granted topdown psp size v.block).start + 16) % 0x1_0000))
        l
Granted-Restored o topdown size psp l even n v =
    let b = v.block in
    let old = view_lem l v.before b v.behind v.view in
    elim (ℕ_discrete size b.size) [
      | yes e ↦
          let t : (size == b.size) ≡ true = (==_iff size b.size).1 e in
          let c : Chain v.memory 0x10 (v.before ++ granted topdown psp size b ∷ v.behind) =
            rw t at (v.chain) in
          restore v.memory l v.before (granted topdown psp size b) v.behind n c
            (ap (λ x. coalesce (v.before ++ x ∷ v.behind)) (whole topdown b e v.idle) ∙ old)
      | no e ↦
          let t : (size == b.size) ≡ false = ==_false size b.size e in
          let parts = v.even in
          let gap : size + 16 ≤ b.size = omega arith in
          let rest = b.size - size - 16 in
          elim topdown
              as (λ d.
                Chain v.memory 0x10 (v.before ++ (pieces d psp size b ++ v.behind))
                → Restored
                    (dos_hma_free true v.memory (((granted d psp size b).start + 16) % 0x1_0000))
                    l) [
                      | true ↦ λ c.
                          let first = record b { size = rest } in
                          let g = granted true psp size b in
                          restore v.memory l (v.before ++ first ∷ []) g v.behind n
                            (rw (append_assoc v.before (first ∷ []) (g ∷ v.behind)) (rw t at c))
                            (ap coalesce (append_assoc v.before (first ∷ []) (freed g ∷ v.behind))
                              ∙ (coalesce-append v.before (first ∷ freed g ∷ v.behind)
                                    (b ∷ v.behind)
                                    (freed_down psp size b v.idle v.fits v.behind gap)
                                  ∙ old))
                      | false ↦ λ c.
                          let second : Block = record {
                            start = b.start + 16 + size;
                            owner = 0;
                            size = rest;
                          } in
                          let g = granted false psp size b in
                          restore v.memory l v.before g (second ∷ v.behind) n (rw t at c) (
                            coalesce-append v.before (freed g ∷ second ∷ v.behind) (b ∷ v.behind)
                              (freed_up psp size b v.idle v.fits v.behind gap)
                            ∙ old)
                    ]
            v.chain
    ]
  where
    whole : (d : Bool) (b : Block) → size ≡ b.size → b.owner ≡ 0 → freed (granted d psp size b) ≡ b
    whole true b e i = ground arith
    whole false b e i = ground arith

-- If DosHMAAlloc of a size above 0, in paragraphs, succeeds on a chain of blocks, DosHMAFree of the
-- offset that it returns succeeds, and the blocks in use and the runs of free ones are as before.
pub dos_hma_free-alloc :
    (m m' : Headers) (size psp off : ℕ) (topdown : Bool) (l : List Block)
    → size % 16 ≡ 0
    → size ≢ 0
    → Chain m 0x10 l
    → dos_hma_alloc true m size topdown psp ≡ some (success, some off, m')
    → Restored (dos_hma_free true m' off) l
dos_hma_free-alloc m m' size psp off topdown l even n c e =
    elim (dos_hma_alloc-Granted m size psp topdown even l c) [
      | inl v ↦
          let p = sym v.run ∙ e in
          let o : (((granted topdown psp size v.block).start + 16) % 0x1_0000) ≡ off = cc in
          let w : v.memory ≡ m' = cc in
          rw (← o, ← w)
            (Granted-Restored (dos_hma_alloc true m size topdown psp) topdown size psp l even n v)
      | inr v ↦ let p = sym v.run ∙ e in absurd (refused v.memory m' off p)
    ]
  where
    refused :
        (a b : Headers) (off : ℕ)
        → ◌≡◌ {A = Option (Status × Option ℕ × Headers)}
            (some (de_nomem, none, a))
            (some (success, some off, b))
        → ⊥
    refused a b off p = cc
