-- ===== src/Hma/Allocates.antt =====
-- DosHMAAlloc as a whole.
use fdpp.Base.{
  ℕ, ◌+◌, ◌%◌, ◌≤◌, ◌≡◌, refl, sym, ap, ◌∙◌, ◌⊎◌, inl, inr, List, [], ◌∷◌, ◌++◌, Bool, true, Option,
  none, some, arith,
}
use mathlib.Core.Path.{subst}
use fdpp.MemMgr.{Status, success, de_nomem}
use fdpp.Hma.{Headers, rounds, find_block, divide, own, dos_hma_alloc}
use fdpp.Hma.Chain.{Block, Chain, coalesce, Chain-le, Chain-at, Chain-replace}
use fdpp.Hma.Scans.{AllSmall, Found, Scanned, find_block-Scanned}
use fdpp.Hma.Places.{granted, pieces}
use fdpp.Hma.Divides.{divide-Placed}

-- The first run of free blocks that is large enough is split, and all else stays.
pub record Granted (o : Option (Status × Option ℕ × Headers)) (topdown : Bool) (size psp : ℕ)
    (l : List Block) : Type 0 where
  pub before : List Block
  pub block : Block
  pub behind : List Block
  pub memory : Headers
  pub view : coalesce l ≡ before ++ block ∷ coalesce behind
  pub first : AllSmall size before
  pub idle : block.owner ≡ 0
  pub fits : size ≤ block.size
  pub even : block.size % 16 ≡ 0
  pub run :
      o ≡ some (success, some (((granted topdown psp size block).start + 16) % 0x1_0000), memory)
  pub chain : Chain memory 0x10 (before ++ (pieces topdown psp size block ++ behind))

-- No run of free blocks is large enough, and all stays but the way free space is cut.
pub record Refused (o : Option (Status × Option ℕ × Headers)) (size : ℕ) (l : List Block)
    : Type 0 where
  pub memory : Headers
  pub small : AllSmall size (coalesce l)
  pub run : o ≡ some (de_nomem, none, memory)
  pub chain : Chain memory 0x10 (coalesce l)

alloc_found :
    (m n : Headers) (size psp found : ℕ) (topdown : Bool)
    → find_block rounds m 0x10 size ≡ some (success, some found, n)
    → dos_hma_alloc true m size topdown psp
      ≡ some (
        success,
        some (((divide n found size topdown).0 + 16) % 0x1_0000),
        own (divide n found size topdown).1 (divide n found size topdown).0 psp,
      )
unfolding dos_hma_alloc
alloc_found m n size psp found topdown e = rw (e, dos_hma_alloc) refl

alloc_missed :
    (m n : Headers) (size psp : ℕ) (topdown : Bool)
    → find_block rounds m 0x10 size ≡ some (success, none, n)
    → dos_hma_alloc true m size topdown psp ≡ some (de_nomem, none, n)
unfolding dos_hma_alloc
alloc_missed m n size psp topdown e = rw (e, dos_hma_alloc) refl

module _ (m : Headers) (size psp : ℕ) (topdown : Bool) (even : size % 16 ≡ 0) where
  grant :
      (l : List Block)
      → Found (find_block rounds m 0x10 size) m size 0x10 l
      → Granted (dos_hma_alloc true m size topdown psp) topdown size psp l
  grant l v =
      let b = v.block in
      let at = Chain-at b v.behind v.before v.memory 0x10 v.chain in
      let p = divide-Placed v.memory psp size b v.behind even v.fits at topdown in
      let n = own (divide v.memory b.start size topdown).1 (granted topdown psp size b).start psp in
      record {
        before = v.before;
        block = b;
        behind = v.behind;
        memory = n;
        view = v.view;
        first = v.first;
        idle = v.idle;
        fits = v.fits;
        even = at.1;
        run =
            alloc_found m v.memory size psp b.start topdown v.run
            ∙ ap
                (λ x. some (
                  success,
                  some ((x + 16) % 0x1_0000),
                  own (divide v.memory b.start size topdown).1 x psp,
                ))
                p.header;
        chain =
            Chain-replace b v.behind v.before (pieces topdown psp size b ++ v.behind) v.memory n
              0x10 v.chain p.same p.chain;
      }

  -- DosHMAAlloc of a size in paragraphs, on a chain of blocks, ends: either the first run of free blocks
  -- that is large enough is split, the piece at its begin, or at its end if `topdown`, is owned by
  -- the process and its offset is the result, and all other blocks stay; or no run is large enough,
  -- the result is DE_NOMEM, and all blocks stay. Free neighbours may have become one block.
  pub dos_hma_alloc-Granted :
      (l : List Block)
      → Chain m 0x10 l
      → Granted (dos_hma_alloc true m size topdown psp) topdown size psp l
        ⊎ Refused (dos_hma_alloc true m size topdown psp) size l
  dos_hma_alloc-Granted [] c = absurd (omega arith)
  dos_hma_alloc-Granted (b ∷ l) (s, z, h, k) =
      let le = Chain-le l m (0x10 + 16 + b.size) k in
      let c : Chain m b.start (b ∷ l) =
        (refl, z, h, subst (λ x. Chain m (x + 16 + b.size) l) (sym s) k) in
      let r : Scanned (find_block rounds m 0x10 size) m size 0x10 (b ∷ l) =
        subst (λ x. Scanned (find_block rounds m x size) m size x (b ∷ l)) s
          (find_block-Scanned rounds m size b l (omega arith) c) in
      elim r [
        | inl v ↦ inl (grant (b ∷ l) v)
        | inr v ↦ inr (record {
          memory = v.memory;
          small = v.small;
          run = alloc_missed m v.memory size psp topdown v.run;
          chain = v.chain;
        })
      ]
