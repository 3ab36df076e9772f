-- ===== src/Hma/Checks.antt =====
-- The first blocks of the area, and the walk to the last one.
use fdpp.Base.{
  ℕ, zero, suc, ◌+◌, ◌-◌, ◌%◌, ◌<◌, ◌≡◌, refl, sym, ap, ◌∙◌, ◌⊎◌, inl, inr, List, [], ◌∷◌, true,
  some, ltb, if◌then◌else◌, length, ==_false, lt→ltb, arith,
}
use mathlib.Core.Path.{subst}
use fdpp.MemMgr.{success}
use fdpp.Hma.{Headers, store, rounds, walk, dos_hma_query, hma_init_first_mcb}
use fdpp.Hma.Chain.{Block, Chain, Chain-le, Heads-next, Heads-last}

-- The free block at `off`, behind one that DOS keeps.
abbrev pub first_blocks : ℕ → List Block
first_blocks off =
    let b : Block = record { start = off; owner = 0; size = 0xfff0 - off } in
    if ltb 0x20 off
    then record { start = 0x10; owner = 0xffff; size = off - 0x20 } ∷ b ∷ []
    else b ∷ []

-- HMAInitFirstMcb of the first offset, or of any paragraph above 0x20, makes a chain of blocks: the rest
-- of the area is free, and DOS keeps what is in front of it.
pub hma_init_first_mcb-Chain :
    (m : Headers) (off : ℕ)
    → off % 16 ≡ 0
    → (off ≡ 0x10) ⊎ ((0x20 < off) × (off < 0x1_0000))
    → Chain (hma_init_first_mcb m off) 0x10 (first_blocks off)
unfolding hma_init_first_mcb store
hma_init_first_mcb-Chain m off z (inl e) = rw e (refl, omega arith, ground arith, omega arith)
hma_init_first_mcb-Chain m off z (inr (h, k)) =
    rw (lt→ltb 0x20 off h)
      (refl, omega arith, ground arith, (omega arith, omega arith, ground arith, omega arith))

abbrev pub last_block : Block → List Block → Block
last_block b [] = b
last_block b (c ∷ l) = last_block c l

walk_last :
    (f : ℕ) (m : Headers) (b : Block) (l : List Block)
    → length l < f
    → Chain m b.start (b ∷ l)
    → walk f m b.start ≡ some (success, (last_block b l).start)
unfolding walk
walk_last zero m b l h c = elim h [ ]
walk_last (suc f) m b [] h (s, z, d, k) = rw (Heads-last d k) refl
walk_last (suc f) m b (c ∷ l) h (s, z, d, k) =
    let (e, n) = Heads-next c l d k in
    rw (e, ==_false _ _ n, d.signature)
      (walk_last f m c l (omega arith) (subst (λ x. Chain m x (c ∷ l)) (sym k.0) k))

last_size :
    (m : Headers) (b : Block) (l : List Block)
    → Chain m b.start (b ∷ l)
    → (m (last_block b l).start).size ≡ (last_block b l).size
last_size m b [] (s, z, d, k) = d.size
last_size m b (c ∷ l) (s, z, d, k) = last_size m c l (subst (λ x. Chain m x (c ∷ l)) (sym k.0) k)

query_walk :
    (m : Headers) (p : ℕ)
    → walk rounds m 0x10 ≡ some (success, p)
    → dos_hma_query true m ≡ some (success, some (p, (m p).size))
unfolding dos_hma_query
query_walk m p e = rw (e, dos_hma_query) refl

-- DosHMAQuery of a chain of blocks gives the offset of the header of the last one, and its size.
pub dos_hma_query_lem :
    (m : Headers) (b : Block) (l : List Block)
    → Chain m 0x10 (b ∷ l)
    → dos_hma_query true m ≡ some (success, some ((last_block b l).start, (last_block b l).size))
dos_hma_query_lem m b l (s, z, h, k) =
    let le = Chain-le l m (0x10 + 16 + b.size) k in
    let c : Chain m b.start (b ∷ l) =
      (refl, z, h, subst (λ x. Chain m (x + 16 + b.size) l) (sym s) k) in
    query_walk m (last_block b l).start (
      subst (λ x. walk rounds m x ≡ some (success, (last_block b l).start)) s
        (walk_last rounds m b l (omega arith) c))
    ∙ ap (λ x. some (success, some ((last_block b l).start, x))) (last_size m b l c)
