-- ===== src/Hma/Calls.antt =====
-- The calls of int 2f keep the area a chain of blocks.
use fdpp.Base.{
  ℕ, ◌+◌, ◌%◌, ◌≡◌, ◌<◌, ◌≤◌, refl, inl, inr, List, [], ◌∷◌, ◌++◌, ◌==◌, ◌||◌, not, Bool, true,
  false, Option, none, some, ltb, if◌then◌else◌, by_test, ==_iff, arith,
}
use fdpp.MemMgr.{success, de_nomem}
use fdpp.Hma.{Headers, hma_init_first_mcb, dos_hma_query, dos_hma_alloc, dos_hma_free}
use fdpp.Hma.Chain.{Block, Chain}
use fdpp.Hma.Checks.{first_blocks, hma_init_first_mcb-Chain, dos_hma_query_lem, last_block}
use fdpp.Hma.Allocates.{dos_hma_alloc-Granted}
use fdpp.Hma.Places.{granted}
use fdpp.Hma.Frees.{dos_hma_free-Freed}
use fdpp.Hma.Handler.{
  Regs, Area, Reserve, claim_hma, refused_regs, to_para, alloc_call, free_call, query_call,
  alloc_avail_call, claim_area, sub_call, int2f_4a,
}

abbrev pub IsSound : Area → Type 0
IsSound a = a.claimed ≡ true → (l : List Block) × Chain a.memory 0x10 l

-- The offset is that of a block of the chain.
pub record Names (m : Headers) (off : ℕ) : Type 0 where
  pub before : List Block
  pub block : Block
  pub behind : List Block
  pub chain : Chain m 0x10 (before ++ block ∷ behind)
  pub place : off ≡ block.start + 16
  pub low : off < 0x1_0000

-- A call returns, and leaves the area a chain of blocks if it is claimed.
pub record Answered (o : Option (Area × Regs)) : Type 0 where
  pub area : Area
  pub regs : Regs
  pub run : o ≡ some (area, regs)
  pub sound : IsSound area
  pub segment : regs.es ≡ 0xffff

alloc_unclaimed :
    (m : Headers) (size psp : ℕ) (topdown : Bool)
    → dos_hma_alloc false m size topdown psp ≡ some (de_nomem, none, m)
unfolding dos_hma_alloc
alloc_unclaimed m size psp topdown = refl

free_unclaimed : (m : Headers) (off : ℕ) → dos_hma_free false m off ≡ some (de_nomem, m)
unfolding dos_hma_free
free_unclaimed m off = refl

-- What the query finds, in paragraphs.
last_even :
    (m : Headers) (a : ℕ) (b : Block) (l : List Block)
    → Chain m a (b ∷ l)
    → (last_block b l).size % 16 ≡ 0
last_even m a b [] (s, z, h, k) = z
last_even m a b (c ∷ l) (s, z, h, k) = last_even m (a + 16 + b.size) c l k

queried :
    (m : Headers) (l : List Block)
    → Chain m 0x10 l
    → (offs avail : ℕ) × (avail % 16 ≡ 0)
      × (dos_hma_query true m ≡ some (success, some (offs, avail)))
queried m [] c = absurd (omega arith)
queried m (b ∷ l) c = (
  (last_block b l).start,
  (last_block b l).size,
  last_even m 0x10 b l c,
  dos_hma_query_lem m b l c,
)

abbrev area_of : Bool → Headers → Area
area_of claimed m = record { claimed = claimed; memory = m }

module _ (m : Headers) (r : Regs) (es : r.es ≡ 0xffff) where
  refused-Answered :
      (c : Bool) → IsSound (area_of c m) → Answered (some (area_of c m, refused_regs r))
  refused-Answered c sound = record {
    area = area_of c m;
    regs = refused_regs r;
    run = refl;
    sound = sound;
    segment = es;
  }

  alloc_call-Answered :
      (c : Bool) (topdown : Bool) (psp : ℕ)
      → IsSound (area_of c m)
      → r.bx % 16 ≡ 0
      → Answered (alloc_call (area_of c m) topdown psp r)
  unfolding alloc_call
  alloc_call-Answered false topdown psp sound even =
      rw (alloc_unclaimed m r.bx psp topdown, alloc_call) (refused-Answered false sound)
  alloc_call-Answered true topdown psp sound even =
      let (l, c) = sound refl in
      elim (dos_hma_alloc-Granted m r.bx psp topdown even l c) [
        | inl v ↦ record {
          area = area_of true v.memory;
          regs = record r { di = ((granted topdown psp r.bx v.block).start + 16) % 0x1_0000 };
          run = rw (v.run, alloc_call) refl;
          sound = λ _. (_, v.chain);
          segment = es;
        }
        | inr v ↦ record {
          area = area_of true v.memory;
          regs = refused_regs r;
          run = rw (v.run, alloc_call) refl;
          sound = λ _. (_, v.chain);
          segment = es;
        }
      ]

  free_call-Answered :
      (c : Bool)
      → IsSound (area_of c m)
      → (c ≡ true → Names m r.di)
      → Answered (free_call (area_of c m) r)
  unfolding free_call
  free_call-Answered false sound names =
      rw (free_unclaimed m r.di, free_call) (refused-Answered false sound)
  free_call-Answered true sound names =
      let n = names refl in
      let v = dos_hma_free-Freed m r.di n.before n.block n.behind n.place n.low n.chain in
      record {
        area = area_of true v.memory;
        regs = r;
        run = rw (v.run, free_call) refl;
        sound = λ _. (v.blocks, v.chain);
        segment = es;
      }

  query_call-Answered : (c : Bool) → IsSound (area_of c m) → Answered (query_call (area_of c m) r)
  unfolding query_call
  query_call-Answered false sound = refused-Answered false sound
  query_call-Answered true sound =
      let (l, c) = sound refl in
      let q = queried m l c in
      record {
        area = area_of true m;
        regs = record r { di = q.0; bx = q.1 };
        run = rw (q.3, query_call) refl;
        sound = sound;
        segment = es;
      }

module _ (m : Headers) (psp : ℕ) where
  alloc_avail_call-Answered :
      (r : Regs) (c : Bool)
      → r.es ≡ 0xffff
      → IsSound (area_of c m)
      → Answered (alloc_avail_call (area_of c m) psp r)
  unfolding alloc_avail_call
  alloc_avail_call-Answered r false es sound = refused-Answered m r es false sound
  alloc_avail_call-Answered r true es sound =
      let (l, c) = sound refl in
      let q = queried m l c in
      let bx = if ltb q.1 (to_para r.bx) then q.1 else to_para r.bx in
      let even : bx % 16 ≡ 0 =
        by_test (λ (x : ℕ). x % 16 ≡ 0) (ltb q.1 (to_para r.bx)) q.1 (to_para r.bx) (λ _. q.2)
          (λ _. omega arith) in
      rw (q.3, alloc_avail_call)
        (alloc_call-Answered m (record r { bx = bx }) es true false psp sound even)

  sub_call-Answered :
      (r : Regs) (c : Bool)
      → r.es ≡ 0xffff
      → IsSound (area_of c m)
      → (r.dl ≡ 2 → c ≡ true → Names m r.di)
      → Answered (sub_call (area_of c m) psp r)
  unfolding sub_call
  sub_call-Answered r c es sound names =
      by_test Answered (r.dl == 0 || r.dl == 1)
        (alloc_call (area_of c m) (r.dl == 1) psp (record r { bx = to_para r.bx })) _
        (λ _.
          alloc_call-Answered m (record r { bx = to_para r.bx }) es c (r.dl == 1) psp sound
            (omega arith))
        (λ _.
          by_test Answered (r.dl == 2) (free_call (area_of c m) r)
            (some (area_of c m, refused_regs r))
            (λ e. free_call-Answered m r es c sound (names ((==_iff r.dl 2).0 e)))
            (λ _. refused-Answered m r es c sound))

claim_hma-false : (s : Reserve) → (claim_hma s false).1 ≡ false → (claim_hma s false).0 ≡ false
unfolding claim_hma
claim_hma-false s h = ground arith

-- Claiming makes the first block.
claimed_now :
    (m : Headers) (c : Bool × Bool)
    → (c.1 ≡ false → c.0 ≡ false)
    → IsSound
        (if◌then◌else◌ {A = Area × Bool}
          (not c.1)
          (area_of c.0 m, false)
          (area_of c.0 (hma_init_first_mcb m 0x10), true)).0
claimed_now m (c, false) h = λ t. absurd (cc (h refl))
claimed_now m (c, true) h =
    λ t. (first_blocks 0x10, hma_init_first_mcb-Chain m 0x10 (omega arith) (inl refl))

claim_area-IsSound :
    (s : Reserve) (m : Headers) (c : Bool)
    → IsSound (area_of c m)
    → IsSound (claim_area s (area_of c m)).0
unfolding claim_area
claim_area-IsSound s m true sound = sound
claim_area-IsSound s m false sound = claimed_now m (claim_hma s false) (claim_hma-false s)

-- If the area, where it is claimed, is a chain of blocks, each of the calls 4A01 to 4A04 returns, with
-- ES = 0xffff, and leaves the area such a chain. A call that frees names a block of it, if it is claimed.
pub int2f_4a-IsSound :
    (s : Reserve) (a : Area) (psp al : ℕ) (r : Regs)
    → 1 ≤ al
    → al ≤ 4
    → IsSound a
    → (al ≡ 3 → r.dl ≡ 2 → (claim_area s a).0.claimed ≡ true → Names (claim_area s a).0.memory r.di)
    → Answered (int2f_4a s a psp al r)
unfolding int2f_4a
int2f_4a-IsSound s a psp al r low high sound names =
    let r' = record r { es = 0xffff } in
    let c = claim_area s a in
    let w : IsSound c.0 = claim_area-IsSound s a.memory a.claimed sound in
    by_test Answered (al == 1) (query_call a r') _
      (λ _. query_call-Answered a.memory r' refl a.claimed sound)
      (λ n₁.
        by_test Answered (al == 2) (alloc_avail_call a psp r') _
          (λ _. alloc_avail_call-Answered a.memory psp r' a.claimed refl sound)
          (λ n₂.
            by_test Answered (al == 3)
              (if not c.1 then some (c.0, refused_regs r') else sub_call c.0 psp r') _
              (λ e.
                by_test Answered (not c.1) (some (c.0, refused_regs r')) (sub_call c.0 psp r')
                  (λ _. refused-Answered c.0.memory r' refl c.0.claimed w)
                  (λ _.
                    sub_call-Answered c.0.memory psp r' c.0.claimed refl w
                      (names ((==_iff al 3).0 e))))
              (λ n₃.
                by_test Answered (al == 4)
                  (if not c.1
                    then some (c.0, refused_regs r')
                    else some (c.0, record r' { ax = 0; di = 0x10 }))
                  none
                  (λ _.
                    by_test Answered (not c.1) (some (c.0, refused_regs r'))
                      (some (c.0, record r' { ax = 0; di = 0x10 }))
                      (λ _. refused-Answered c.0.memory r' refl c.0.claimed w)
                      (λ _. record {
                        area = c.0;
                        regs = record r' { ax = 0; di = 0x10 };
                        run = refl;
                        sound = w;
                        segment = refl;
                      }))
                  (λ n₄. absurd (ground arith)))))
