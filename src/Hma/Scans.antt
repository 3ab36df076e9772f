-- ===== src/Hma/Scans.antt =====
-- The loop of DosHMAAlloc takes the first run of free blocks that is large enough.
use fdpp.Base.{
  ℕ, zero, suc, ◌+◌, ◌≤◌, ◌<◌, ◌≡◌, refl, sym, ap, ◌∙◌, ◌⊎◌, inl, inr, List, [], ◌∷◌, ◌++◌, ◌==◌,
  ◌&&◌, true, false, Option, none, some, leb, if◌then◌else◌, length, Bool-cases, ==_false, arith,
}
use mathlib.Core.Path.{subst}
use fdpp.MemMgr.{Status, success}
use fdpp.Hma.{Headers, hmcb_free, hmcb_sig, rounds, join, find_block}
use fdpp.Hma.Chain.{
  Block, Chain, Below, grow, coalesce, Chain-le, Heads-frame, Heads-next, Heads-last,
}
use fdpp.Hma.Views.{push_idle}
use fdpp.Hma.Joins.{gather, gather_start, gather_owner, gather-coalesce, join-Joined}

-- No block of the list is free and has the size.
abbrev pub AllSmall : ℕ → List Block → Type 0
AllSmall size [] = Unit {0}
AllSmall size (b ∷ l) = (b.owner ≡ 0 → b.size < size) × AllSmall size l

abbrev Outcome : Type 0
Outcome = Option (Status × Option ℕ × Headers)

pub record Found (o : Outcome) (m : Headers) (size a : ℕ) (l : List Block) : Type 0 where
  pub memory : Headers
  pub before : List Block
  pub block : Block
  pub behind : List Block
  pub run : o ≡ some (success, some block.start, memory)
  pub chain : Chain memory a (before ++ block ∷ behind)
  pub view : coalesce l ≡ before ++ block ∷ coalesce behind
  pub first : AllSmall size before
  pub idle : block.owner ≡ 0
  pub fits : size ≤ block.size
  pub same : Below a m memory

pub record Missed (o : Outcome) (m : Headers) (size a : ℕ) (l : List Block) : Type 0 where
  pub memory : Headers
  pub run : o ≡ some (success, none, memory)
  pub chain : Chain memory a (coalesce l)
  pub small : AllSmall size (coalesce l)
  pub same : Below a m memory

abbrev pub Scanned : Outcome → Headers → ℕ → ℕ → List Block → Type 0
Scanned o m size a l = Found o m size a l ⊎ Missed o m size a l

module _ (f : ℕ) (m n : Headers) (p size : ℕ) (valid : (m p).signature ≡ hmcb_sig)
    (joins : (if hmcb_free (m p) then join rounds m p else some (success, m))
      ≡ some (success, n)) where
  scan_hit :
      (hmcb_free (m p) && leb size (n p).size) ≡ true
      → find_block (suc f) m p size ≡ some (success, some p, n)
  unfolding find_block
  scan_hit h = rw (valid, joins, h, find_block) refl

  scan_end :
      (hmcb_free (m p) && leb size (n p).size) ≡ false
      → (n p).next ≡ 0
      → find_block (suc f) m p size ≡ some (success, none, n)
  unfolding find_block
  scan_end h e = rw (valid, joins, h, e, find_block) refl

  scan_on :
      (hmcb_free (m p) && leb size (n p).size) ≡ false
      → ((n p).next == 0) ≡ false
      → find_block (suc f) m p size ≡ find_block f n (n p).next size
  unfolding find_block
  scan_on h e = rw (valid, joins, h, e, find_block) refl

-- Behind a block that does not fit.
scan_ahead :
    (f : ℕ) (o : Outcome) (m n : Headers) (size : ℕ) (g : Block) (r l : List Block)
    → Chain n g.start (g ∷ r)
    → (g.owner ≡ 0 → g.size < size)
    → coalesce l ≡ g ∷ coalesce r
    → Below g.start m n
    → (((n g.start).next == 0) ≡ false → o ≡ find_block f n (n g.start).next size)
    → ((n g.start).next ≡ 0 → o ≡ some (success, none, n))
    → ((c : Block) (r' : List Block)
        → length r' < length r
        → Chain n c.start (c ∷ r')
        → Scanned (find_block f n c.start size) n size c.start (c ∷ r'))
    → Scanned o m size g.start l
scan_ahead f o m n size g [] l (s, z, d, k) small view same on end ih = inr (record {
  memory = n;
  run = end (Heads-last d k);
  chain = rw view (s, z, d, k);
  small = rw view (small, tt);
  same = same;
})
scan_ahead f o m n size g (c ∷ r') l (s, z, d, k) small view same on end ih =
    let (e, ne) = Heads-next c r' d k in
    let le = k.0 in
    let run = on (rw e (==_false _ _ ne)) ∙ ap (λ x. find_block f n x size) e in
    elim (ih c r' (omega arith) (subst (λ x. Chain n x (c ∷ r')) (sym le) k)) [
      | inl v ↦ inl (record {
        memory = v.memory;
        before = g ∷ v.before;
        block = v.block;
        behind = v.behind;
        run = run ∙ v.run;
        chain = (refl, z, Heads-frame g (v.same g.start (omega arith)) d, rw (← le) v.chain);
        view = view ∙ ap (λ t. g ∷ t) v.view;
        first = (small, v.first);
        idle = v.idle;
        fits = v.fits;
        same = λ y lt. v.same y (omega arith) ∙ same y lt;
      })
      | inr v ↦ inr (record {
        memory = v.memory;
        run = run ∙ v.run;
        chain =
            rw view (refl, z, Heads-frame g (v.same g.start (omega arith)) d, rw (← le) v.chain);
        small = rw view (small, v.small);
        same = λ y lt. v.same y (omega arith) ∙ same y lt;
      })
    ]

length-gather : (b : Block) (l : List Block) → length (gather b l).1 ≤ length l
length-gather b [] = omega arith
length-gather b (c ∷ l) = elim (Bool-cases (c.owner == 0)) [
  | inl e ↦ rw e (omega (arith, length-gather (grow b c) l))
  | inr e ↦ rw e (omega arith)
]

-- A free block, after it is joined with those behind.
scan_free :
    (f : ℕ) (m n : Headers) (size : ℕ) (b g : Block) (l r : List Block)
    → (m b.start).signature ≡ hmcb_sig
    → (m b.start).owner ≡ 0
    → g.start ≡ b.start
    → g.owner ≡ 0
    → coalesce (b ∷ l) ≡ g ∷ coalesce r
    → join rounds m b.start ≡ some (success, n)
    → Chain n b.start (g ∷ r)
    → Below b.start m n
    → ((c : Block) (r' : List Block)
        → length r' < length r
        → Chain n c.start (c ∷ r')
        → Scanned (find_block f n c.start size) n size c.start (c ∷ r'))
    → Scanned (find_block (suc f) m b.start size) m size b.start (b ∷ l)
scan_free f m n size b g l r valid o gs go view run (s, z, d, k) same ih =
    let joins : (if hmcb_free (m b.start) then join rounds m b.start else some (success, m))
        ≡ some (success, n) =
      rw o run in
    let gsize : (n b.start).size ≡ g.size = rw (← gs) d.size in
    elim (Bool-cases (leb size g.size)) [
      | inl fits ↦ inl (record {
        memory = n;
        before = [];
        block = g;
        behind = r;
        run = rw gs (scan_hit f m n b.start size valid joins (rw (o, gsize, fits) refl));
        chain = (s, z, d, k);
        view = view;
        first = tt;
        idle = go;
        fits = ground arith;
        same = same;
      })
      | inr large ↦
          let none_fits : (hmcb_free (m b.start) && leb size (n b.start).size) ≡ false =
            rw (o, gsize, large) refl in
          subst (λ x. Scanned (find_block (suc f) m b.start size) m size x (b ∷ l)) gs
            (scan_ahead f (find_block (suc f) m b.start size) m n size g r (b ∷ l)
              (refl, z, d, rw gs k) (λ _. ground arith) view (rw gs same)
              (rw gs (scan_on f m n b.start size valid joins none_fits))
              (rw gs (scan_end f m n b.start size valid joins none_fits)) ih)
    ]

pub find_block-Scanned :
    (f : ℕ) (m : Headers) (size : ℕ) (b : Block) (l : List Block)
    → length l < f
    → Chain m b.start (b ∷ l)
    → Scanned (find_block f m b.start size) m size b.start (b ∷ l)
find_block-Scanned zero m size b l h c = elim h [ ]
find_block-Scanned (suc f) m size b l h (s, z, d, k) = elim (Bool-cases (b.owner == 0)) [
  | inl idle ↦
      let j =
        join-Joined rounds m b l (omega (arith, Chain-le l m (b.start + 16 + b.size) k))
          (s, z, d, k) in
      scan_free f m j.memory size b (gather b l).0 l (gather b l).1 d.signature
        (d.owner ∙ ground arith) (gather_start b l) (gather_owner b l ∙ ground arith)
        (gather-coalesce b l (ground arith)) j.run j.chain j.same
        (λ c r' lt. find_block-Scanned f j.memory size c r' (omega (arith, length-gather b l)))
  | inr busy ↦
      let joins : (if hmcb_free (m b.start) then join rounds m b.start else some (success, m))
          ≡ some (success, m) =
        rw (d.owner, busy) refl in
      let none_fits : (hmcb_free (m b.start) && leb size (m b.start).size) ≡ false =
        rw (d.owner, busy) refl in
      scan_ahead f (find_block (suc f) m b.start size) m m size b l (b ∷ l) (s, z, d, k)
        (λ e. absurd (ground arith)) (push_idle b (coalesce l) busy) (λ y lt. refl)
        (scan_on f m m b.start size d.signature joins none_fits)
        (scan_end f m m b.start size d.signature joins none_fits)
        (λ c r' lt. find_block-Scanned f m size c r' (omega arith))
]
