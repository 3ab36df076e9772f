-- ===== src/Hma/Joins.antt =====
-- joinMCBs makes one block of a block and the free ones behind it.
use fdpp.Base.{
  ℕ, zero, suc, ◌+◌, ◌%◌, ◌<◌, ◌≡◌, ◌≢◌, refl, sym, ap, ◌∙◌, inl, inr, List, [], ◌∷◌, ◌==◌, false,
  some, if◌then◌else◌, length, Bool-cases, ==_false, arith,
}
use fdpp.MemMgr.{success}
use fdpp.Hma.{Headers, store, take_in, join}
use fdpp.Hma.Chain.{
  Block, Chain, Below, grow, push, coalesce, Chain-le, Chain-frame, Heads-next, Heads-last,
}
use fdpp.Hma.Views.{coalesce-coalesce, push-push, push_idle}

abbrev pub gather : Block → List Block → Block × List Block
gather b [] = (b, [])
gather b (c ∷ l) = if c.owner == 0 then gather (grow b c) l else (b, c ∷ l)

take_in_self :
    (m : Headers) (p q : ℕ)
    → p ≢ q
    → take_in m p q p
      ≡ record (m p) { next = (m q).next; size = ((m p).size + ((m q).size + 16)) % 0x1_0000 }
unfolding take_in store
take_in_self m p q h = ground arith

take_in_ne : (m : Headers) (p q y : ℕ) → y ≢ p → y ≢ q → take_in m p q y ≡ m y
unfolding take_in store
take_in_ne m p q y h k = ground arith

-- One round.
take_in-Chain :
    (m : Headers) (b c : Block) (l : List Block)
    → Chain m b.start (b ∷ c ∷ l)
    → Chain (take_in m b.start c.start) b.start (grow b c ∷ l)
take_in-Chain m b c l (s, z, h, (s', z', h', d)) =
    let le = Chain-le l m (b.start + 16 + b.size + 16 + c.size) d in
    let ne : b.start ≢ c.start = λ e. absurd (omega arith) in
    let t = take_in_self m b.start c.start ne in
    let hs = h.size in
    let hs' = h'.size in
    let hn = h'.next in
    let e : b.start + 16 + b.size + 16 + c.size ≡ b.start + 16 + (b.size + (c.size + 16)) =
      omega arith in
    (
      refl,
      omega arith,
      record {
        signature = ap (λ r. r.signature) t ∙ h.signature;
        owner = ap (λ r. r.owner) t ∙ h.owner;
        size = ap (λ r. r.size) t ∙ omega arith;
        next = ap (λ r. r.next) t ∙ omega arith;
      },
      rw (← e) (
          Chain-frame l (b.start + 16 + b.size + 16 + c.size)
            (λ y k. take_in_ne m b.start c.start y (omega arith) (omega arith)) d),
    )

pub gather_start : (b : Block) (l : List Block) → (gather b l).0.start ≡ b.start
gather_start b [] = refl
gather_start b (c ∷ l) = elim (Bool-cases (c.owner == 0)) [
  | inl e ↦ rw e (gather_start (grow b c) l)
  | inr e ↦ rw e refl
]

pub gather_owner : (b : Block) (l : List Block) → (gather b l).0.owner ≡ b.owner
gather_owner b [] = refl
gather_owner b (c ∷ l) = elim (Bool-cases (c.owner == 0)) [
  | inl e ↦ rw e (gather_owner (grow b c) l)
  | inr e ↦ rw e refl
]

-- The view is the same, and behind what is joined there is no free block.
pub gather-coalesce :
    (b : Block) (l : List Block)
    → b.owner ≡ 0
    → coalesce (b ∷ l) ≡ (gather b l).0 ∷ coalesce (gather b l).1
gather-coalesce b [] h = refl
gather-coalesce b (c ∷ l) h = elim (Bool-cases (c.owner == 0)) [
  | inl e ↦ rw e (push-push b c (coalesce l) h (ground arith) ∙ gather-coalesce (grow b c) l h)
  | inr e ↦ rw (e, push_idle c (coalesce l) e) (push_stop b c (coalesce l) e)
]
  where
    push_stop : (b c : Block) (l : List Block) → (c.owner == 0) ≡ false → push b (c ∷ l) ≡ b ∷ c ∷ l
    push_stop b c l e = ground arith

pub coalesce-gather :
    (b : Block) (l : List Block)
    → b.owner ≡ 0
    → coalesce ((gather b l).0 ∷ (gather b l).1) ≡ coalesce (b ∷ l)
coalesce-gather b l h =
    sym (ap (push (gather b l).0) (coalesce-coalesce (gather b l).1))
    ∙ (ap coalesce (sym (gather-coalesce b l h)) ∙ coalesce-coalesce (b ∷ l))

-- What joinMCBs does, below fuel for the blocks behind.
pub record Joined (f : ℕ) (m : Headers) (b : Block) (l : List Block) : Type 0 where
  pub memory : Headers
  pub run : join f m b.start ≡ some (success, memory)
  pub chain : Chain memory b.start ((gather b l).0 ∷ (gather b l).1)
  pub same : Below b.start m memory

pub join-Joined :
    (f : ℕ) (m : Headers) (b : Block) (l : List Block)
    → length l < f
    → Chain m b.start (b ∷ l)
    → Joined f m b l
unfolding join
join-Joined zero m b l h c = elim h [ ]
join-Joined (suc f) m b [] h c =
    let (s, z, d, k) = c in
    let e : (m b.start).next ≡ 0 = Heads-last d k in
    record { memory = m; run = rw e refl; chain = c; same = λ y k. refl }
join-Joined (suc f) m b (c ∷ l) h (s, z, d, k) =
    let (e, n) = Heads-next c l d k in
    let (s', z', d', k') = k in
    elim (Bool-cases (c.owner == 0)) [
      | inl i ↦
          let r =
            join-Joined f (take_in m b.start c.start) (grow b c) l (omega arith)
              (take_in-Chain m b c l (s, z, d, k)) in
          record {
            memory = r.memory;
            run = rw (e, ==_false _ _ n, d'.owner, i, d'.signature) r.run;
            chain = rw i r.chain;
            same = λ y lt. r.same y lt ∙ take_in_ne m b.start c.start y (omega arith) (omega arith);
          }
      | inr i ↦ record {
        memory = m;
        run = rw (e, ==_false _ _ n, d'.owner, i) refl;
        chain = rw i (s, z, d, k);
        same = λ y lt. refl;
      }
    ]
