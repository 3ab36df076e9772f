-- ===== src/Hma/Chain.antt =====
-- The list of blocks that memory holds, and the view that forgets how free space is cut.
use fdpp.Base.{
  ℕ, ◌+◌, ◌*◌, ◌%◌, ◌≤◌, ◌<◌, ◌≡◌, ◌≢◌, refl, ap, ◌∙◌, List, [], ◌∷◌, ◌++◌, ◌==◌, ◌&&◌,
  if◌then◌else◌, length, arith,
}
use fdpp.Hma.{Hmcb, Headers, store, hmcb_sig}

pub record Block : Type 0 where
  pub start : ℕ
  pub owner : ℕ
  pub size : ℕ

-- The header of a block. The block that ends the area has 0 for the next.
pub record Heads (m : Headers) (b : Block) : Type 0 where
  pub signature : (m b.start).signature ≡ hmcb_sig
  pub owner : (m b.start).owner ≡ b.owner
  pub size : (m b.start).size ≡ b.size
  pub next : (m b.start).next ≡ (b.start + 16 + b.size) % 0x1_0000

-- From `a` to the end of the area the blocks follow one another without a gap, in paragraphs.
abbrev pub Chain : Headers → ℕ → List Block → Type 0
Chain m a [] = a ≡ 0x1_0000
Chain m a (b ∷ l) = (b.start ≡ a) × (b.size % 16 ≡ 0) × Heads m b × Chain m (a + 16 + b.size) l

abbrev pub Below : ℕ → Headers → Headers → Type 0
Below a m m' = (y : ℕ) → y < a → m' y ≡ m y

-- A free block and another one behind it, as one.
abbrev pub grow : Block → Block → Block
grow b c = record b { size = b.size + (c.size + 16) }

abbrev pub push : Block → List Block → List Block
push b [] = b ∷ []
push b (c ∷ l) = if b.owner == 0 && c.owner == 0 then grow b c ∷ l else b ∷ c ∷ l

-- The blocks, neighbours that are free as one.
abbrev pub coalesce : List Block → List Block
coalesce [] = []
coalesce (b ∷ l) = push b (coalesce l)

pub store_self : (m : Headers) (a : ℕ) (c : Hmcb) → store m a c a ≡ c
unfolding store
store_self m a c = ground arith

pub store_ne : (m : Headers) (a : ℕ) (c : Hmcb) (x : ℕ) → x ≢ a → store m a c x ≡ m x
unfolding store
store_ne m a c x h = ground arith

pub Chain-le : (l : List Block) (m : Headers) (a : ℕ) → Chain m a l → a + 16 * length l ≤ 0x1_0000
Chain-le [] m a c = omega arith
Chain-le (b ∷ l) m a (s, z, h, c) = omega (arith, Chain-le l m (a + 16 + b.size) c)

pub Heads-frame : {m m' : Headers} (b : Block) → m' b.start ≡ m b.start → Heads m b → Heads m' b
Heads-frame b e h = record {
  signature = ap (λ c. c.signature) e ∙ h.signature;
  owner = ap (λ c. c.owner) e ∙ h.owner;
  size = ap (λ c. c.size) e ∙ h.size;
  next = ap (λ c. c.next) e ∙ h.next;
}

pub Chain-frame :
    {m m' : Headers} (l : List Block) (a : ℕ)
    → ((y : ℕ) → a ≤ y → m' y ≡ m y)
    → Chain m a l
    → Chain m' a l
Chain-frame [] a same c = c
Chain-frame (b ∷ l) a same (s, z, h, c) = (
  s,
  z,
  Heads-frame b (same b.start (omega arith)) h,
  Chain-frame l (a + 16 + b.size) (λ y k. same y (omega arith)) c,
)

module _ (b : Block) (l : List Block) where
  -- The chain from a block of it on.
  pub Chain-at :
      (xs : List Block) (m : Headers) (a : ℕ) → Chain m a (xs ++ b ∷ l) → Chain m b.start (b ∷ l)
  Chain-at [] m a (s, z, h, c) = (refl, z, h, rw s c)
  Chain-at (x ∷ xs) m a (s, z, h, c) = Chain-at xs m (a + 16 + x.size) c

  pub Chain-start : (xs : List Block) (m : Headers) (a : ℕ) → Chain m a (xs ++ b ∷ l) → a ≤ b.start
  Chain-start [] m a (s, z, h, c) = omega arith
  Chain-start (x ∷ xs) m a (s, z, h, c) = omega (arith, Chain-start xs m (a + 16 + x.size) c)

  -- A change of the chain from a block on.
  pub Chain-replace :
      (xs k : List Block) (m m' : Headers) (a : ℕ)
      → Chain m a (xs ++ b ∷ l)
      → Below b.start m m'
      → Chain m' b.start k
      → Chain m' a (xs ++ k)
  Chain-replace [] k m m' a (s, z, h, c) same d = rw (← s) d
  Chain-replace (x ∷ xs) k m m' a (s, z, h, c) same d = (
    s,
    z,
    Heads-frame x (same x.start (omega (arith, Chain-start xs m (a + 16 + x.size) c))) h,
    Chain-replace xs k m m' (a + 16 + x.size) c same d,
  )

-- What a block that is followed by another one has for the next, and the last one.
pub Heads-next :
    {m : Headers} {b : Block} (c : Block) (l : List Block)
    → Heads m b
    → Chain m (b.start + 16 + b.size) (c ∷ l)
    → ((m b.start).next ≡ c.start) × (c.start ≢ 0)
Heads-next {m} {b} c l h k =
    let le = Chain-le (c ∷ l) m (b.start + 16 + b.size) k in
    let n = h.next in let s = k.0 in (omega arith, omega arith)

pub Heads-last :
    {m : Headers} {b : Block}
    → Heads m b
    → Chain m (b.start + 16 + b.size) []
    → (m b.start).next ≡ 0
Heads-last h k = let n = h.next in omega arith
