-- ===== src/Cache/Stores.antt =====
-- flush_buffers of kernel/blockio.c writes what the cache holds back.
use fdpp.Base.{
  ℕ, ◌≡◌, refl, ◌∙◌, Bool, true, List, [], ◌∷◌, ◌==◌, if◌then◌else◌, arith, by_test, ==_iff,
}
use mathlib.Core.Path.{subst}
use fdpp.Cache.{Buffer, Driver, flush1}
use fdpp.Cache.{Buffer, Driver, flush1, flush_some, flush_buffers}
use fdpp.Cache.Lists.{here, In, now, then_on, Unique, cons, not-In}
use fdpp.Cache.Blocks.{Unique-Takes}
use fdpp.Cache.Flush.{Obeys, Touched, flush1-keeps, flush1-stores}
use fdpp.Cache.Getblk.{IsCache, IsClean, rest-IsClean}

module _ {S Data : Type 0} {block : S → ℕ → ℕ → Data} {D : Driver S Data} (O : Obeys D block)
    (p : Buffer Data → Bool) where
  -- flush1 of the buffer, if it has the property.
  abbrev one : S → Buffer Data → Bool × Buffer Data × S
  one s x = if p x then flush1 D s x else (true, x, s)

  one-keeps :
      (s : S) (x : Buffer Data) (dsk blkno : ℕ)
      → (x.bfr_valid ≡ true → ¬ Touched x dsk blkno)
      → block (one s x).2 dsk blkno ≡ block s dsk blkno
  one-keeps s x dsk blkno away =
      by_test (λ (r : Bool × Buffer Data × S). block r.2 dsk blkno ≡ block s dsk blkno) (p x) _ _
        (λ y. flush1-keeps O s x dsk blkno away) (λ n. refl)

  flush_some-keeps :
      (l : List (Buffer Data)) (s : S) (dsk blkno : ℕ)
      → ((y : Buffer Data) → In y l → y.bfr_valid ≡ true → ¬ Touched y dsk blkno)
      → block (flush_some D p s l).2 dsk blkno ≡ block s dsk blkno
  unfolding flush_some
  flush_some-keeps [] s dsk blkno away = refl
  flush_some-keeps (x ∷ l) s dsk blkno away =
      flush_some-keeps l (one s x).2 dsk blkno (λ y i. away y (then_on x i))
      ∙ one-keeps s x dsk blkno (away x now)

  -- The others are in order still.
  one-IsCache :
      {x : Buffer Data} {l : List (Buffer Data)} {s : S}
      → IsCache block (x ∷ l) s
      → IsCache block l (one s x).2
  one-IsCache {x} {l} {s} C = split C.unique
    where
      split : Unique (x ∷ l) → IsCache block l (one s x).2
      split (cons _ f u) = record {
        unique = u;
        clean =
            by_test
              (λ (r : Bool × Buffer Data × S). (z : Buffer Data) → In z l → IsClean block r.2 z)
              (p x) _ _ (λ y. rest-IsClean C O here) (λ n z i. C.clean z (then_on x i));
        apart = λ y z i j. C.apart y z (then_on x i) (then_on x j);
      }

  flush_some-stores :
      (l : List (Buffer Data)) (s : S)
      → IsCache block l s
      → (flush_some D p s l).0 ≡ true
      → (x : Buffer Data) → In x l
      → p x ≡ true
      → x.bfr_valid ≡ true
      → block (flush_some D p s l).2 x.b_unit x.b_blkno ≡ x.b_buffer
  unfolding flush_some
  flush_some-stores [] s C ok x i e v = elim i [ ]
  flush_some-stores (_ ∷ l) s C ok x now e v =
      let first : (one s x).0 ≡ true = ground (arith, ok) in
      let flushed : (flush1 D s x).0 ≡ true =
        subst (λ (b : Bool). (if b then flush1 D s x else (true, x, s)).0 ≡ true) e first in
      let c = C.clean x now in
      let stored = flush1-stores O s x c.somewhere v (c.same v) flushed in
      flush_some-keeps l (one s x).2 x.b_unit x.b_blkno (λ y i w touched.
        let (a, b) = C.apart y x (then_on x i) now touched in
        let y_not = not-In x.b_unit x.b_blkno i ((Unique-Takes here C.unique).1 v) in
        absurd (ground (arith, y_not, w, a, b)))
      ∙ rw e stored
  flush_some-stores (y ∷ l) s C ok x (then_on _ i) e v =
      flush_some-stores l (one s y).2 (one-IsCache C) (ground (arith, ok)) x i e v

-- If flush_buffers of a drive succeeds, on a cache that is in order and over a driver that keeps its promises, the
-- disk has what each valid buffer of the drive holds.
pub flush_buffers_lem :
    {S Data : Type 0} {block : S → ℕ → ℕ → Data} {D : Driver S Data}
    → Obeys D block
    → (l : List (Buffer Data)) (s : S) (dsk : ℕ) → IsCache block l s
    → (flush_buffers D s l dsk).0 ≡ true
    → (x : Buffer Data) → In x l
    → x.b_unit ≡ dsk
    → x.bfr_valid ≡ true
    → block (flush_buffers D s l dsk).2 dsk x.b_blkno ≡ x.b_buffer
unfolding flush_buffers
flush_buffers_lem {block = block} {D = D} O l s dsk C ok x i e v =
    subst (λ (k : ℕ). block (flush_some D (λ y. y.b_unit == dsk) s l).2 k x.b_blkno ≡ x.b_buffer) e
      (flush_some-stores O (λ y. y.b_unit == dsk) l s C ok x i ((==_iff x.b_unit dsk).1 e) v)
