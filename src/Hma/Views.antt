-- ===== src/Hma/Views.antt =====
-- The view is one whatever way free space is cut.
use fdpp.Base.{◌≡◌, refl, ap, ◌∙◌, inl, inr, List, [], ◌∷◌, ◌++◌, ◌==◌, false, Bool-cases, arith}
use mathlib.Core.Path.{sym}
use mathlib.Core.Bool.{◌&&◌}
use fdpp.Hma.Chain.{Block, grow, push, coalesce}

pub push-push :
    (b c : Block) (l : List Block)
    → b.owner ≡ 0
    → c.owner ≡ 0
    → push b (push c l) ≡ push (grow b c) l
push-push b c [] h k = ground arith
push-push b c (d ∷ l) h k = ground arith

pub coalesce-push : (b : Block) (l : List Block) → coalesce (push b l) ≡ push b (coalesce l)
coalesce-push b [] = refl
coalesce-push b (c ∷ l) = elim (Bool-cases (b.owner == 0 && c.owner == 0)) [
  | inl e ↦
      let s : coalesce (push b (c ∷ l)) ≡ push (grow b c) (coalesce l) = rw e refl in
      s ∙ sym (push-push b c (coalesce l) (ground arith) (ground arith))
  | inr e ↦ rw e refl
]

pub coalesce-coalesce : (l : List Block) → coalesce (coalesce l) ≡ coalesce l
coalesce-coalesce [] = refl
coalesce-coalesce (b ∷ l) = coalesce-push b (coalesce l) ∙ ap (push b) (coalesce-coalesce l)

pub coalesce-append :
    (xs l k : List Block) → coalesce l ≡ coalesce k → coalesce (xs ++ l) ≡ coalesce (xs ++ k)
coalesce-append [] l k e = e
coalesce-append (x ∷ xs) l k e = ap (push x) (coalesce-append xs l k e)

pub push_idle : (b : Block) (l : List Block) → (b.owner == 0) ≡ false → push b l ≡ b ∷ l
push_idle b [] h = refl
push_idle b (c ∷ l) h = rw h refl
