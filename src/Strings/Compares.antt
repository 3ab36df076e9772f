-- ===== src/Strings/Compares.antt =====
-- What fstrcmp and fstrncmp of kernel/strings.c compare.
use fdpp.Base.{
  ℕ, zero, suc, ◌+◌, ◌-◌, ◌%◌, ◌<◌, ◌≡◌, refl, sym, ap, ◌∙◌, ◌↔◌, inl, inr, Bool, true, false, List,
  [], ◌∷◌, leb, ◌==◌, if◌then◌else◌, arith, Bool-cases, take, ==_iff, ==_false, ℕ_discrete,
}
use mathlib.Core.Path.{subst}
use fdpp.Strings.{ℤ, pos, negsuc, minus, fstrcmp, fstrncmp_from, fstrncmp, count_le}

minus_self : (c : ℕ) → minus c c ≡ pos 0
unfolding minus
minus_self c =
    let whole : leb c c ≡ true = ground arith in
    let none_left : c - c ≡ 0 = omega arith in rw (whole, none_left) refl

-- Whether a difference is 0.
is_zero : ℤ → Bool
is_zero (pos n) = n == 0
is_zero (negsuc n) = false

minus-is_zero : (d s : ℕ) → is_zero (minus d s) ≡ true → d ≡ s
unfolding minus is_zero
minus-is_zero d s e = elim (Bool-cases (leb s d)) [
  | inl y ↦
      let e' : is_zero (pos (d - s)) ≡ true =
        subst (λ (b : Bool). is_zero (if b then pos (d - s) else negsuc (s - d - 1)) ≡ true) y e in
      ground (arith, y, e')
  | inr n ↦
      let e' : false ≡ true =
        subst (λ (b : Bool). is_zero (if b then pos (d - s) else negsuc (s - d - 1)) ≡ true) n e in
      absurd (ground (arith, e'))
]

-- A string has no 0 in it.
pub data IsString : List ℕ → Type 0 where
  nil : IsString []
  cons : {c : ℕ} {s : List ℕ} → 0 < c → IsString s → IsString (c ∷ s)

fstrcmp_self : (s : List ℕ) → fstrcmp s s ≡ pos 0
unfolding fstrcmp
fstrcmp_self [] = minus_self 0
fstrcmp_self (c ∷ s) = rw ((==_iff c c).1 refl) (fstrcmp_self s)

fstrcmp-is_zero : {d s : List ℕ} → IsString d → IsString s → is_zero (fstrcmp d s) ≡ true → d ≡ s
unfolding fstrcmp
fstrcmp-is_zero nil nil e = refl
fstrcmp-is_zero nil (cons {c} q qs) e = absurd (omega (arith, minus-is_zero 0 c e, q))
fstrcmp-is_zero (cons {c} p ps) nil e = absurd (omega (arith, minus-is_zero c 0 e, p))
fstrcmp-is_zero (cons {c = d} {s = ds} p ps) (cons {c} {s} q qs) e = elim (ℕ_discrete d c) [
  | yes h ↦
      let e' : is_zero (fstrcmp ds s) ≡ true =
        subst (λ (b : Bool). is_zero (if b then fstrcmp ds s else minus d c) ≡ true)
          ((==_iff d c).1 h) e in
      ap (λ (x : ℕ). x ∷ ds) h ∙ ap (λ (l : List ℕ). c ∷ l) (fstrcmp-is_zero ps qs e')
  | no h ↦
      let e' : is_zero (minus d c) ≡ true =
        subst (λ (b : Bool). is_zero (if b then fstrcmp ds s else minus d c) ≡ true)
          (==_false d c h) e in
      absurd (h (minus-is_zero d c e'))
]

-- fstrcmp of two strings is 0 exactly if they are the same.
pub fstrcmp_lem : (d s : List ℕ) → IsString d → IsString s → (fstrcmp d s ≡ pos 0) ↔ (d ≡ s)
unfolding is_zero
fstrcmp_lem d s p q = (
  λ e. fstrcmp-is_zero p q (ap is_zero e),
  λ e. subst (λ (l : List ℕ). fstrcmp d l ≡ pos 0) e (fstrcmp_self d),
)

last_one : (d s : ℕ) → minus d s ≡ (if d == s then minus 0 0 else minus d s)
last_one d s = elim (ℕ_discrete d s) [
  | yes e ↦ rw ((==_iff d s).1 e, e) (minus_self s ∙ sym (minus_self 0))
  | no ne ↦ rw (==_false d s ne) refl
]

from_index :
    (k index l : ℕ) (d s : List ℕ)
    → index + k ≡ l + 1
    → l < 0x7fff
    → fstrncmp_from index d s l ≡ fstrcmp (take (suc k) d) (take (suc k) s)
unfolding fstrncmp_from fstrcmp count_le
from_index k index l [] [] e small = refl
from_index k index l [] (c ∷ s) e small = refl
from_index k index l (c ∷ d) [] e small = refl
from_index zero index l (c ∷ d) (c' ∷ s) e small =
    let stop : count_le index l ≡ false = ground (arith, e, small) in rw stop (last_one c c')
from_index (suc k) index l (c ∷ d) (c' ∷ s) e small =
    let more : count_le index l ≡ true = ground (arith, e, small) in
    let next : (index + 1) % 0x1_0000 ≡ index + 1 = omega (arith, e, small) in
    rw (more, next, from_index k (index + 1) l d s (omega (arith, e)) small) refl

-- fstrncmp of two strings and a length from 0 to 0x7ffe compares one character more than the
-- length says.
pub fstrncmp-fstrcmp :
    (d s : List ℕ) (l : ℕ) → l < 0x7fff → fstrncmp d s l ≡ fstrcmp (take (suc l) d) (take (suc l) s)
unfolding fstrncmp
fstrncmp-fstrcmp d s l small = from_index l 1 l d s (omega arith) small

unlimited : (index : ℕ) (d s : List ℕ) → fstrncmp_from index d s 0x7fff ≡ fstrcmp d s
unfolding fstrncmp_from fstrcmp count_le
unlimited index [] [] = refl
unlimited index [] (c ∷ s) = refl
unlimited index (c ∷ d) [] = refl
unlimited index (c ∷ d) (c' ∷ s) =
    let more : count_le index 0x7fff ≡ true = ground arith in
    rw (more, unlimited ((index + 1) % 0x1_0000) d s) refl

-- With the length 0x7fff, the largest of a COUNT, the index wraps around before the test fails, and
-- fstrncmp compares the strings to their ends.
fstrncmp_unlimited : (d s : List ℕ) → fstrncmp d s 0x7fff ≡ fstrcmp d s
unfolding fstrncmp
fstrncmp_unlimited d s = unlimited 1 d s
