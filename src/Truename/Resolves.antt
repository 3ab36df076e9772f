-- ===== src/Truename/Resolves.antt =====
-- The loop of truename as a walk over the items of a source.
use fdpp.Base.{
  ℕ, zero, suc, ◌+◌, ◌≤◌, ◌<◌, ◌≡◌, refl, sym, ap, ◌∙◌, inl, inr, Bool, false, Option, none, some,
  List, [], ◌∷◌, ◌++◌, ◌==◌, if◌then◌else◌, length, length-append, Option-cases, by_test, arith,
}
use mathlib.Core.List.{append_assoc}
use fdpp.Truename.{
  Error, Answer, gives, fails, Parsed, remote_path_max, is_end, add_char, add_sep, skip_seps,
  segment, append, append_path, de_pathnotfnd,
}
use fdpp.Truename.Paths.{NoSep}
use fdpp.Truename.Items.{
  Item, bare, with_ext, here, up, text, IsItem, spell, AllSeps, IsSource, size, step, go_on,
  resolve, onto, path, length-onto, letters_go_on,
}
use fdpp.Truename.Walks.{AllNames, NoSlash, names-NoSlash, left, segment_item}

append_err :
    (f : ℕ) (dev : Bool) (root : ℕ) (t out o : List ℕ) (x : Error)
    → 1 ≤ length t
    → add_sep 0x5c t out ≡ gives o
    → segment dev root (skip_seps t) o ≡ fails x
    → append (suc f) dev root 0x5c false t out ≡ some (fails x)
unfolding append
append_err f dev root [] out o x n a g = absurd (omega arith)
append_err f dev root (c ∷ t) out o x n a g = rw (a, append, g) refl

append_ok :
    (f : ℕ) (dev : Bool) (root : ℕ) (t out o : List ℕ) (r : Parsed)
    → 1 ≤ length t
    → add_sep 0x5c t out ≡ gives o
    → segment dev root (skip_seps t) o ≡ gives r
    → append (suc f) dev root 0x5c false t out ≡ append f dev root 0x5c r.wild r.src r.out
unfolding append
append_ok f dev root [] out o r n a g = absurd (omega arith)
append_ok f dev root (c ∷ t) out o r n a g = rw (a, append, g) refl

onto-NoSep : (t o : List ℕ) → NoSlash t → 1 ≤ length t → NoSep (onto t o)
onto-NoSep [] o n h = absurd (omega arith)
onto-NoSep (c ∷ []) o (n, m) h = n
onto-NoSep (c ∷ d ∷ t) o (n, m) h = onto-NoSep (d ∷ t) (c ∷ o) m (omega arith)

text_pos : (i : Item) → IsItem i → 1 ≤ length (text i)
text_pos (bare n) (l, lo, hi) = lo
text_pos (with_ext n e) (l, lo, hi, k, le, he) = omega (arith, length-append n (0x2e ∷ e))
text_pos here w = omega arith
text_pos up w = omega arith

item_of : (i : Item) (st : List Item) → AllNames (i ∷ st) → IsItem i
item_of (bare n) st h = h.0
item_of (with_ext n e) st h = h.0
item_of here st h = absurd h
item_of up st h = absurd h

path-NoSep : (p : List ℕ) (st : List Item) → NoSep p → AllNames st → NoSep (path p st)
path-NoSep p [] front h = front
path-NoSep p (i ∷ st) front h =
    onto-NoSep (text i) (0x5c ∷ path p st) (names-NoSlash i st h).0 (text_pos i (item_of i st h))

add_sep_path :
    (t o : List ℕ) → NoSep o → length o < remote_path_max → add_sep 0x5c t o ≡ gives (0x5c ∷ o)
unfolding add_sep add_char
add_sep_path t [] n h = absurd n
add_sep_path t (c ∷ o) n h = ground arith

item_starts : (i : Item) (s : List ℕ) → IsItem i → is_end (text i ++ s) ≡ false
item_starts (bare n) s (l, lo, hi) = letters_go_on n s l lo
item_starts (with_ext n e) s (l, lo, hi, k, le, he) =
    ap is_end (append_assoc n (0x2e ∷ e) s) ∙ letters_go_on n (0x2e ∷ (e ++ s)) l lo
item_starts here s w = refl
item_starts up s w = refl

skip_seps_lem : (q x : List ℕ) → AllSeps q → is_end x ≡ false → skip_seps (q ++ x) ≡ x
unfolding skip_seps
skip_seps_lem [] [] a e = refl
skip_seps_lem [] (c ∷ x) a e = rw e refl
skip_seps_lem (c ∷ q) x (h, a) e = rw h (skip_seps_lem q x a e)

-- A step of the resolve: what it leaves are names, and what the path may grow by.
step-AllNames :
    (i : Item) (st st' : List Item) → IsItem i → AllNames st → step i st ≡ some st' → AllNames st'
step-AllNames (bare n) st st' w h e = let q : st' ≡ bare n ∷ st = cc in rw q (w, h)
step-AllNames (with_ext n x) st st' w h e = let q : st' ≡ with_ext n x ∷ st = cc in rw q (w, h)
step-AllNames here st st' w h e = let q : st' ≡ st = cc in rw q h
step-AllNames up [] st' w h e = absurd (cc)
step-AllNames up (i ∷ st) st' w h e = let q : st' ≡ st = cc in rw q (names-NoSlash i st h).1

step-le :
    (p : List ℕ) (i : Item) (st st' : List Item)
    → step i st ≡ some st'
    → length (path p st') ≤ length (path p st) + 1 + length (text i)
step-le p (bare n) st st' e =
    let q : st' ≡ bare n ∷ st = cc in rw q (omega (arith, length-onto n (0x5c ∷ path p st)))
step-le p (with_ext n x) st st' e =
    let q : st' ≡ with_ext n x ∷ st = cc in
    rw q (omega (arith, length-onto (n ++ 0x2e ∷ x) (0x5c ∷ path p st)))
step-le p here st st' e = let q : st' ≡ st = cc in rw q (omega arith)
step-le p up [] st' e = absurd (cc)
step-le p up (i ∷ st) st' e =
    let q : st' ≡ st = cc in rw q (omega (arith, length-onto (text i) (0x5c ∷ path p st)))

-- What the source leaves.
abbrev found : List ℕ → Option (List Item) → Answer (List ℕ × Bool)
found p (some st) = gives (path p st, false)
found p none = fails de_pathnotfnd

append-resolve :
    (dev : Bool) (p : List ℕ) (l : List (List ℕ × Item)) (f : ℕ) (st : List Item)
    → NoSep p
    → AllNames st
    → IsSource l
    → length l ≤ f
    → length (path p st) + size l ≤ remote_path_max
    → append f dev (length p) 0x5c false (spell l) (path p st) ≡ some (found p (resolve l st))
unfolding append
append-resolve dev p [] f st front names src h room = refl
append-resolve dev p ((q, i) ∷ l) zero st front names src h room = absurd (omega arith)
append-resolve dev p ((q, i) ∷ l) (suc f) st front names (seps, w, ends, src) h room =
    let t = q ++ (text i ++ spell l) in
    let long : 1 ≤ length t = omega (
      arith,
      length-append q (text i ++ spell l),
      length-append (text i) (spell l),
      text_pos i w,
    ) in
    let a = add_sep_path t (path p st) (path-NoSep p st front names) (omega arith) in
    let g : segment dev (length p) (skip_seps t) (0x5c ∷ path p st) ≡ left p (spell l) (step i st) =
      ap (λ x. segment dev (length p) x (0x5c ∷ path p st))
        (skip_seps_lem q (text i ++ spell l) seps (item_starts i (spell l) w))
      ∙ segment_item dev p front st names (spell l) ends i w (omega arith) in
    elim (Option-cases (step i st)) [
      | inl e ↦
          append_err f dev (length p) t (path p st) (0x5c ∷ path p st) de_pathnotfnd long a
            (g ∙ ap (left p (spell l)) e)
          ∙ ap (λ o. some (found p (go_on o (resolve l)))) (sym e)
      | inr (st', e) ↦
          append_ok f dev (length p) t (path p st) (0x5c ∷ path p st)
            (record { src = spell l; out = path p st'; wild = false }) long a
            (g ∙ ap (left p (spell l)) e)
          ∙ (append-resolve dev p l f st' front (step-AllNames i st st' w names e) src (omega arith)
                (omega (arith, step-le p i st st' e))
              ∙ ap (λ o. some (found p (go_on o (resolve l)))) (sym e))
    ]

-- The path as it is returned: a backslash is put behind a prefix of two characters.
abbrev pub spelled : List ℕ → Option (List Item) → Answer (List ℕ)
spelled p none = fails de_pathnotfnd
spelled p (some st) =
    if length (path p st) == 2 then add_char 0x5c [] (path p st) else gives (path p st)

length-spell : (l : List (List ℕ × Item)) → IsSource l → length l ≤ length (spell l)
length-spell [] src = omega arith
length-spell ((q, i) ∷ l) (seps, w, ends, src) = omega (
  arith,
  length-append q (text i ++ spell l),
  length-append (text i) (spell l),
  text_pos i w,
  length-spell l src,
)

returned :
    (dev : Bool) (p : List ℕ) (allow : Bool) (s out : List ℕ) (o : Option (List Item))
    → append (length s) dev (length p) 0x5c false s out ≡ some (found p o)
    → append_path dev (length p) 0x5c allow s out ≡ some (spelled p o)
unfolding append_path
returned dev p allow s out none e = rw (e, append_path) refl
returned dev p allow s out (some st) e =
    rw (e, append_path)
      (by_test
        (λ x.
          x
          ≡ some
              (if length (path p st) == 2 then add_char 0x5c [] (path p st) else gives (path p st)))
        (length (path p st) == 2) (some (add_char 0x5c [] (path p st))) (some (gives (path p st)))
        (λ b. rw b refl) (λ b. rw b refl))

-- If a source consists of names in 8.3 form without wildcards, of "." and of "..", with any separators in
-- front of them, and all of it has room, then the part of truename that appends it to a path behind a
-- prefix leaves the names of that path and of the source, where "." changes nothing and ".." takes
-- the last name away; each name has one backslash in front. If a ".." stands where no name is left, the result
-- is DE_PATHNOTFND. Behind a prefix of two characters with no name there is a backslash.
pub append_path-resolve :
    (dev : Bool) (p : List ℕ) (allow : Bool) (l : List (List ℕ × Item)) (st : List Item)
    → NoSep p
    → AllNames st
    → IsSource l
    → length (path p st) + size l ≤ remote_path_max
    → append_path dev (length p) 0x5c allow (spell l) (path p st) ≡ some (spelled p (resolve l st))
append_path-resolve dev p allow l st front names src room =
    returned dev p allow (spell l) (path p st) (resolve l st)
      (append-resolve dev p l (length (spell l)) st front names src (length-spell l src) room)
