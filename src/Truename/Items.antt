-- ===== src/Truename/Items.antt =====
-- The path that a source spells: names, ".", and "..", with separators between them.
use fdpp.Base.{
  ℕ, suc, ◌+◌, ◌-◌, ◌≤◌, ◌<◌, ◌≡◌, ◌≢◌, refl, sym, ap, ◌∙◌, Bool, true, false, Option, none, some,
  List, [], ◌∷◌, ◌++◌, ◌==◌, length, length-append, ==_false, arith,
}
use mathlib.Core.List.{append_assoc}
use fdpp.Truename.{
  gives, fname_size, remote_path_max, is_sep, dir_char, is_end, add_char, put_char, component,
}

-- A character of a name that stands for itself.
abbrev pub IsLetter : ℕ → Type 0
IsLetter c = (dir_char c ≡ true) × (is_sep c ≡ false) × (c ≢ 0x2e) × (c ≢ 0x2a) × (c ≢ 0x3f)

abbrev pub AllLetters : List ℕ → Type 0
AllLetters [] = Unit {0}
AllLetters (c ∷ t) = IsLetter c × AllLetters t

-- A name without an extension, one with it, ".", and "..".
pub data Item : Type 0 where
  bare : List ℕ → Item
  with_ext : List ℕ → List ℕ → Item
  here : Item
  up : Item

abbrev pub text : Item → List ℕ
text (bare n) = n
text (with_ext n e) = n ++ 0x2e ∷ e
text here = 0x2e ∷ []
text up = 0x2e ∷ 0x2e ∷ []

abbrev pub IsItem : Item → Type 0
IsItem (bare n) = AllLetters n × (1 ≤ length n) × (length n ≤ 8)
IsItem (with_ext n e) =
    AllLetters n × (1 ≤ length n) × (length n ≤ 8) × AllLetters e × (1 ≤ length e) × (length e ≤ 3)
IsItem here = Unit {0}
IsItem up = Unit {0}

-- Each item with the separators in front of it.
abbrev pub spell : List (List ℕ × Item) → List ℕ
spell [] = []
spell ((q, i) ∷ l) = q ++ (text i ++ spell l)

abbrev pub AllSeps : List ℕ → Type 0
AllSeps [] = Unit {0}
AllSeps (c ∷ q) = (is_sep c ≡ true) × AllSeps q

-- Behind an item is a separator, or the end.
abbrev pub IsSource : List (List ℕ × Item) → Type 0
IsSource [] = Unit {0}
IsSource ((q, i) ∷ l) = AllSeps q × IsItem i × (is_end (spell l) ≡ true) × IsSource l

-- The texts with one separator each.
abbrev pub size : List (List ℕ × Item) → ℕ
size [] = 0
size ((q, i) ∷ l) = 1 + length (text i) + size l

-- The names that are left, the last one first; `none` above the root.
abbrev pub step : Item → List Item → Option (List Item)
step (bare n) st = some (bare n ∷ st)
step (with_ext n e) st = some (with_ext n e ∷ st)
step here st = some st
step up [] = none
step up (i ∷ st) = some st

abbrev pub go_on : Option (List Item) → (List Item → Option (List Item)) → Option (List Item)
go_on none f = none
go_on (some st) f = f st

abbrev pub resolve : List (List ℕ × Item) → List Item → Option (List Item)
resolve [] st = some st
resolve ((q, i) ∷ l) st = go_on (step i st) (resolve l)

-- A text written behind another one, which is reversed.
abbrev pub onto : List ℕ → List ℕ → List ℕ
onto [] o = o
onto (c ∷ t) o = onto t (c ∷ o)

-- The prefix, reversed, with names behind it.
abbrev pub path : List ℕ → List Item → List ℕ
path p [] = p
path p (i ∷ st) = onto (text i) (0x5c ∷ path p st)

pub length-onto : (t o : List ℕ) → length (onto t o) ≡ length t + length o
length-onto [] o = omega arith
length-onto (c ∷ t) o = omega (arith, length-onto t (c ∷ o))

onto-append : (t u o : List ℕ) → onto (t ++ u) o ≡ onto u (onto t o)
onto-append [] u o = refl
onto-append (c ∷ t) u o = onto-append t u (c ∷ o)

-- The loop over a component, at a letter, at letters, at the dot, and at the end.
put_char_letter :
    (i : ℕ) (c : ℕ) (s out : List ℕ)
    → dir_char c ≡ true
    → length out < remote_path_max
    → put_char (suc i) c s out ≡ gives (i, c ∷ out)
unfolding put_char add_char
put_char_letter i c s out g room = ground arith

not_colon : (c : ℕ) → dir_char c ≡ true → (c == 0x3a) ≡ false
not_colon c g = ==_false c 0x3a (λ e. absurd (ground arith))

component_letter :
    (dev : Bool) (i : ℕ) (dot : Bool) (c : ℕ) (s out : List ℕ)
    → IsLetter c
    → length out < remote_path_max
    → component dev (suc i) dot false (c ∷ s) out ≡ component dev i dot false s (c ∷ out)
unfolding component
component_letter dev i dot c s out (g, n, d, a, q) room =
    rw
      (
        n,
        not_colon c g,
        ==_false c 0x2a a,
        ==_false c 0x2e d,
        ==_false c 0x3f q,
        put_char_letter i c s out g room,
      )
      refl

component_letters :
    (dev : Bool) (dot : Bool) (t : List ℕ) (k : ℕ) (s out : List ℕ)
    → AllLetters t
    → length out + length t ≤ remote_path_max
    → (i : ℕ) → i ≡ length t + k
    → component dev i dot false (t ++ s) out ≡ component dev k dot false s (onto t out)
component_letters dev dot [] k s out l room i e =
    let q : i ≡ k = omega arith in ap (λ x. component dev x dot false s out) q
component_letters dev dot (c ∷ t) k s out (h, l) room i e =
    let q : i ≡ suc (length t + k) = omega arith in
    ap (λ x. component dev x dot false (c ∷ (t ++ s)) out) q
    ∙ (component_letter dev (length t + k) dot c (t ++ s) out h (omega arith)
        ∙ component_letters dev dot t k s (c ∷ out) l (omega arith) (length t + k) refl)

component_end :
    (dev : Bool) (i : ℕ) (dot : Bool) (s out : List ℕ)
    → is_end s ≡ true
    → component dev i dot false s out ≡ gives (record { src = s; out = out; wild = false })
unfolding component
component_end dev i dot [] out e = refl
component_end dev i dot (c ∷ s) out e = rw e refl

component_dot :
    (dev : Bool) (i : ℕ) (s out : List ℕ)
    → is_end s ≡ false
    → length out < remote_path_max
    → component dev i false false (0x2e ∷ s) out ≡ component dev 3 true false s (0x2e ∷ out)
unfolding component
component_dot dev i s out e room = rw (e, put_char_letter 3 0x2e s out refl room) refl

-- The names.
pub component_bare :
    (dev : Bool) (n s out : List ℕ)
    → IsItem (bare n)
    → is_end s ≡ true
    → length out + length n ≤ remote_path_max
    → component dev fname_size false false (n ++ s) out
      ≡ gives (record { src = s; out = onto n out; wild = false })
component_bare dev n s out (l, lo, hi) e room =
    component_letters dev false n (8 - length n) s out l room 8 (omega arith)
    ∙ component_end dev (8 - length n) false s (onto n out) e

pub letters_go_on : (e s : List ℕ) → AllLetters e → 1 ≤ length e → is_end (e ++ s) ≡ false
letters_go_on [] s l h = absurd (omega arith)
letters_go_on (c ∷ e) s ((g, n, d, a, q), l) h = n

pub component_ext :
    (dev : Bool) (n e s out : List ℕ)
    → IsItem (with_ext n e)
    → is_end s ≡ true
    → length out + length (n ++ 0x2e ∷ e) ≤ remote_path_max
    → component dev fname_size false false ((n ++ 0x2e ∷ e) ++ s) out
      ≡ gives (record { src = s; out = onto (n ++ 0x2e ∷ e) out; wild = false })
component_ext dev n e s out (l, lo, hi, k, le, he) z room =
    let w = length-append n (0x2e ∷ e) in
    let v = length-onto n out in
    ap (λ x. component dev 8 false false x out) (append_assoc n (0x2e ∷ e) s)
    ∙ (component_letters dev false n (8 - length n) (0x2e ∷ (e ++ s)) out l (omega arith) 8
          (omega arith)
        ∙ (component_dot dev (8 - length n) (e ++ s) (onto n out) (letters_go_on e s k le)
              (omega arith)
            ∙ (component_letters dev true e (3 - length e) s (0x2e ∷ onto n out) k (omega arith) 3
                  (omega arith)
                ∙ (component_end dev (3 - length e) true s (onto e (0x2e ∷ onto n out)) z
                    ∙ ap (λ x. gives (record { src = s; out = x; wild = false }))
                        (sym (onto-append n (0x2e ∷ e) out))))))
