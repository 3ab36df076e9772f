-- ===== src/Truename/Walks.antt =====
-- The steps of the loop of truename at items.
use fdpp.Base.{
  ℕ, ◌+◌, ◌≤◌, ◌<◌, ◌≡◌, ◌≢◌, refl, ap, ◌∙◌, Bool, true, false, Option, none, some, List, [], ◌∷◌,
  ◌++◌, length, ==_false, arith,
}
use mathlib.Core.List.{append_assoc}
use fdpp.Truename.{
  Answer, gives, fails, Parsed, remote_path_max, is_end, back_up, dots, dot_entry, segment,
  de_pathnotfnd,
}
use fdpp.Truename.Paths.{NoSep}
use fdpp.Truename.Items.{
  AllLetters, Item, bare, with_ext, here, up, text, IsItem, step, onto, path, length-onto,
  component_bare, component_ext,
}

-- Names on the path, and going back over the last one.
abbrev pub AllNames : List Item → Type 0
AllNames [] = Unit {0}
AllNames (bare n ∷ st) = IsItem (bare n) × AllNames st
AllNames (with_ext n e ∷ st) = IsItem (with_ext n e) × AllNames st
AllNames (here ∷ st) = ⊥
AllNames (up ∷ st) = ⊥

abbrev pub NoSlash : List ℕ → Type 0
NoSlash [] = Unit {0}
NoSlash (c ∷ t) = (c ≢ 0x5c) × NoSlash t

letters-NoSlash : (t : List ℕ) → AllLetters t → NoSlash t
letters-NoSlash [] l = tt
letters-NoSlash (c ∷ t) ((g, n, d, a, q), l) = (λ e. absurd (ground arith), letters-NoSlash t l)

NoSlash-append : (t u : List ℕ) → NoSlash t → NoSlash u → NoSlash (t ++ u)
NoSlash-append [] u a b = b
NoSlash-append (c ∷ t) u (h, a) b = (h, NoSlash-append t u a b)

pub names-NoSlash : (i : Item) (st : List Item) → AllNames (i ∷ st) → NoSlash (text i) × AllNames st
names-NoSlash (bare n) st ((l, lo, hi), r) = (letters-NoSlash n l, r)
names-NoSlash (with_ext n e) st ((l, lo, hi, k, le, he), r) = (
  NoSlash-append n (0x2e ∷ e) (letters-NoSlash n l)
      (λ z. absurd (omega arith), letters-NoSlash e k),
  r,
)
names-NoSlash here st h = absurd h
names-NoSlash up st h = absurd h

length-path : (p : List ℕ) (st : List Item) → length p ≤ length (path p st)
length-path p [] = omega arith
length-path p (i ∷ st) = omega (arith, length-path p st, length-onto (text i) (0x5c ∷ path p st))

back_up_char :
    (root c : ℕ) (o : List ℕ) → c ≢ 0x5c → root < length o → back_up root (c ∷ o) ≡ back_up root o
unfolding back_up
back_up_char root c o n h = ground arith

back_up-onto :
    (root : ℕ) (t o : List ℕ)
    → NoSlash t
    → root < length o
    → back_up root (onto t o) ≡ back_up root o
back_up-onto root [] o n h = refl
back_up-onto root (c ∷ t) o (n, m) h =
    back_up-onto root t (c ∷ o) m (omega arith) ∙ back_up_char root c o n h

back_up_slash : (root : ℕ) (o : List ℕ) → back_up root (0x5c ∷ o) ≡ some o
unfolding back_up
back_up_slash root o = refl

back_up_root : (p : List ℕ) → NoSep p → back_up (length p) p ≡ none
unfolding back_up
back_up_root [] n = absurd n
back_up_root (c ∷ p) n = ground arith

-- What is left of the path, as the loop has it.
abbrev pub left : List ℕ → List ℕ → Option (List Item) → Answer Parsed
left p s (some st) = gives (record { src = s; out = path p st; wild = false })
left p s none = fails de_pathnotfnd

dots-none : (c : ℕ) (s : List ℕ) → c ≢ 0x2e → dots (c ∷ s) ≡ none
dots-none c [] n = rw (==_false c 0x2e n) refl
dots-none c (d ∷ s) n = rw (==_false c 0x2e n) refl

dots-name : (n s : List ℕ) → AllLetters n → 1 ≤ length n → dots (n ++ s) ≡ none
dots-name [] s l h = absurd (omega arith)
dots-name (c ∷ n) s ((g, e, d, a, q), l) h = dots-none c (n ++ s) d

dots_here : (s : List ℕ) → is_end s ≡ true → dots (0x2e ∷ s) ≡ some (s, false)
dots_here [] e = refl
dots_here (d ∷ s) e = rw (==_false d 0x2e (λ z. absurd (ground arith))) refl

back_step :
    (p s : List ℕ) (st : List Item) (o : List ℕ)
    → back_up (length p) o ≡ back_up (length p) (0x5c ∷ path p st)
    → dot_entry true (length p) s (0x5c ∷ o) ≡ left p s (some st)
unfolding dot_entry
back_step p s st o e =
    let b : back_up (length p) o ≡ some (path p st) = e ∙ back_up_slash (length p) (path p st) in
    rw (b, dot_entry) refl

module _ (dev : Bool) (p : List ℕ) (front : NoSep p) (st : List Item) (names : AllNames st)
    (s : List ℕ) (ends : is_end s ≡ true) where
  up-step : dot_entry true (length p) s (0x5c ∷ path p st) ≡ left p s (step up st)
  unfolding dot_entry
  up-step =
      elim st
          as (λ x.
            AllNames x → dot_entry true (length p) s (0x5c ∷ path p x) ≡ left p s (step up x)) [
              | [] ↦ λ _. rw (back_up_root p front, dot_entry) refl
              | i ∷ x ↦ λ h.
                  let (n, r) = names-NoSlash i x h in
                  let b =
                    back_up-onto (length p) (text i) (0x5c ∷ path p x) n
                      (omega (arith, length-path p x)) in
                  back_step p s x (path p (i ∷ x)) b
            ]
        names

  pub segment_item :
      (i : Item)
      → IsItem i
      → length (path p st) + 1 + length (text i) ≤ remote_path_max
      → segment dev (length p) (text i ++ s) (0x5c ∷ path p st) ≡ left p s (step i st)
  unfolding segment
  segment_item (bare n) (l, lo, hi) room =
      rw (dots-name n s l lo, segment)
        (component_bare dev n s (0x5c ∷ path p st) (l, lo, hi) ends (omega arith))
  segment_item (with_ext n e) (l, lo, hi, k, le, he) room =
      let d : dots ((n ++ 0x2e ∷ e) ++ s) ≡ none =
        ap dots (append_assoc n (0x2e ∷ e) s) ∙ dots-name n (0x2e ∷ (e ++ s)) l lo in
      rw (d, segment)
        (component_ext dev n e s (0x5c ∷ path p st) (l, lo, hi, k, le, he) ends (omega arith))
  segment_item here w room = rw (dots_here s ends, segment, ends) refl
  segment_item up w room = rw ends up-step
