-- ===== src/Truename/Paths.antt =====
-- The path that truename writes: names in 8.3 form with one backslash in front of each.
use fdpp.Base.{
  ℕ, ◌≤◌, ◌<◌, ◌≡◌, ◌≢◌, refl, sym, ap, ◌∙◌, ◌⊎◌, inl, inr, Bool, false, none, some, List, [], ◌∷◌,
  ◌==◌, length, ==_iff, ==_false, arith,
}
use fdpp.Truename.{
  gives, fails, Parsed, fname_size, remote_path_max, add_char, component, back_up, add_sep, dots,
}
use fdpp.Truename.Names.{IsPlain, Adds, done, char, AddsName, stem, dotted, add_char_lem}
use fdpp.Truename.Parses.{Named, component-Named}

-- Behind the prefix up to rootPos, which is `p` reversed, come names, each with a backslash in front.
pub data IsPath (p : List ℕ) : List ℕ → Type 0 where
  top : {o : List ℕ} → o ≡ p → IsPath p o
  below : (o : List ℕ) {o' : List ℕ} → IsPath p o → Named (0x5c ∷ o) o' → IsPath p o'

-- There may be one more backslash behind the last name.
pub data IsWritten (p out : List ℕ) : Type 0 where
  closed : IsPath p out → IsWritten p out
  trailing : (o : List ℕ) → IsPath p o → out ≡ 0x5c ∷ o → IsWritten p out

-- The last character, if there is one, is no backslash.
abbrev pub NoSep : List ℕ → Type 0
NoSep [] = ⊥
NoSep (c ∷ o) = c ≢ 0x5c

plain-NoSep : (c : ℕ) → IsPlain c → c ≢ 0x5c
plain-NoSep c (d, s, n) e = absurd (ground arith)

Adds-NoSep : {k : ℕ} {o o' : List ℕ} → Adds k o o' → (o' ≡ o) ⊎ NoSep o'
Adds-NoSep done = inl refl
Adds-NoSep (char c p a) = elim (Adds-NoSep a) [
  | inl e ↦ inr (rw e (plain-NoSep c p))
  | inr n ↦ inr n
]

AddsName-NoSep : {k : ℕ} {o o' : List ℕ} → AddsName k o o' → (o' ≡ o) ⊎ NoSep o'
AddsName-NoSep (stem a) = Adds-NoSep a
AddsName-NoSep (dotted a e) = elim (Adds-NoSep e) [
  | inl q ↦ inr (rw q (λ z. absurd (omega arith)))
  | inr n ↦ inr n
]

module _ (p : List ℕ) (front : NoSep p) where
  IsPath-NoSep : {o : List ℕ} → IsPath p o → NoSep o
  IsPath-NoSep (top e) = rw e front
  IsPath-NoSep (below o w (c, q, a)) = elim (AddsName-NoSep a) [
    | inl e ↦ rw e (plain-NoSep c q)
    | inr z ↦ z
  ]

  -- The backslash is there once.
  pub add_sep_lem :
      (s out o : List ℕ)
      → IsWritten p out
      → add_sep 0x5c s out ≡ gives o
      → (o₀ : List ℕ) × IsPath p o₀
        × (o ≡ 0x5c ∷ o₀)
        × (length out ≤ remote_path_max → length o ≤ remote_path_max)
  unfolding add_sep
  add_sep_lem s [] o (closed w) h = absurd (IsPath-NoSep w)
  add_sep_lem s (c ∷ out) o (closed w) h =
      let n : (c == 0x5c) ≡ false = ==_false c 0x5c (IsPath-NoSep w) in
      let h' : add_char 0x5c s (c ∷ out) ≡ gives o = rw n at h in
      let (q, b) = add_char_lem 0x5c s (c ∷ out) o h' in (c ∷ out, w, q, λ _. b)
  add_sep_lem s [] o (trailing o₀ w e) h = absurd (cc)
  add_sep_lem s (c ∷ out) o (trailing o₀ w e) h =
      let k : c ≡ 0x5c = ap (λ (t : List ℕ). elim t [ [] ↦ 0x5c | x ∷ y ↦ x ]) e in
      let h' : gives (c ∷ out) ≡ gives o = rw ((==_iff c 0x5c).1 k) at h in
      let q : c ∷ out ≡ o = cc in (o₀, w, sym q ∙ e, λ b. rw (← q) b)

-- Going back over a character, over a name, and to the place in front of it.
back_up_char :
    (root c : ℕ) (o x : List ℕ) → c ≢ 0x5c → back_up root (c ∷ o) ≡ some x → back_up root o ≡ some x
unfolding back_up
back_up_char root c o x n h = ground arith

back_up-Adds :
    (root : ℕ) (x : List ℕ) {k : ℕ} {o o' : List ℕ}
    → Adds k o o'
    → back_up root o' ≡ some x
    → back_up root o ≡ some x
back_up-Adds root x done h = h
back_up-Adds root x {o = o} (char c q a) h =
    back_up_char root c o x (plain-NoSep c q) (back_up-Adds root x a h)

back_up-AddsName :
    (root : ℕ) (x : List ℕ) {k : ℕ} {o o' : List ℕ}
    → AddsName k o o'
    → back_up root o' ≡ some x
    → back_up root o ≡ some x
back_up-AddsName root x (stem a) h = back_up-Adds root x a h
back_up-AddsName root x (dotted {o' = o'} a e) h =
    back_up-Adds root x a
      (back_up_char root 0x2e o' x (λ z. absurd (omega arith)) (back_up-Adds root x e h))

back_up_sep : (root : ℕ) (o x : List ℕ) → back_up root (0x5c ∷ o) ≡ some x → x ≡ o
unfolding back_up
back_up_sep root o x h = cc

back_up_top : (p x : List ℕ) → NoSep p → back_up (length p) p ≡ some x → ⊥
unfolding back_up
back_up_top [] x n h = n
back_up_top (c ∷ p) x n h = absurd (ground arith)

pub back_up-IsPath :
    (p : List ℕ)
    → NoSep p
    → (x : List ℕ) {o : List ℕ} → IsPath p o
    → back_up (length p) o ≡ some x
    → IsPath p x
back_up-IsPath p front x (top e) h = absurd (back_up_top p x front (rw e at h))
back_up-IsPath p front x (below o w (c, q, a)) h =
    let h' =
      back_up_char (length p) c (0x5c ∷ o) x (plain-NoSep c q)
        (back_up-AddsName (length p) x a h) in
    rw (back_up_sep (length p) o x h') w

pub back_up-le : (root : ℕ) (o x : List ℕ) → back_up root o ≡ some x → length x ≤ length o
unfolding back_up
back_up-le root [] x h = absurd (cc)
back_up-le root (c ∷ o) x h = ground (arith, back_up-le root o x)

-- The dots.
pub dots-lt : (s t : List ℕ) (two : Bool) → dots s ≡ some (t, two) → length t < length s
dots-lt [] t two h = absurd (cc)
dots-lt (c ∷ []) t two h = ground arith
dots-lt (c ∷ d ∷ s) t two h = ground arith

first_dot : (c : ℕ) (s : List ℕ) → dots (c ∷ s) ≡ none → c ≢ 0x2e
first_dot c [] h e = absurd (ground arith)
first_dot c (d ∷ s) h e = absurd (ground arith)

pub undotted :
    (dev : Bool) (s out : List ℕ) (r : Parsed)
    → dots s ≡ none
    → component dev fname_size false false s out ≡ gives r
    → (r.out ≡ out) ⊎ Named out r.out
unfolding component
undotted dev [] out r d h = inl (sym (ap (λ z. elim z [ gives y ↦ y.out | fails y ↦ out ]) h))
undotted dev (c ∷ s) out r d h = component-Named dev c s out r (first_dot c s d) h
