-- ===== src/FatDir/Names.antt =====
-- The steps of the conversions of names.
use fdpp.Base.{
  ℕ, zero, suc, ◌+◌, ◌-◌, ◌≤◌, ◌<◌, ◌≡◌, ◌≢◌, refl, sym, ap, ◌∙◌, inl, inr, false, List, [], ◌∷◌,
  ◌++◌, leb, length, length-append, length-replicate, set, take, drop, replicate, Bool-cases,
  ==_iff, ==_false, arith,
}
use mathlib.Core.List.{append_assoc, append-nil}
use fdpp.FatDir.{trim, convert_from}

-- Characters of a name: no dot and no backslash.
abbrev pub AllChars : List ℕ → Type 0
AllChars [] = Unit {0}
AllChars (c ∷ t) = (c ≢ 0x2e) × (c ≢ 0x5c) × AllChars t

abbrev pub blanks : ℕ → List ℕ
blanks n = replicate n 0x20

-- A name of up to `n` characters that does not end with a blank, with blanks behind it.
abbrev pub IsField : ℕ → List ℕ → Type 0
IsField n t = AllChars t × (trim t ≡ t) × (length t ≤ n)

abbrev pub padded : ℕ → List ℕ → List ℕ
padded n t = t ++ blanks (n - length t)

trim-blanks : (k : ℕ) → trim (blanks k) ≡ []
trim-blanks zero = refl
trim-blanks (suc k) = rw (trim-blanks k) refl

pub trim-append : (t : List ℕ) (k : ℕ) → trim (t ++ blanks k) ≡ trim t
trim-append [] k = trim-blanks k
trim-append (c ∷ t) k = rw (trim-append t k) refl

pub length-padded : (n : ℕ) (t : List ℕ) → length t ≤ n → length (padded n t) ≡ n
length-padded n t h =
    omega
      (arith, length-append t (blanks (n - length t)), length-replicate {A = ℕ} (n - length t) 0x20)

pub take-append : (t u : List ℕ) (n : ℕ) → n ≡ length t → take n (t ++ u) ≡ t
take-append [] u zero e = refl
take-append [] u (suc n) e = absurd (omega arith)
take-append (c ∷ t) u zero e = absurd (omega arith)
take-append (c ∷ t) u (suc n) e = ap (λ x. c ∷ x) (take-append t u n (omega arith))

pub drop-append : (t u : List ℕ) (n : ℕ) → n ≡ length t → drop n (t ++ u) ≡ u
drop-append [] u zero e = refl
drop-append [] u (suc n) e = absurd (omega arith)
drop-append (c ∷ t) u zero e = absurd (omega arith)
drop-append (c ∷ t) u (suc n) e = drop-append t u n (omega arith)

set-append : (t u : List ℕ) (d c i : ℕ) → i ≡ length t → set (t ++ d ∷ u) i c ≡ (t ++ c ∷ []) ++ u
set-append [] u d c zero e = refl
set-append [] u d c (suc i) e = absurd (omega arith)
set-append (x ∷ t) u d c zero e = absurd (omega arith)
set-append (x ∷ t) u d c (suc i) e = ap (λ y. x ∷ y) (set-append t u d c i (omega arith))

pub blanks-add : (j k : ℕ) → blanks j ++ blanks k ≡ blanks (j + k)
blanks-add zero k = ap blanks (omega arith)
blanks-add (suc j) k =
    let e : suc (j + k) ≡ suc j + k = omega arith in
    ap (λ x. 0x20 ∷ x) (blanks-add j k) ∙ ap blanks e

-- The loop at a character, and at characters.
convert_char :
    (i c : ℕ) (field s : List ℕ)
    → i < 11
    → c ≢ 0x2e
    → c ≢ 0x5c
    → convert_from i field (c ∷ s) ≡ convert_from (i + 1) (set field i c) s
unfolding convert_from
convert_char i c field s h d b =
    let l : leb 11 i ≡ false = ground arith in
    rw (l, ==_false c 0x2e d, ==_false c 0x5c b, convert_from) refl

pub convert_chars :
    (t : List ℕ) (i : ℕ) (done s : List ℕ) (k : ℕ)
    → AllChars t
    → i ≡ length done
    → i + length t ≤ 11
    → convert_from i (done ++ blanks (length t + k)) (t ++ s)
      ≡ convert_from (i + length t) ((done ++ t) ++ blanks k) s
convert_chars [] i done s k a e h =
    let p : 0 + k ≡ k = omega arith in
    let q : i ≡ i + 0 = omega arith in
    ap (λ x. convert_from i (done ++ blanks x) s) p
    ∙ (ap (λ x. convert_from x (done ++ blanks k) s) q
        ∙ ap (λ x. convert_from (i + 0) (x ++ blanks k) s) (sym (append-nil done)))
convert_chars (c ∷ t) i done s k (d, b, a) e h =
    let p : suc (length t) + k ≡ suc (length t + k) = omega arith in
    let q : i + 1 + length t ≡ i + suc (length t) = omega arith in
    let n : i + 1 ≡ length (done ++ c ∷ []) = omega (arith, length-append done (c ∷ [])) in
    ap (λ x. convert_from i (done ++ blanks x) (c ∷ (t ++ s))) p
    ∙ (convert_char i c (done ++ blanks (suc (length t + k))) (t ++ s) (omega arith) d b
        ∙ (ap (λ x. convert_from (i + 1) x (t ++ s))
              (set-append done (blanks (length t + k)) 0x20 c i e)
            ∙ (convert_chars t (i + 1) (done ++ c ∷ []) s k a n (omega arith)
                ∙ (ap (λ x. convert_from x (((done ++ c ∷ []) ++ t) ++ blanks k) s) q
                    ∙ ap (λ x. convert_from (i + suc (length t)) (x ++ blanks k) s)
                        (append_assoc done (c ∷ []) t)))))

-- At the end of the text, at a backslash, and at the end of the field.
abbrev pub Stops : List ℕ → Type 0
Stops [] = Unit {0}
Stops (c ∷ s) = c ≡ 0x5c

pub convert_stop : (i : ℕ) (field s : List ℕ) → Stops s → convert_from i field s ≡ (field, s)
unfolding convert_from
convert_stop i field [] h = refl
convert_stop i field (c ∷ s) h = elim (Bool-cases (leb 11 i)) [
  | inl e ↦ rw (e, convert_from) refl
  | inr e ↦
      rw (e, ==_false c 0x2e (λ z. absurd (omega arith)), (==_iff c 0x5c).1 h, convert_from) refl
]

pub convert_dot :
    (i : ℕ) (field s : List ℕ) → i < 11 → convert_from i field (0x2e ∷ s) ≡ convert_from 8 field s
unfolding convert_from
convert_dot i field s h = let l : leb 11 i ≡ false = ground arith in rw (l, convert_from) refl
