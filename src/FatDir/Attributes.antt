-- ===== src/FatDir/Attributes.antt =====
-- The test of the attributes in dos_findnext.
use mathlib.Core.Bool.{false≢true}
use fdpp.Base.{
  ℕ, ◌+◌, ◌*◌, ◌/◌, ◌%◌, ◌≡◌, refl, sym, ◌∙◌, Bool, true, false, ◌&&◌, ◌||◌, not, ◌==◌,
  if◌then◌else◌, ℕ_discrete, arith, ==_iff, ==_false, by_test,
}
use fdpp.FatDir.{outside}

-- A search for nothing but volume labels; the bits for read-only, archive and device have no meaning.
abbrev pub IsLabelSearch : ℕ → Type 0
IsLabelSearch srch =
    (srch / 0x02 % 2 ≡ 0)
    × (srch / 0x04 % 2 ≡ 0)
    × (srch / 0x08 % 2 ≡ 1)
    × (srch / 0x10 % 2 ≡ 0)
    × (srch / 0x80 % 2 ≡ 0)

-- A bit of the attributes of an entry is one of those searched for.
abbrev pub Within : ℕ → ℕ → ℕ → Type 0
Within srch attrib bit = attrib / bit % 2 ≡ 1 → srch / bit % 2 ≡ 1

-- The attributes that are searched for.
abbrev pub searched : ℕ → ℕ
searched srch = srch / 0x02 % 0x10 * 0x02 + srch / 0x80 % 2 * 0x80

module _ (srch : ℕ) where
  searched_label : (searched srch == 0x08) ≡ true → IsLabelSearch srch
  searched_label h =
      let e : searched srch ≡ 0x08 = ground (arith, h) in
      (omega (arith, e), omega (arith, e), omega (arith, e), omega (arith, e), omega (arith, e))

  label_searched : IsLabelSearch srch → (searched srch == 0x08) ≡ true
  label_searched (a, b, c, d, e) = (==_iff (searched srch) 0x08).1 (omega (arith, a, b, c, d, e))

  searched_bits :
      (searched srch / 0x02 % 2 ≡ srch / 0x02 % 2)
      × (searched srch / 0x04 % 2 ≡ srch / 0x04 % 2)
      × (searched srch / 0x08 % 2 ≡ srch / 0x08 % 2)
      × (searched srch / 0x10 % 2 ≡ srch / 0x10 % 2)
  searched_bits = (omega arith, omega arith, omega arith, omega arith)

  module _ (attrib bit : ℕ) (same : searched srch / bit % 2 ≡ srch / bit % 2) where
    inside : outside (searched srch) attrib bit ≡ false → Within srch attrib bit
    inside h = λ e. ground (arith, same, h, e)

    not_outside : Within srch attrib bit → outside (searched srch) attrib bit ≡ false
    not_outside w = elim (ℕ_discrete (attrib / bit % 2) 1) [
      | yes e ↦ rw (e, same, w e) refl
      | no n ↦ rw (==_false _ _ n) refl
    ]

-- The test of the attributes.
abbrev pub attr_test : ℕ → ℕ → Bool
attr_test srch attrib =
    if searched srch == 0x08
    then not (attrib / 0x08 % 2 == 0)
    else not (
        outside (searched srch) attrib 0x02
        || (outside (searched srch) attrib 0x04
            || (outside (searched srch) attrib 0x08 || outside (searched srch) attrib 0x10)))

-- What the attributes must be.
abbrev pub AttrFits : ℕ → ℕ → Type 0
AttrFits srch attrib =
    (IsLabelSearch srch → attrib / 0x08 % 2 ≡ 1)
    × (¬ IsLabelSearch srch
        → Within srch attrib 0x02
          × Within srch attrib 0x04
          × Within srch attrib 0x08
          × Within srch attrib 0x10)

or_false : (a b : Bool) → (a || b) ≡ false → (a ≡ false) × (b ≡ false)
or_false true b h = absurd (cc)
or_false false b h = (refl, h)

pub and_true : (a b : Bool) → (a && b) ≡ true → (a ≡ true) × (b ≡ true)
and_true true b h = (refl, h)
and_true false b h = absurd (cc)

pub negated : (a : Bool) → not a ≡ true → a ≡ false
negated true h = absurd (cc)
negated false h = refl

pub attr_test-AttrFits : (srch attrib : ℕ) → attr_test srch attrib ≡ true → AttrFits srch attrib
attr_test-AttrFits srch attrib =
    by_test (λ b. b ≡ true → AttrFits srch attrib) (searched srch == 0x08) _ _
      (λ y h. (λ _. ground (arith, h), λ other. absurd (other (searched_label srch y))))
      (λ n h. (
        λ l. absurd (false≢true (sym n ∙ label_searched srch l)),
        λ _.
            let s = searched_bits srch in
            let (a, h₁) = or_false _ _ (negated _ h) in
            let (b, h₂) = or_false _ _ h₁ in
            let (c, d) = or_false _ _ h₂ in
            (
              inside srch attrib 0x02 s.0 a,
              inside srch attrib 0x04 s.1 b,
              inside srch attrib 0x08 s.2 c,
              inside srch attrib 0x10 s.3 d,
            ),
      ))

pub AttrFits-attr_test : (srch attrib : ℕ) → AttrFits srch attrib → attr_test srch attrib ≡ true
AttrFits-attr_test srch attrib (l, o) =
    by_test (λ b. b ≡ true) (searched srch == 0x08) _ _
      (λ y. let bit = l (searched_label srch y) in ground (arith, bit))
      (λ n.
        let s = searched_bits srch in
        let (a, b, c, d) = o (λ k. false≢true (sym n ∙ label_searched srch k)) in
        rw
          (
            not_outside srch attrib 0x02 s.0 a,
            not_outside srch attrib 0x04 s.1 b,
            not_outside srch attrib 0x08 s.2 c,
            not_outside srch attrib 0x10 s.3 d,
          )
          refl)
