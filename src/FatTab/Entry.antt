-- ===== src/FatTab/Entry.antt =====
-- Where a FAT12 entry lies, as a linear address in the FAT, and what a write of two bytes does.
use native.Mathlib.Nat.{mul-add-div, div-eq_of_lt, div-add-mod, mod-lt}
use fdpp.Base.{
  ℕ, ◌+◌, ◌*◌, ◌/◌, ◌%◌, ◌<◌, ◌≡◌, ◌≢◌, refl, sym, ap, ◌∙◌, inl, inr, arith, ℕ_discrete, ==_iff,
  ==_false, ◌==◌, if◌then◌else◌, Bool-cases,
}
use fdpp.FatTab.{Dpb, Drive, unpack, pack, put, straddles, next_sector, next_offset}

-- Quotient and remainder are determined.
pub div-mod_unique : (n s q r : ℕ) → n ≡ s * q + r → r < s → (n / s ≡ q) × (n % s ≡ r)
div-mod_unique n s q r e h =
    let d : n / s ≡ q = rw e (mul-add-div (omega arith) q r ∙ omega (arith, div-eq_of_lt h)) in
    (d, omega (arith, div-add-mod n s, ap (λ (k : ℕ). s * k) d))

-- The even nibbles.
pub half-position : (n s : ℕ) → 0 < s → (n / (s * 2) ≡ n / 2 / s) × (n % (s * 2) / 2 ≡ n / 2 % s)
half-position n s pos =
    let q = n / (s * 2) in
    let r = n % (s * 2) in
    let u =
      div-mod_unique (n / 2) s q (r / 2) (omega (arith, div-add-mod n (s * 2))) (omega arith) in
    (sym u.0, sym u.1)

-- The next byte, in sectors that are counted from `k`.
pub next-position :
    (d : Dpb) (k a : ℕ)
    → 0 < d.secsize
    → (next_sector d (a / d.secsize + k) (a % d.secsize) ≡ (a + 1) / d.secsize + k)
      × (next_offset d (a % d.secsize) ≡ (a + 1) % d.secsize)
next-position d k a pos =
    let e = div-add-mod a d.secsize in
    let below = mod-lt a pos in
    elim (Bool-cases (straddles d (a % d.secsize))) [
      | inl y ↦
          let full : a % d.secsize + 1 ≡ d.secsize = ground arith in
          let u = div-mod_unique (a + 1) d.secsize (a / d.secsize + 1) 0 (omega arith) pos in
          rw y (omega (arith, u), omega (arith, u))
      | inr n ↦
          let u =
            div-mod_unique (a + 1) d.secsize (a / d.secsize) (a % d.secsize + 1) (omega arith)
              (ground arith) in
          rw n (omega (arith, u), omega (arith, u))
    ]

module _ (s k : ℕ) where
  -- The byte at a linear address of the FAT that begins in sector `k`, with `s` bytes to a sector.
  abbrev pub fetch : (ℕ → ℕ → ℕ) → ℕ → ℕ
  fetch byte a = byte (a / s + k) (a % s)

  same_address : (a b : ℕ) → a / s ≡ b / s → a % s ≡ b % s → a ≡ b
  same_address a b p q = omega (arith, div-add-mod a s, div-add-mod b s, ap (λ (n : ℕ). s * n) p)

  pub fetch-put :
      (v : Drive) (a b x : ℕ)
      → fetch (put v (a / s + k) (a % s) x).byte b ≡ (if b == a then x else fetch v.byte b)
  unfolding put
  fetch-put v a b x = elim (ℕ_discrete b a) [
    | yes e ↦
        rw (e, (==_iff a a).1 refl, (==_iff (a / s + k) _).1 refl, (==_iff (a % s) _).1 refl) refl
    | no e ↦ elim (ℕ_discrete (b / s) (a / s)) [
      | no far ↦ rw (==_false b a e, ==_false (b / s + k) (a / s + k) (λ h. far (omega arith))) refl
      | yes near ↦
          rw (==_false b a e, ==_false (b % s) (a % s) (λ h. e (same_address b a near h)))
            (ground arith)
    ]
  ]

-- An entry that is packed into a word is unpacked again.
pub unpack-pack : (c word value : ℕ) → unpack c (pack c word value) ≡ value % 0x1000
unfolding unpack pack
unpack-pack c word value = ground arith

pub pack-lt : (c word value : ℕ) → pack c word value < 0x1_0000
unfolding pack
pack-lt c word value = ground arith

-- The bytes of a FAT as a function of their address, and the entry of a cluster in them.
abbrev pub first_byte : ℕ → ℕ
first_byte c = c * 3 / 2

abbrev pub word_at : (ℕ → ℕ) → ℕ → ℕ
word_at f a = f a + f (a + 1) * 0x100

unfoldable pub entry : (ℕ → ℕ) → ℕ → ℕ
unfolding unpack
entry f c = unpack c (word_at f (first_byte c))

-- `g` is `f` with the entry of `c` replaced.
abbrev pub Replaced : (ℕ → ℕ) → (ℕ → ℕ) → ℕ → ℕ → Type 0
Replaced f g c value =
    let a = first_byte c in
    let new = pack c (word_at f a) value in
    (b : ℕ)
    → g b ≡ (if b == a + 1 then new / 0x100 % 0x100 else if b == a then new % 0x100 else f b)

module _ (f g : ℕ → ℕ) (c value : ℕ) (r : Replaced f g c value) where
  pub entry-replaced_self : entry g c ≡ value % 0x1000
  unfolding entry
  entry-replaced_self =
      let a = first_byte c in
      let new = pack c (word_at f a) value in
      let w : word_at g a ≡ new = ground (arith, r a, r (a + 1), pack-lt c (word_at f a) value) in
      rw w (unpack-pack c (word_at f a) value)

  -- A byte that is not one of the two is kept.
  kept : (b : ℕ) → b ≢ first_byte c → b ≢ first_byte c + 1 → g b ≡ f b
  kept b h k = r b ∙ rw (==_false _ _ k, ==_false _ _ h) refl

  first : g (first_byte c) ≡ pack c (word_at f (first_byte c)) value % 0x100
  first =
      let a = first_byte c in r a ∙ rw (==_false a (a + 1) (omega arith), (==_iff a a).1 refl) refl

  second : g (first_byte c + 1) ≡ pack c (word_at f (first_byte c)) value / 0x100 % 0x100
  second = let a = first_byte c in r (a + 1) ∙ rw ((==_iff (a + 1) (a + 1)).1 refl) refl

  module _ (bytes : (b : ℕ) → f b < 0x100) where
    -- The odd entry behind an even one.
    other_above : c % 2 ≡ 0 → entry g (c + 1) ≡ entry f (c + 1)
    unfolding entry pack
    other_above even =
        let a = first_byte c in
        let up : first_byte (c + 1) ≡ a + 1 = omega arith in
        let far = kept (a + 1 + 1) (omega arith) (omega arith) in
        rw (up, far, second) (ground (arith, bytes a, bytes (a + 1)))

    -- The even entry before an odd one.
    other_below : (c' : ℕ) → c ≡ c' + 1 → c % 2 ≡ 1 → entry g c' ≡ entry f c'
    unfolding entry pack
    other_below c' e odd =
        let a = first_byte c in
        let down : first_byte c' + 1 ≡ a = omega arith in
        let near = kept (first_byte c') (omega arith) (omega arith) in
        rw (down, near, first) (ground (arith, bytes a, bytes (a + 1)))

    -- Two entries share at most the nibbles of one byte.
    pub entry-replaced_other : (c' : ℕ) → c' ≢ c → entry g c' ≡ entry f c'
    unfolding entry
    entry-replaced_other c' ne = elim (ℕ_discrete (first_byte c') (first_byte c + 1)) [
      | yes e ↦ let up : c' ≡ c + 1 = omega arith in rw up (other_above (omega arith))
      | no h ↦ elim (ℕ_discrete (first_byte c' + 1) (first_byte c)) [
        | yes e ↦ other_below c' (omega arith) (omega arith)
        | no k ↦
            rw
              (
                kept (first_byte c') (omega arith) (omega arith),
                kept (first_byte c' + 1) (omega arith) (omega arith),
              )
              refl
      ]
    ]
