-- ===== src/Cache/Lists.antt =====
-- The list of buffers: taking one out, and what the blocks hold by it.
use fdpp.Base.{
  ℕ, ◌≡◌, refl, sym, ◌∙◌, inl, inr, Bool, true, false, ◌&&◌, ◌||◌, not, List, [], ◌∷◌, Option, none,
  some, ltb, if◌then◌else◌, arith, Bool-cases, by_test,
}
use fdpp.Cache.{Buffer, holds, take_first, take_last, victim, first_is_fat, fat_count}

module _ {Data : Type 0} where
  -- A list with one buffer taken out.
  pub data Takes (x : Buffer Data) : List (Buffer Data) → List (Buffer Data) → Type 0 where
    here : {l : List (Buffer Data)} → Takes x (x ∷ l) l
    there : {l r : List (Buffer Data)} (y : Buffer Data) → Takes x l r → Takes x (y ∷ l) (y ∷ r)

  pub data In (x : Buffer Data) : List (Buffer Data) → Type 0 where
    now : {l : List (Buffer Data)} → In x (x ∷ l)
    then_on : {l : List (Buffer Data)} (y : Buffer Data) → In x l → In x (y ∷ l)

  -- What the cache has for a block: the first valid buffer for it.
  unfoldable pub cached : List (Buffer Data) → ℕ → ℕ → Option Data
  cached [] dsk blkno = none
  cached (x ∷ l) dsk blkno = if holds blkno dsk x then some x.b_buffer else cached l dsk blkno

  -- Whether there is one.
  unfoldable pub in_cache : List (Buffer Data) → ℕ → ℕ → Bool
  in_cache [] dsk blkno = false
  in_cache (x ∷ l) dsk blkno = holds blkno dsk x || in_cache l dsk blkno

  -- No two valid buffers are for the same block.
  pub data Unique : List (Buffer Data) → Type 0 where
    nil : Unique []
    cons :
        {l : List (Buffer Data)} (x : Buffer Data)
        → (x.bfr_valid ≡ true → in_cache l x.b_unit x.b_blkno ≡ false)
        → Unique l
        → Unique (x ∷ l)

  pub Takes-In : {x : Buffer Data} {l r : List (Buffer Data)} → Takes x l r → In x l
  Takes-In here = now
  Takes-In (there y t) = then_on y (Takes-In t)

  pub Takes-In_rest : {x z : Buffer Data} {l r : List (Buffer Data)} → Takes x l r → In z r → In z l
  Takes-In_rest here i = then_on _ i
  Takes-In_rest (there y t) now = now
  Takes-In_rest (there y t) (then_on _ i) = then_on y (Takes-In_rest t i)

  -- The result of taking a buffer out that has a property, or that there is none.
  pub data Taken (p : Buffer Data → Bool) (l : List (Buffer Data))
      : Option (Buffer Data × List (Buffer Data)) → Type 0 where
    took :
        {x : Buffer Data} {r : List (Buffer Data)}
        → Takes x l r
        → p x ≡ true
        → Taken p l (some (x, r))
    nothing : Taken p l none

  later :
      {p : Buffer Data → Bool} {l : List (Buffer Data)} (y : Buffer Data)
      (o : Option (Buffer Data × List (Buffer Data)))
      → Taken p l o
      → Taken p (y ∷ l) (elim o [ none ↦ none | some (x, r) ↦ some (x, y ∷ r) ])
  later y (some (x, r)) (took t e) = took (there y t) e
  later y none nothing = nothing

  pub take_first-Taken :
      (p : Buffer Data → Bool) (l : List (Buffer Data)) → Taken p l (take_first p l)
  unfolding take_first
  take_first-Taken p [] = nothing
  take_first-Taken p (x ∷ l) =
      by_test (Taken p (x ∷ l)) (p x) _ _ (λ y. took here y)
        (λ n. later x (take_first p l) (take_first-Taken p l))

  pub take_last-Taken :
      (p : Buffer Data → Bool) (l : List (Buffer Data)) → Taken p l (take_last p l)
  unfolding take_last
  take_last-Taken p [] = nothing
  take_last-Taken p (x ∷ l) = settle (take_last p l) (take_last-Taken p l)
    where
      settle :
          (o : Option (Buffer Data × List (Buffer Data)))
          → Taken p l o
          → Taken p
              (x ∷ l)
              (elim o [ some (y, r) ↦ some (y, x ∷ r) | none ↦ if p x then some (x, l) else none ])
      settle (some (y, r)) (took t e) = took (there x t) e
      settle none nothing = by_test (Taken p (x ∷ l)) (p x) _ _ (λ y. took here y) (λ n. nothing)

  any_buffer :
      {p : Buffer Data → Bool} {l : List (Buffer Data)}
      {o : Option (Buffer Data × List (Buffer Data))}
      → Taken p l o
      → Taken (λ x. true) l o
  any_buffer (took t e) = took t refl
  any_buffer nothing = nothing

  first_one :
      {l : List (Buffer Data)} (a b : Option (Buffer Data × List (Buffer Data)))
      → Taken (λ x. true) l a
      → Taken (λ x. true) l b
      → Taken (λ x. true) l (elim a [ some r ↦ some r | none ↦ b ])
  first_one (some r) b p q = p
  first_one none b p q = q

  pub victim-Taken : (l : List (Buffer Data)) → Taken (λ x. true) l (victim l)
  unfolding victim
  victim-Taken l =
      let oldest = take_last-Taken (λ x. true) l in
      first_one (take_last (λ x. x.bfr_uncache) l) _
        (any_buffer (take_last-Taken (λ x. x.bfr_uncache) l))
        (by_test (Taken (λ x. true) l) (first_is_fat l && ltb (fat_count l) 3) _ _
          (λ y.
            first_one (take_last (λ x. not x.bfr_fat) l) _
              (any_buffer (take_last-Taken (λ x. not x.bfr_fat) l)) oldest)
          (λ n. oldest))

  -- What holds of the first buffer and of the others holds of all.
  pub all_cons :
      (P : Buffer Data → Type 0) {y : Buffer Data} {r : List (Buffer Data)}
      → P y
      → ((z : Buffer Data) → In z r → P z)
      → (z : Buffer Data) → In z (y ∷ r)
      → P z
  all_cons P p q z now = p
  all_cons P p q z (then_on y i) = q z i

  pub not-In :
      {z : Buffer Data} {l : List (Buffer Data)} (dsk blkno : ℕ)
      → In z l
      → in_cache l dsk blkno ≡ false
      → holds blkno dsk z ≡ false
  unfolding in_cache
  not-In dsk blkno now e = ground (arith, e)
  not-In dsk blkno (then_on y i) e = not-In dsk blkno i (ground (arith, e))

  -- Whether a buffer was taken out.
  abbrev pub present : Option (Buffer Data × List (Buffer Data)) → Bool
  present none = false
  present (some r) = true

  present_later :
      (y : Buffer Data) (o : Option (Buffer Data × List (Buffer Data)))
      → present (elim o [ none ↦ none | some (x, r) ↦ some (x, y ∷ r) ]) ≡ present o
  present_later y none = refl
  present_later y (some (x, r)) = refl

  pub in_cache-take_first :
      (l : List (Buffer Data)) (dsk blkno : ℕ)
      → in_cache l dsk blkno ≡ present (take_first (holds blkno dsk) l)
  unfolding in_cache take_first
  in_cache-take_first [] dsk blkno = refl
  in_cache-take_first (x ∷ l) dsk blkno = elim (Bool-cases (holds blkno dsk x)) [
    | inl y ↦ rw y refl
    | inr n ↦
        rw n
          (in_cache-take_first l dsk blkno ∙ sym (present_later x (take_first (holds blkno dsk) l)))
  ]
