-- ===== src/Fcb/Fields.antt =====
-- _GetNameField of kernel/fcbfns.c, on texts that begin with a name.
use fdpp.Base.{
  ℕ, zero, suc, ◌+◌, ◌≡◌, ◌≢◌, refl, ap, true, false, List, [], ◌∷◌, ◌++◌, ◌==◌, arith, by_test,
  length, ==_false,
}
use mathlib.Core.Path.{subst}
use fdpp.Fcb.{Field, test_field_seps, memset, get_name_field}

pub length-memset : (c n : ℕ) → length (memset c n) ≡ n
unfolding memset
length-memset c zero = refl
length-memset c (suc n) = ap suc (length-memset c n)

module _ (up : ℕ → ℕ) where
  -- A field is filled to its size, whatever the text.
  pub get_name_field-length : (n : ℕ) (t : List ℕ) → length (get_name_field up n t).field ≡ n
  unfolding get_name_field
  get_name_field-length zero t = refl
  get_name_field-length (suc n) [] = length-memset 0x20 (suc n)
  get_name_field-length (suc n) (c ∷ t) =
      by_test (λ (r : Field). length r.field ≡ suc n) (test_field_seps c) _ _
        (λ y. length-memset 0x20 (suc n))
        (λ _.
          by_test (λ (r : Field). length r.field ≡ suc n) (c == 0x2a) _ _
            (λ y. length-memset 0x3f (suc n)) (λ _. ap suc (get_name_field-length n t)))

  -- A character of a name without wildcards, in upper case.
  pub record IsNameChar (c : ℕ) : Type 0 where
    pub inner : test_field_seps c ≡ false
    pub no_star : c ≢ 0x2a
    pub no_mark : c ≢ 0x3f
    pub upper : up c ≡ c

  pub data IsName : List ℕ → Type 0 where
    nil : IsName []
    cons : {c : ℕ} {l : List ℕ} → IsNameChar c → IsName l → IsName (c ∷ l)

  -- A text at which a field ends.
  pub data Stops : List ℕ → Type 0 where
    ended : Stops []
    separated : {c : ℕ} (t : List ℕ) → test_field_seps c ≡ true → Stops (c ∷ t)

  stop_at :
      (n : ℕ) {t : List ℕ}
      → Stops t
      → get_name_field up n t ≡ record { text = t; field = memset 0x20 n; wild = false }
  unfolding get_name_field memset
  stop_at zero s = refl
  stop_at (suc n) ended = refl
  stop_at (suc n) (separated t e) = rw e refl

  one_more :
      (n : ℕ) (t : List ℕ) {c : ℕ} {rest field : List ℕ}
      → IsNameChar c
      → get_name_field up n t ≡ record { text = rest; field = field; wild = false }
      → get_name_field up (suc n) (c ∷ t) ≡ record { text = rest; field = c ∷ field; wild = false }
  unfolding get_name_field
  one_more n t {c} i e =
      rw (i.inner, ==_false c 0x2a i.no_star, ==_false c 0x3f i.no_mark, e, i.upper) refl

  -- The field is the name with blanks behind it.
  pub get_name_field-IsName :
      (n m : ℕ) {name rest : List ℕ}
      → IsName name
      → n ≡ length name + m
      → Stops rest
      → get_name_field up n (name ++ rest)
        ≡ record { text = rest; field = name ++ memset 0x20 m; wild = false }
  get_name_field-IsName n m {rest = rest} nil e s =
      let same : n ≡ m = omega (arith, e) in
      subst
        (λ (k : ℕ).
          get_name_field up n rest ≡ record { text = rest; field = memset 0x20 k; wild = false })
        same (stop_at n s)
  get_name_field-IsName zero m (cons i is) e s = absurd (omega (arith, e))
  get_name_field-IsName (suc n) m (cons i is) e s =
      one_more n _ i (get_name_field-IsName n m is (omega (arith, e)) s)
