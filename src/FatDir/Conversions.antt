-- ===== src/FatDir/Conversions.antt =====
-- A name in a directory entry, as text, and back.
use fdpp.Base.{
  ℕ, ◌+◌, ◌-◌, ◌≤◌, ◌≡◌, ◌≢◌, refl, sym, ap, ◌∙◌, false, List, [], ◌∷◌, ◌++◌, ◌==◌, length, take,
  drop, get_or, ==_false, arith,
}
use mathlib.Core.List.{append_assoc, append-nil}
use fdpp.FatDir.{trim, dotted, convert_name83_to_name_sz, convert_from, convert_name_sz_to_name83}
use fdpp.FatDir.Names.{
  AllChars, blanks, IsField, padded, trim-append, length-padded, take-append, drop-append,
  blanks-add, convert_chars, Stops, convert_stop, convert_dot,
}

module _ (n e : List ℕ) (name : IsField 8 n) (some_name : 1 ≤ length n) (ext : IsField 3 e) where
  first_char : (t u : List ℕ) → AllChars t → 1 ≤ length t → get_or (t ++ u) 0 0 ≢ 0x2e
  first_char [] u a h = absurd (omega arith)
  first_char (c ∷ t) u (d, b, a) h = d

  -- The entry as text.
  to_text : convert_name83_to_name_sz (padded 8 n ++ padded 3 e) ≡ n ++ dotted e
  unfolding convert_name83_to_name_sz
  to_text =
      let (a, t, h) = name in
      let (b, u, k) = ext in
      let l = sym (length-padded 8 n h) in
      let m = sym (length-padded 3 e k) in
      let p : take 8 (padded 8 n ++ padded 3 e) ≡ padded 8 n =
        take-append (padded 8 n) (padded 3 e) 8 l in
      let q : take 3 (drop 8 (padded 8 n ++ padded 3 e)) ≡ padded 3 e =
        ap (take 3) (drop-append (padded 8 n) (padded 3 e) 8 l)
        ∙ (ap (take 3) (sym (append-nil (padded 3 e))) ∙ take-append (padded 3 e) [] 3 m) in
      let d : (get_or (padded 8 n ++ padded 3 e) 0 0 == 0x2e) ≡ false = ==_false _ 0x2e (λ z.
        first_char n (blanks (8 - length n) ++ padded 3 e) a some_name (
          sym (ap (λ x. get_or x 0 0) (append_assoc n (blanks (8 - length n)) (padded 3 e)))
          ∙ z)) in
      rw (d, p, q)
        (let x : trim (padded 8 n) ≡ n = trim-append n (8 - length n) ∙ t in
          let y : trim (padded 3 e) ≡ e = trim-append e (3 - length e) ∙ u in
          ap (λ z. z ++ dotted (trim (padded 3 e))) x ∙ ap (λ z. n ++ dotted z) y)

  -- The blanks behind the name.
  behind_name : n ++ blanks (11 - length n) ≡ padded 8 n ++ blanks 3
  behind_name =
      let (a, t, h) = name in
      let k : 11 - length n ≡ 8 - length n + 3 = omega arith in
      ap (λ x. n ++ blanks x) k
      ∙ (ap (λ x. n ++ x) (sym (blanks-add (8 - length n) 3))
          ∙ sym (append_assoc n (blanks (8 - length n)) (blanks 3)))

  -- The loop over the name.
  name_read :
      (s : List ℕ)
      → convert_name_sz_to_name83 (n ++ s) ≡ convert_from (length n) (padded 8 n ++ blanks 3) s
  unfolding convert_name_sz_to_name83
  name_read s =
      let (a, t, h) = name in
      let k : 11 ≡ length n + (11 - length n) = omega arith in
      let z : 0 + length n ≡ length n = omega arith in
      ap (λ x. convert_from 0 (blanks x) (n ++ s)) k
      ∙ (convert_chars n 0 [] s (11 - length n) a refl (omega arith)
          ∙ (ap (λ x. convert_from x (n ++ blanks (11 - length n)) s) z
              ∙ ap (λ x. convert_from (length n) x s) behind_name))

  ext_read :
      (s : List ℕ)
      → Stops s
      → convert_from 8 (padded 8 n ++ blanks 3) (e ++ s) ≡ (padded 8 n ++ padded 3 e, s)
  ext_read s h =
      let (a, t, l) = name in
      let (b, u, k) = ext in
      let z : 3 ≡ length e + (3 - length e) = omega arith in
      ap (λ x. convert_from 8 (padded 8 n ++ blanks x) (e ++ s)) z
      ∙ (convert_chars e 8 (padded 8 n) s (3 - length e) b (sym (length-padded 8 n l)) (omega arith)
          ∙ (convert_stop (8 + length e) ((padded 8 n ++ e) ++ blanks (3 - length e)) s h
              ∙ ap (λ x. (x, s)) (append_assoc (padded 8 n) e (blanks (3 - length e)))))

after_name :
    (i : ℕ) (field r e s : List ℕ)
    → i ≤ 8
    → Stops s
    → convert_from 8 field (e ++ s) ≡ (r, s)
    → (e ≡ [] → field ≡ r)
    → convert_from i field (dotted e ++ s) ≡ (r, s)
after_name i field r [] s h stops whole none_left =
    convert_stop i field s stops ∙ ap (λ x. (x, s)) (none_left refl)
after_name i field r (c ∷ e) s h stops whole none_left =
    convert_dot i field (c ∷ e ++ s) (omega arith) ∙ whole

-- The name and the extension of a directory entry, written as text by ConvertName83ToNameSZ and read again
-- by ConvertNameSZToName83, are as before, whatever path goes on behind the text. The name has 1 to 8 characters,
-- the extension up to 3, with blanks behind them; neither has a dot or a backslash.
pub convert_name_sz_to_name83-convert_name83_to_name_sz :
    (n e s : List ℕ)
    → IsField 8 n
    → 1 ≤ length n
    → IsField 3 e
    → Stops s
    → convert_name_sz_to_name83 (convert_name83_to_name_sz (padded 8 n ++ padded 3 e) ++ s)
      ≡ (padded 8 n ++ padded 3 e, s)
convert_name_sz_to_name83-convert_name83_to_name_sz n e s name long ext stops =
    let (a, t, h) = name in
    ap (λ x. convert_name_sz_to_name83 (x ++ s)) (to_text n e name long ext)
    ∙ (ap convert_name_sz_to_name83 (append_assoc n (dotted e) s)
        ∙ (name_read n e name long ext (dotted e ++ s)
            ∙ after_name (length n) (padded 8 n ++ blanks 3) (padded 8 n ++ padded 3 e) e s h stops
                (ext_read n e name long ext s stops)
                (λ z. ap (λ x. padded 8 n ++ padded 3 x) (sym z))))
