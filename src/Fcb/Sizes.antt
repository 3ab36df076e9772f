-- ===== src/Fcb/Sizes.antt =====
-- FcbParseFname of kernel/fcbfns.c fills the fields of an FCB and nothing beyond them.
use fdpp.Base.{
  ℕ, ◌/◌, ◌%◌, ◌≡◌, refl, ◌∙◌, Bool, true, false, ◌&&◌, ◌||◌, not, List, [], ◌∷◌, ◌==◌,
  if◌then◌else◌, by_test, length,
}
use fdpp.Fcb.{
  Fcb, Field, test_field_seps, parse_skip_wh, skip_lead_sep, get_name_field, set_dots, parse_drive,
  parse_extension, parse_names, fcb_parse_fname,
}
use fdpp.Fcb.Fields.{length-memset, get_name_field-length}

-- The name and the extension have their sizes.
pub record IsSized (f : Fcb) : Type 0 where
  pub fname : length f.fcb_fname ≡ 8
  pub fext : length f.fcb_fext ≡ 3

Sized : ℕ × List ℕ × Fcb → Type 0
Sized r = IsSized r.2

length-set_dots : (two : Bool) (l : List ℕ) → length (set_dots two l) ≡ length l
unfolding set_dots
length-set_dots two [] = refl
length-set_dots two (a ∷ []) = refl
length-set_dots two (a ∷ b ∷ l) = refl

either :
    (b : Bool) (x y : ℕ × List ℕ × Fcb)
    → Sized x
    → Sized y
    → Sized (elim b [ false ↦ y | true ↦ x ])
either true x y p q = p
either false x y p q = q

module _ (up : ℕ → ℕ) where
  with_rest :
      (result : Bool → ℕ) (name : List ℕ) (wild : Bool) (text : List ℕ) (f : Fcb)
      → length name ≡ 8
      → IsSized f
      → Sized (elim text [
        | [] ↦ (result wild, [], record f { fcb_fname = name })
        | c ∷ t ↦
            if c == 0x2e
            then (
              result (wild || (get_name_field up 3 t).wild),
              (get_name_field up 3 t).text,
              record f { fcb_fname = name; fcb_fext = (get_name_field up 3 t).field },
            )
            else (result wild, c ∷ t, record f { fcb_fname = name })
      ])
  unfolding Sized
  with_rest result name wild [] f e s = record { fname = e; fext = s.fext }
  with_rest result name wild (c ∷ t) f e s =
      by_test Sized (c == 0x2e) _ _ (λ y. record { fname = e; fext = get_name_field-length up 3 t })
        (λ n. record { fname = e; fext = s.fext })

  parse_extension-IsSized :
      (bad : Bool) (name : Field) (f : Fcb)
      → length name.field ≡ 8
      → IsSized f
      → Sized (parse_extension up bad name f)
  unfolding parse_extension
  parse_extension-IsSized bad name f e s =
      with_rest (λ wild. if bad then 0xff else if wild then 1 else 0) name.field name.wild name.text
        f e s

  dotted :
      (n : ℕ) (r : List ℕ) (two : Bool) (f : Fcb)
      → IsSized f
      → Sized (n, r, record f { fcb_fname = set_dots two f.fcb_fname })
  unfolding Sized
  dotted n r two f s = record { fname = length-set_dots two f.fcb_fname ∙ s.fname; fext = s.fext }

  parse_names-IsSized :
      (bad : Bool) (t : List ℕ) (f : Fcb) → IsSized f → Sized (parse_names up bad t f)
  unfolding parse_names
  parse_names-IsSized bad [] f s =
      parse_extension-IsSized bad (get_name_field up 8 []) f (get_name_field-length up 8 []) s
  parse_names-IsSized bad (c ∷ []) f s = either (c == 0x2e) _ _ (dotted 0 [] false f s) (
      parse_extension-IsSized bad (get_name_field up 8 (c ∷ [])) f
        (get_name_field-length up 8 (c ∷ [])) s)
  parse_names-IsSized bad (c ∷ d ∷ r) f s =
      either (c == 0x2e) _ _
        (by_test Sized (d == 0x2e) _ _ (λ y. dotted 0 r true f s) (λ n. dotted 0 (d ∷ r) false f s))
        (parse_extension-IsSized bad (get_name_field up 8 (c ∷ d ∷ r)) f
          (get_name_field-length up 8 (c ∷ d ∷ r)) s)

  drive_set :
      (keep : Bool) (f : Fcb) → IsSized f → IsSized (if keep then f else record f { fcb_drive = 0 })
  drive_set true f s = s
  drive_set false f s = record { fname = s.fname; fext = s.fext }

  parse_drive-IsSized :
      (known : ℕ → Bool) (keep : Bool) (t : List ℕ) (f : Fcb)
      → IsSized f
      → IsSized (parse_drive up known keep t f).2
  unfolding parse_drive
  parse_drive-IsSized known keep [] f s = drive_set keep f s
  parse_drive-IsSized known keep (c ∷ []) f s = drive_set keep f s
  parse_drive-IsSized known keep (c ∷ d ∷ t) f s =
      by_test (λ (r : Bool × List ℕ × Fcb). IsSized r.2) (not (test_field_seps c) && d == 0x3a) _ _
        (λ y. record { fname = s.fname; fext = s.fext }) (λ n. drive_set keep f s)

  -- FcbParseFname of any text, in any mode, leaves a name of 8 characters and an extension of 3 in the FCB.
  pub fcb_parse_fname-IsSized :
      (known : ℕ → Bool) (mode : ℕ) (text : List ℕ) (f : Fcb)
      → IsSized f
      → IsSized (fcb_parse_fname up known mode text f).2
  unfolding fcb_parse_fname Sized
  fcb_parse_fname-IsSized known mode text f s =
      let t = parse_skip_wh (if mode % 2 == 1 then skip_lead_sep text else text) in
      let d = parse_drive up known (mode / 2 % 2 == 1) t f in
      let s' = parse_drive-IsSized known (mode / 2 % 2 == 1) t f s in
      parse_names-IsSized d.0 d.1 _ (record {
        fname =
            by_test (λ (l : List ℕ). length l ≡ 8) (mode / 4 % 2 == 1) _ _ (λ y. s'.fname)
              (λ n. length-memset 0x20 8);
        fext =
            by_test (λ (l : List ℕ). length l ≡ 3) (mode / 8 % 2 == 1) _ _ (λ y. s'.fext)
              (λ n. length-memset 0x20 3);
      })
