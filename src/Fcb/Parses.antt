-- ===== src/Fcb/Parses.antt =====
-- FcbParseFname of kernel/fcbfns.c, on a name with an extension.
use fdpp.Base.{
  ℕ, ◌+◌, ◌/◌, ◌%◌, ◌≡◌, refl, ap, ◌∙◌, inl, inr, Bool, false, ◌||◌, List, ◌∷◌, ◌++◌, ◌==◌,
  if◌then◌else◌, arith, Bool-cases, length,
}
use fdpp.Fcb.{
  Fcb, Field, test_field_seps, test_cmn_seps, parse_skip_wh, skip_lead_sep, memset, get_name_field,
  parse_drive, parse_extension, parse_names, fcb_parse_fname,
}
use fdpp.Fcb.Fields.{IsNameChar, IsName, nil, cons, Stops, separated, get_name_field-IsName}

not_sep : (c : ℕ) → test_field_seps c ≡ false → test_cmn_seps c ≡ false
unfolding test_field_seps test_cmn_seps
not_sep c e = ground (arith, e)

not_blank : (c : ℕ) → test_field_seps c ≡ false → (c == 0x20 || c == 9) ≡ false
unfolding test_field_seps
not_blank c e = ground (arith, e)

not_colon : (c : ℕ) → test_field_seps c ≡ false → (c == 0x3a) ≡ false
unfolding test_field_seps
not_colon c e = ground (arith, e)

not_dot : (c : ℕ) → test_field_seps c ≡ false → (c == 0x2e) ≡ false
unfolding test_field_seps
not_dot c e = ground (arith, e)

dot-Stops : (up : ℕ → ℕ) (t : List ℕ) → Stops up (0x2e ∷ t)
unfolding test_field_seps
dot-Stops up t = separated t refl

module _ (up : ℕ → ℕ) where
  -- A character of a name is nothing that is skipped.
  skip_nothing :
      {c : ℕ} (t : List ℕ) (lead : Bool)
      → IsNameChar up c
      → parse_skip_wh (if lead then skip_lead_sep (c ∷ t) else c ∷ t) ≡ (c ∷ t)
  unfolding parse_skip_wh skip_lead_sep
  skip_nothing {c} t lead i =
      let no_sep : test_cmn_seps c ≡ false = not_sep c i.inner in
      let no_blank : (c == 0x20 || c == 9) ≡ false = not_blank c i.inner in
      elim (Bool-cases lead) [
        | inl y ↦ rw (y, no_sep, no_blank) refl
        | inr n ↦ rw (n, no_blank) refl
      ]

  -- A name and a dot do not begin with a drive.
  no_drive :
      (known : ℕ → Bool) (keep : Bool) {c : ℕ} {l : List ℕ} (r : List ℕ) (f : Fcb)
      → IsName up (c ∷ l)
      → parse_drive up known keep (c ∷ (l ++ (0x2e ∷ r))) f
        ≡ (false, c ∷ (l ++ (0x2e ∷ r)), if keep then f else record f { fcb_drive = 0 })
  unfolding parse_drive
  no_drive known keep r f (cons i nil) = rw (i.inner) refl
  no_drive known keep r f (cons i (cons {c = d} j is)) = rw (i.inner, not_colon d j.inner) refl

  no_dots :
      (bad : Bool) {c : ℕ} (t : List ℕ) (f : Fcb)
      → IsNameChar up c
      → parse_names up bad (c ∷ t) f ≡ parse_extension up bad (get_name_field up 8 (c ∷ t)) f
  unfolding parse_names
  no_dots bad {c} t f i = rw (parse_names, not_dot c i.inner) refl

  with_extension :
      (k : ℕ) {name ext tail : List ℕ} (f : Fcb)
      → IsName up ext
      → Stops up tail
      → 3 ≡ length ext + k
      → parse_extension up false
          (record { text = 0x2e ∷ (ext ++ tail); field = name; wild = false })
          f
        ≡ (0, tail, record f { fcb_fname = name; fcb_fext = ext ++ memset 0x20 k })
  unfolding parse_extension
  with_extension k f es stops b = rw (get_name_field-IsName up 3 k es b stops) refl

  both_fields :
      (m k : ℕ) {c : ℕ} {l ext tail : List ℕ} (f : Fcb)
      → IsName up (c ∷ l)
      → IsName up ext
      → Stops up tail
      → 8 ≡ length (c ∷ l) + m
      → 3 ≡ length ext + k
      → parse_names up false (c ∷ (l ++ (0x2e ∷ (ext ++ tail)))) f ≡ (
        0,
        tail,
        record f { fcb_fname = (c ∷ l) ++ memset 0x20 m; fcb_fext = ext ++ memset 0x20 k },
      )
  both_fields m k {c} {l} {ext} {tail} f (cons i is) es stops a b =
      no_dots false (l ++ (0x2e ∷ (ext ++ tail))) f i
      ∙ ap (λ (r : Field). parse_extension up false r f)
          (get_name_field-IsName up 8 m (cons i is) a (dot-Stops up (ext ++ tail)))
      ∙ with_extension k f es stops b

  -- The FCB before the names are parsed.
  abbrev blanked : ℕ → Fcb → Fcb
  blanked mode g = record g {
    fcb_cublock = 0;
    fcb_recsiz = 0;
    fcb_fname = if mode / 4 % 2 == 1 then g.fcb_fname else memset 0x20 8;
    fcb_fext = if mode / 8 % 2 == 1 then g.fcb_fext else memset 0x20 3;
  }

  behind_drive :
      (known : ℕ → Bool) (mode : ℕ) {c : ℕ} {l : List ℕ} (r : List ℕ) (f : Fcb)
      → IsName up (c ∷ l)
      → fcb_parse_fname up known mode (c ∷ (l ++ (0x2e ∷ r))) f
        ≡ parse_names up false
            (c ∷ (l ++ (0x2e ∷ r)))
            (blanked mode (if mode / 2 % 2 == 1 then f else record f { fcb_drive = 0 }))
  unfolding fcb_parse_fname
  behind_drive known mode {c} {l} r f (cons i is) =
      let go = λ (q : Bool × List ℕ × Fcb). parse_names up q.0 q.1 (blanked mode q.2) in
      ap (λ (t : List ℕ). go (parse_drive up known (mode / 2 % 2 == 1) t f))
        (skip_nothing (l ++ (0x2e ∷ r)) (mode % 2 == 1) i)
      ∙ ap go (no_drive known (mode / 2 % 2 == 1) r f (cons i is))

  -- FcbParseFname of a text that is a name of up to 8 characters, a dot, and up to 3 more, all of which stand for
  -- themselves in a file name in upper case, and of anything behind that begins with a separator:
  -- in every mode the FCB gets the name and the extension with blanks behind them, and the text is left at what is behind. The result is 0,
  -- and the drive is the default one, or as it was where the mode says so.
  pub fcb_parse_fname-IsName :
      (known : ℕ → Bool) (mode m k : ℕ) {c : ℕ} {l ext tail : List ℕ} (f : Fcb)
      → IsName up (c ∷ l)
      → IsName up ext
      → Stops up tail
      → 8 ≡ length (c ∷ l) + m
      → 3 ≡ length ext + k
      → fcb_parse_fname up known mode (c ∷ (l ++ (0x2e ∷ (ext ++ tail)))) f ≡ (
        0,
        tail,
        record f {
          fcb_drive = if mode / 2 % 2 == 1 then f.fcb_drive else 0;
          fcb_cublock = 0;
          fcb_recsiz = 0;
          fcb_fname = (c ∷ l) ++ memset 0x20 m;
          fcb_fext = ext ++ memset 0x20 k;
        },
      )
  fcb_parse_fname-IsName known mode m k {c} {l} {ext} {tail} f is es stops a b =
      let keep = mode / 2 % 2 == 1 in
      behind_drive known mode (ext ++ tail) f is
      ∙ both_fields m k (blanked mode (if keep then f else record f { fcb_drive = 0 })) is es stops
          a b
      ∙ elim (Bool-cases keep) [ inl y ↦ rw y refl | inr n ↦ rw n refl ]
