-- ===== src/Fcb.antt =====
-- kernel/fcbfns.c and hdr/fcb.h: parsing a file name into an FCB, and the numbers of its records.
-- A text is the list of its characters before the terminating 0. DosUpFChar, of the national language
-- support, and whether get_cds knows a drive are parameters; an extended FCB is its FCB.
pub mod Fields
pub mod Parses
pub mod Records
pub mod Sizes
mod Tests
use fdpp.Base.{
  ℕ, zero, suc, ◌+◌, ◌-◌, ◌*◌, ◌/◌, ◌%◌, Bool, true, false, ◌&&◌, ◌||◌, not, List, [], ◌∷◌, ltb,
  leb, ◌==◌, if◌then◌else◌,
}

-- The fields of an FCB that are used here.
pub record Fcb : Type 0 where
  pub fcb_drive : ℕ
  pub fcb_fname : List ℕ
  pub fcb_fext : List ℕ
  pub fcb_cublock : ℕ
  pub fcb_recsiz : ℕ
  pub fcb_curec : ℕ
  pub fcb_rndm : ℕ

-- TestCmnSeps, TestFieldSeps: : ; , = + space tab; and what is not above a space, / \ " [ ] < > | . : ; , = +
unfoldable pub test_cmn_seps : ℕ → Bool
test_cmn_seps c =
    c == 0x3a || c == 0x3b || c == 0x2c || c == 0x3d || c == 0x2b || c == 0x20 || c == 9

unfoldable pub test_field_seps : ℕ → Bool
test_field_seps c =
    leb c 0x20
    || c == 0x2f
    || c == 0x5c
    || c == 0x22
    || c == 0x5b
    || c == 0x5d
    || c == 0x3c
    || c == 0x3e
    || c == 0x7c
    || c == 0x2e
    || c == 0x3a
    || c == 0x3b
    || c == 0x2c
    || c == 0x3d
    || c == 0x2b

-- ParseSkipWh, and the loop over leading separators.
unfoldable pub parse_skip_wh : List ℕ → List ℕ
parse_skip_wh [] = []
parse_skip_wh (c ∷ t) = let rest = parse_skip_wh t in if c == 0x20 || c == 9 then rest else c ∷ t

unfoldable pub skip_lead_sep : List ℕ → List ℕ
skip_lead_sep [] = []
skip_lead_sep (c ∷ t) = let rest = skip_lead_sep t in if test_cmn_seps c then rest else c ∷ t

-- memset
unfoldable pub memset : ℕ → ℕ → List ℕ
memset c zero = []
memset c (suc n) = c ∷ memset c n

-- What _GetNameField leaves: the text behind the field, the field, and whether it has a wildcard.
pub record Field : Type 0 where
  pub text : List ℕ
  pub field : List ℕ
  pub wild : Bool

-- The special cases `.` and `..`: a first or second character of the name.
unfoldable pub set_dots : Bool → List ℕ → List ℕ
set_dots two (_ ∷ b ∷ l) = 0x2e ∷ (if two then 0x2e else b) ∷ l
set_dots two l = l

module _ (up : ℕ → ℕ) where
  -- _GetNameField and GetNameField, for the characters of the field that are left.
  unfoldable pub get_name_field : ℕ → List ℕ → Field
  get_name_field zero t = record { text = t; field = []; wild = false }
  get_name_field (suc n) [] = record { text = []; field = memset 0x20 (suc n); wild = false }
  get_name_field (suc n) (c ∷ t) =
      let rest = get_name_field n t in
      if test_field_seps c
      then record { text = c ∷ t; field = memset 0x20 (suc n); wild = false }
      else if c == 0x2a
      then record { text = t; field = memset 0x3f (suc n); wild = true }
      else record { text = rest.text; field = up c ∷ rest.field; wild = c == 0x3f || rest.wild }

  -- The drive: whether it is a bad one, the text behind it, and the FCB.
  unfoldable pub parse_drive : (ℕ → Bool) → Bool → List ℕ → Fcb → Bool × List ℕ × Fcb
  parse_drive known keep (c ∷ d ∷ t) f =
      let drive = (up c + 0x100 - 0x41) % 0x100 in
      if not (test_field_seps c) && d == 0x3a
      then (not (known drive), t, record f { fcb_drive = (drive + 1) % 0x100 })
      else (false, c ∷ d ∷ t, if keep then f else record f { fcb_drive = 0 })
  parse_drive known keep t f = (false, t, if keep then f else record f { fcb_drive = 0 })

  -- The name and the extension behind the drive: the result, the text and the FCB.
  unfoldable pub parse_extension : Bool → Field → Fcb → ℕ × List ℕ × Fcb
  parse_extension bad name f =
      let result = λ (wild : Bool). if bad then 0xff else if wild then 1 else 0 in
      elim name.text [
        | [] ↦ (result name.wild, [], record f { fcb_fname = name.field })
        | c ∷ t ↦
            let ext = get_name_field 3 t in
            if c == 0x2e
            then (
              result (name.wild || ext.wild),
              ext.text,
              record f { fcb_fname = name.field; fcb_fext = ext.field },
            )
            else (result name.wild, c ∷ t, record f { fcb_fname = name.field })
      ]

  unfoldable pub parse_names : Bool → List ℕ → Fcb → ℕ × List ℕ × Fcb
  parse_names bad [] f = parse_extension bad (get_name_field 8 []) f
  parse_names bad (c ∷ t) f =
      let named = parse_extension bad (get_name_field 8 (c ∷ t)) f in
      elim (c == 0x2e) [
        | false ↦ named
        | true ↦ elim t [
          | [] ↦ (0, [], record f { fcb_fname = set_dots false f.fcb_fname })
          | d ∷ r ↦
              if d == 0x2e
              then (0, r, record f { fcb_fname = set_dots true f.fcb_fname })
              else (0, d ∷ r, record f { fcb_fname = set_dots false f.fcb_fname })
        ]
      ]

  -- FcbParseFname: the new value of the mode, the text behind the name, and the FCB.
  unfoldable pub fcb_parse_fname : (ℕ → Bool) → ℕ → List ℕ → Fcb → ℕ × List ℕ × Fcb
  fcb_parse_fname known mode text f =
      let t = parse_skip_wh (if mode % 2 == 1 then skip_lead_sep text else text) in
      let d = parse_drive known (mode / 2 % 2 == 1) t f in
      let g = d.2 in
      parse_names d.0 d.1 (record g {
        fcb_cublock = 0;
        fcb_recsiz = 0;
        fcb_fname = if mode / 4 % 2 == 1 then g.fcb_fname else memset 0x20 8;
        fcb_fext = if mode / 8 % 2 == 1 then g.fcb_fext else memset 0x20 3;
      })

-- FcbNextRecord, FcbRec, FcbSetRandom, FcbCalcRec.
unfoldable pub fcb_next_record : Fcb → Fcb
fcb_next_record f =
    let curec = (f.fcb_curec + 1) % 0x100 in
    if leb 128 curec
    then record f { fcb_curec = 0; fcb_cublock = (f.fcb_cublock + 1) % 0x1_0000 }
    else record f { fcb_curec = curec }

unfoldable pub fcb_rec : Fcb → ℕ
fcb_rec f = (f.fcb_cublock * 128 + f.fcb_curec) % 0x1_0000_0000

unfoldable pub fcb_set_random : Fcb → Fcb
fcb_set_random f = record f { fcb_rndm = fcb_rec f }

unfoldable pub fcb_calc_rec : Fcb → Fcb
fcb_calc_rec f = record f {
  fcb_cublock = f.fcb_rndm / 128 % 0x1_0000;
  fcb_curec = f.fcb_rndm % 0x100 % 128;
}
