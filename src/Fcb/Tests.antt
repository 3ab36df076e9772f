-- ===== src/Fcb/Tests.antt =====
-- Parsing into an FCB, and its record numbers, at small inputs.
use fdpp.Base.{ℕ, ◌-◌, ◌<◌, ◌≡◌, refl, Bool, ◌&&◌, [], ◌∷◌, leb, if◌then◌else◌, arith}
use fdpp.Fcb.{
  Fcb, test_field_seps, test_cmn_seps, parse_skip_wh, skip_lead_sep, memset, get_name_field,
  set_dots, parse_drive, parse_extension, parse_names, fcb_parse_fname,
}
use fdpp.Fcb.Fields.{IsNameChar, nil, cons, separated}
use fdpp.Fcb.Parses.{fcb_parse_fname-IsName}

-- Small letters are mapped to capitals, and only the drives A to C are known.
abbrev up : ℕ → ℕ
up c = if leb 0x61 c && leb c 0x7a then c - 0x20 else c

abbrev known : ℕ → Bool
known d = leb d 2

abbrev blank : Fcb
blank = record {
  fcb_drive = 9;
  fcb_fname = memset 0x2d 8;
  fcb_fext = memset 0x2d 3;
  fcb_cublock = 3;
  fcb_recsiz = 128;
  fcb_curec = 5;
  fcb_rndm = 0x1ff;
}

-- "a:x*.b", " ;AB.C" and ".." .
parse_runs :
    ((fcb_parse_fname up known 0 (0x61 ∷ 0x3a ∷ 0x78 ∷ 0x2a ∷ 0x2e ∷ 0x62 ∷ []) blank).0 ≡ 1)
    × ((fcb_parse_fname up known 0 (0x61 ∷ 0x3a ∷ 0x78 ∷ 0x2a ∷ 0x2e ∷ 0x62 ∷ []) blank).2.fcb_drive
        ≡ 1)
    × ((fcb_parse_fname up known 0 (0x61 ∷ 0x3a ∷ 0x78 ∷ 0x2a ∷ 0x2e ∷ 0x62 ∷ []) blank).2.fcb_fname
        ≡ 0x58 ∷ 0x3f ∷ 0x3f ∷ 0x3f ∷ 0x3f ∷ 0x3f ∷ 0x3f ∷ 0x3f ∷ [])
    × ((fcb_parse_fname up known 1 (0x20 ∷ 0x3b ∷ 0x41 ∷ 0x42 ∷ 0x2e ∷ 0x43 ∷ []) blank).2.fcb_fext
        ≡ 0x43 ∷ 0x20 ∷ 0x20 ∷ [])
    × ((fcb_parse_fname up known 0 (0x2e ∷ 0x2e ∷ []) blank).2.fcb_fname
        ≡ 0x2e ∷ 0x2e ∷ 0x20 ∷ 0x20 ∷ 0x20 ∷ 0x20 ∷ 0x20 ∷ 0x20 ∷ [])
unfolding test_field_seps test_cmn_seps parse_skip_wh skip_lead_sep memset get_name_field set_dots
    parse_drive parse_extension parse_names fcb_parse_fname
parse_runs = (refl, refl, refl, refl, refl)

letter : (c : ℕ) → 0x40 < c → c < 0x5b → IsNameChar up c
unfolding test_field_seps
letter c low high = record {
  inner = ground (arith, low, high);
  no_star = λ e. omega (arith, e, low);
  no_mark = λ e. omega (arith, e, low);
  upper = ground (arith, low, high);
}

-- "AB.C", followed by a comma.
fcb_parse_fname-IsName_example :
    fcb_parse_fname up known 1 (0x41 ∷ 0x42 ∷ 0x2e ∷ 0x43 ∷ 0x2c ∷ []) blank ≡ (
      0,
      0x2c ∷ [],
      record blank {
        fcb_drive = 0;
        fcb_cublock = 0;
        fcb_recsiz = 0;
        fcb_fname = 0x41 ∷ 0x42 ∷ memset 0x20 6;
        fcb_fext = 0x43 ∷ memset 0x20 2;
      },
    )
unfolding test_field_seps
fcb_parse_fname-IsName_example =
    fcb_parse_fname-IsName up known 1 6 2 blank
      (cons (letter 0x41 (omega arith) (omega arith))
        (cons (letter 0x42 (omega arith) (omega arith)) nil))
      (cons (letter 0x43 (omega arith) (omega arith)) nil) (separated [] refl) refl refl
