-- ===== src/Fcb/Records.antt =====
-- The record numbers of an FCB in kernel/fcbfns.c.
use fdpp.Base.{ℕ, ◌+◌, ◌*◌, ◌/◌, ◌%◌, ◌<◌, ◌≡◌, ap, arith, leb, by_test}
use fdpp.Fcb.{Fcb, fcb_rec, fcb_next_record, fcb_set_random, fcb_calc_rec}

-- FcbCalcRec of a record number below 0x7f_ffff gives the block and the record that FcbSetRandom makes that
-- number of, with a record below 128; and FcbNextRecord then goes to the next number.
pub fcb_calc_rec-set :
    (f : Fcb)
    → f.fcb_rndm < 0x7f_ffff
    → (fcb_set_random (fcb_calc_rec f) ≡ fcb_calc_rec f)
      × ((fcb_calc_rec f).fcb_curec < 128)
      × (fcb_rec (fcb_next_record (fcb_calc_rec f)) ≡ f.fcb_rndm + 1)
unfolding fcb_calc_rec fcb_set_random fcb_rec fcb_next_record
fcb_calc_rec-set f lt =
    let same : (f.fcb_rndm / 128 % 0x1_0000 * 128 + f.fcb_rndm % 0x100 % 128) % 0x1_0000_0000
        ≡ f.fcb_rndm =
      omega (arith, lt) in
    (
      ap (λ (n : ℕ). record (fcb_calc_rec f) { fcb_rndm = n }) same,
      omega arith,
      by_test (λ (g : Fcb). (g.fcb_cublock * 128 + g.fcb_curec) % 0x1_0000_0000 ≡ f.fcb_rndm + 1)
          (leb 128 ((f.fcb_rndm % 0x100 % 128 + 1) % 0x100)) _ _ (λ y. ground (arith, lt, y))
          (λ n. ground (arith, lt, n)),
    )
