-- ===== src/FatDir/Swaps.antt =====
-- The marks of deleted entries, written and read.
use fdpp.Base.{
  ℕ, ◌≡◌, ◌≢◌, Bool, true, false, Option, none, some, List, ◌∷◌, ◌==◌, if◌then◌else◌, arith,
}
use fdpp.FatDir.{Dirent, swap_deleted_rd, swap_deleted_wr}

-- What swap_deleted_rd makes of what is written, if anything is.
abbrev read_back : Option Dirent → Option (Dirent × Bool)
read_back none = none
read_back (some e) = some (swap_deleted_rd e)

-- An entry whose name begins with a character that is neither 0 nor 5 is written, and read again with its
-- name; if its deletion is pending, it is read as deleted, and its first character is in the time byte, 5 for 0xe5.
pub swap_deleted_rd-swap_deleted_wr :
    (c : ℕ) (t : List ℕ) (attrib fchar : ℕ) (pend : Bool)
    → c ≢ 0
    → c ≢ 0x05
    → let e : Dirent = record {
      dir_name = c ∷ t;
      dir_attrib = attrib;
      dir_crtimems_or_fchar = fchar;
    } in
      read_back (swap_deleted_wr e pend)
      ≡ some (
        if pend then record e { dir_crtimems_or_fchar = if c == 0xe5 then 0x05 else c } else e,
        pend,
      )
unfolding swap_deleted_rd swap_deleted_wr
swap_deleted_rd-swap_deleted_wr c t attrib fchar true z f = ground arith
swap_deleted_rd-swap_deleted_wr c t attrib fchar false z f = ground arith
