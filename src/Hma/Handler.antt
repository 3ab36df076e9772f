-- ===== src/Hma/Handler.antt =====
-- The calls of int 2f/4a01 to 4a04 in kernel/inthndlr.c, and ClaimHMA in kernel/inithma.c. The parameter
-- `reserve` says what the XMS driver, the A20 line and the reservation give to ClaimHMA; `psp` is cu_psp.
-- AL other than 1 to 4 has no result here: `rc` is not set there.
use fdpp.Base.{
  ℕ, ◌+◌, ◌*◌, ◌/◌, ◌%◌, ◌==◌, ◌||◌, not, Bool, true, false, Option, none, some, ltb, if◌then◌else◌,
}
use fdpp.MemMgr.{success}
use fdpp.Hma.{Headers, hma_init_first_mcb, dos_hma_query, dos_hma_alloc, dos_hma_free}

pub record Regs : Type 0 where
  pub ax : ℕ
  pub bx : ℕ
  pub dl : ℕ
  pub di : ℕ
  pub es : ℕ

-- HMAclaimed, and the memory of segment 0xffff.
pub record Area : Type 0 where
  pub claimed : Bool
  pub memory : Headers

-- ClaimHMA: the results of DetectXMSDriver, of the two tests of the A20 line, and of the driver's call.
pub record Reserve : Type 0 where
  pub driver : Bool
  pub enabled : Bool
  pub enabled_again : Bool
  pub call_xmscall : Bool

unfoldable pub enable_hma : Reserve → Bool
enable_hma s = if not s.enabled then false else if not s.enabled_again then false else true

unfoldable pub claim_hma : Reserve → Bool → Bool × Bool
unfolding enable_hma
claim_hma s claimed =
    if claimed
    then (claimed, true)
    else if not s.driver
    then (claimed, false)
    else if not (enable_hma s)
    then (claimed, false)
    else if not s.call_xmscall
    then (false, false)
    else (true, true)

-- rc is below SUCCESS, and DI and BX say so.
abbrev pub refused_regs : Regs → Regs
refused_regs r = record r { di = 0xffff; bx = 0 }

abbrev pub to_para : ℕ → ℕ
to_para x = (x + 0xf) % 0x1_0000 / 16 * 16

-- DosHMAAlloc and DosHMAFree, with what the calls make of their results.
unfoldable pub alloc_call : Area → Bool → ℕ → Regs → Option (Area × Regs)
alloc_call a topdown psp r = elim (dos_hma_alloc a.claimed a.memory r.bx topdown psp) [
  | none ↦ none
  | some (success, some off, m) ↦ some (record a { memory = m }, record r { di = off })
  | some (success, none, m) ↦ some (record a { memory = m }, r)
  | some (st, off, m) ↦ some (record a { memory = m }, refused_regs r)
]

unfoldable pub free_call : Area → Regs → Option (Area × Regs)
free_call a r = elim (dos_hma_free a.claimed a.memory r.di) [
  | none ↦ none
  | some (success, m) ↦ some (record a { memory = m }, r)
  | some (st, m) ↦ some (record a { memory = m }, refused_regs r)
]

unfoldable pub query_call : Area → Regs → Option (Area × Regs)
query_call a r =
    if not a.claimed then some (a, refused_regs r) else elim (dos_hma_query a.claimed a.memory) [
      | none ↦ none
      | some (success, some (offs, avail)) ↦ some (a, record r { di = offs; bx = avail })
      | some (_, _) ↦ some (a, refused_regs r)
    ]

unfoldable pub alloc_avail_call : Area → ℕ → Regs → Option (Area × Regs)
unfolding alloc_call
alloc_avail_call a psp r =
    if not a.claimed then some (a, refused_regs r) else elim (dos_hma_query a.claimed a.memory) [
      | none ↦ none
      | some (success, some (offs, avail)) ↦
          let bx = if ltb avail (to_para r.bx) then avail else to_para r.bx in
          alloc_call a false psp (record r { bx = bx })
      | some (_, _) ↦ some (a, refused_regs r)
    ]

-- Cases 3 and 4 claim the area first.
unfoldable pub claim_area : Reserve → Area → Area × Bool
unfolding claim_hma
claim_area s a =
    let c = claim_hma s a.claimed in
    if a.claimed
    then (a, true)
    else if not c.1
    then (record a { claimed = c.0 }, false)
    else (record { claimed = c.0; memory = hma_init_first_mcb a.memory 0x10 }, true)

unfoldable pub sub_call : Area → ℕ → Regs → Option (Area × Regs)
unfolding alloc_call free_call
sub_call a psp r =
    if r.dl == 0 || r.dl == 1
    then alloc_call a (r.dl == 1) psp (record r { bx = to_para r.bx })
    else if r.dl == 2
    then free_call a r
    else some (a, refused_regs r)

-- int2F_12_handler with AH = 0x4a
unfoldable pub int2f_4a : Reserve → Area → ℕ → ℕ → Regs → Option (Area × Regs)
unfolding query_call alloc_avail_call claim_area sub_call
int2f_4a s a psp al r =
    let r' = record r { es = 0xffff } in
    let c = claim_area s a in
    if al == 1
    then query_call a r'
    else if al == 2
    then alloc_avail_call a psp r'
    else if al == 3
    then (if not c.1 then some (c.0, refused_regs r') else sub_call c.0 psp r')
    else if al == 4
    then (if not c.1
        then some (c.0, refused_regs r')
        else some (c.0, record r' { ax = 0; di = 0x10 }))
    else none
