-- ===== src/Hma/Tests.antt =====
-- Runs of the calls, and the theorems at concrete areas.
use fdpp.Base.{ℕ, ◌<◌, ◌≡◌, ◌⊎◌, refl, inr, [], ◌∷◌, Option, some, none, true, false, arith}
use fdpp.MemMgr.{Status, success, de_invldmcb}
use fdpp.Hma.{
  Headers, store, rounds, take_in, join, find_block, divide, own, dos_hma_alloc, dos_hma_free,
  dos_hma_change, walk, dos_hma_check, dos_hma_query, free_process_hma, hma_init_first_mcb,
}
use fdpp.Hma.Chain.{Block, Chain}
use fdpp.Hma.Checks.{first_blocks, hma_init_first_mcb-Chain}
use fdpp.Hma.Changes.{reach}
use fdpp.Hma.Resizes.{Resized, Stretched, dos_hma_change-Resized}
use fdpp.Hma.Allocates.{Granted, Refused, dos_hma_alloc-Granted}
use fdpp.Hma.Frees.{Freed, dos_hma_free-Freed}
use fdpp.Hma.Returns.{Restored, dos_hma_free-alloc}
use fdpp.Hma.Handler.{Regs, Reserve, int2f_4a}
use fdpp.Hma.Calls.{Answered, int2f_4a-IsSound}

abbrev blank : Headers
blank x = record { signature = 0; owner = 0; size = 0; next = 0 }

-- DOS keeps 0x20 bytes, and the rest is free.
abbrev area : Headers
area = hma_init_first_mcb blank 0x40

area-Chain : Chain area 0x10 (first_blocks 0x40)
area-Chain = hma_init_first_mcb-Chain blank 0x40 (omega arith) (inr (omega arith, omega arith))

abbrev kept : Block
kept = record { start = 0x10; owner = 0xffff; size = 0x20 }

abbrev rest : Block
rest = record { start = 0x40; owner = 0; size = 0xffb0 }

-- The offsets that calls give.
abbrev off_of : Option (Status × Option ℕ × Headers) → Option ℕ
off_of (some (st, off, m)) = off
off_of none = none

alloc_low : off_of (dos_hma_alloc true area 0x100 false 7) ≡ some 0x50
unfolding dos_hma_alloc find_block join divide own store take_in hma_init_first_mcb
alloc_low = refl

alloc_high : off_of (dos_hma_alloc true area 0x100 true 7) ≡ some 0xff00
unfolding dos_hma_alloc find_block join divide own store take_in hma_init_first_mcb
alloc_high = refl

alloc_all : off_of (dos_hma_alloc true area 0xffc0 false 7) ≡ none
unfolding dos_hma_alloc find_block join divide own store take_in hma_init_first_mcb
alloc_all = refl

-- The last block is found by the query also where it is in use.
query_used : dos_hma_query true (own area 0x40 7) ≡ some (success, some (0x40, 0xffb0))
unfolding dos_hma_query walk own store hma_init_first_mcb
query_used = refl

check_area : dos_hma_check true area ≡ some success
unfolding dos_hma_check walk store hma_init_first_mcb
check_area = refl

-- The header of a process is looked for 16 bytes before it.
abbrev status_of : Option (Status × Headers) → Option (Status × ℕ)
status_of (some (st, m)) = some (st, (m 0x40).owner)
status_of none = none

free_process_skips :
    status_of (free_process_hma rounds (own area 0x40 7) 7 0x10) ≡ some (success, 7)
unfolding free_process_hma dos_hma_free own store hma_init_first_mcb
free_process_skips = refl

-- So is that of a block whose new size is 0.
change_to_zero : status_of (dos_hma_change true (own area 0x40 7) 0x50 0 7) ≡ some (de_invldmcb, 7)
unfolding dos_hma_change dos_hma_free own store hma_init_first_mcb
change_to_zero = refl

dos_hma_alloc-Granted_example :
    Granted (dos_hma_alloc true area 0x100 false 7) false 0x100 7 (first_blocks 0x40)
    ⊎ Refused (dos_hma_alloc true area 0x100 false 7) 0x100 (first_blocks 0x40)
dos_hma_alloc-Granted_example =
    dos_hma_alloc-Granted area 0x100 7 false (omega arith) (first_blocks 0x40) area-Chain

dos_hma_free-Freed_example : Freed (dos_hma_free true area 0x20) [] kept (rest ∷ [])
dos_hma_free-Freed_example =
    dos_hma_free-Freed area 0x20 [] kept (rest ∷ []) (omega arith) (omega arith) area-Chain

-- The memory that the call returns.
abbrev memory_of : Option (Status × Option ℕ × Headers) → Headers
memory_of (some (st, off, m)) = m
memory_of none = blank

alloc_run :
    dos_hma_alloc true area 0x100 false 7
    ≡ some (success, some 0x50, memory_of (dos_hma_alloc true area 0x100 false 7))
unfolding dos_hma_alloc find_block join divide own store take_in hma_init_first_mcb
alloc_run = refl

dos_hma_free-alloc_example :
    Restored
      (dos_hma_free true (memory_of (dos_hma_alloc true area 0x100 false 7)) 0x50)
      (first_blocks 0x40)
dos_hma_free-alloc_example =
    dos_hma_free-alloc area (memory_of (dos_hma_alloc true area 0x100 false 7)) 0x100 7 0x50 false
      (first_blocks 0x40) (omega arith) (λ e. absurd (omega arith)) area-Chain alloc_run

dos_hma_change-Resized_example :
    Resized
      (dos_hma_change true area 0x20 0x100 7)
      7
      0x100
      []
      (reach 0x100 kept (rest ∷ [])).0
      (reach 0x100 kept (rest ∷ [])).1
    ⊎ (((reach 0x100 kept (rest ∷ [])).0.size < 0x100)
        × Stretched
            (dos_hma_change true area 0x20 0x100 7)
            []
            (reach 0x100 kept (rest ∷ [])).0
            (reach 0x100 kept (rest ∷ [])).1)
dos_hma_change-Resized_example =
    dos_hma_change-Resized area 0x20 0x100 7 [] kept (rest ∷ []) (omega arith)
      (λ e. absurd (omega arith)) (omega arith) (omega arith) area-Chain

-- A call 4A03 that allocates 0x100 bytes, with the area claimed.
abbrev regs : Regs
regs = record { ax = 0x4a03; bx = 0x100; dl = 0; di = 0; es = 0 }

abbrev reserve : Reserve
reserve = record { driver = true; enabled = true; enabled_again = true; call_xmscall = true }

int2f_4a-IsSound_example :
    Answered (int2f_4a reserve (record { claimed = true; memory = area }) 7 3 regs)
int2f_4a-IsSound_example =
    int2f_4a-IsSound reserve (record { claimed = true; memory = area }) 7 3 regs (omega arith)
      (omega arith) (λ _. (first_blocks 0x40, area-Chain)) (λ _ e _. absurd (omega arith))
