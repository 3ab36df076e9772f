-- ===== src/MemMgr/Tests.antt =====
-- The memory manager at a small arena: runs, and the theorems at it.
use fdpp.Base.{ℕ, ◌≡◌, ◌≢◌, refl, Option, none, some, replicate, arith, ◌==◌, if◌then◌else◌}
use fdpp.MemMgr.{
  Mem, Mcb, Status, success, de_mcbdestry, mcb_normal, mcb_last, fuel, write, join_mcbs, absorb,
}
use fdpp.MemMgr.Alloc.{
  Arena, Allocation, best_fit, Scan, scanning, scan, visit, consider, choose, fit, split,
  split_first, split_last, claim, start, pick, finish, search_again, dos_mem_alloc,
}
use fdpp.MemMgr.Ops.{dos_mem_free, dos_mem_change, dos_mem_check, free_process}
use fdpp.MemMgr.Chain.{Chain, At, Evolves}
use fdpp.MemMgr.Arenas.{IsArena, Allocated}
use fdpp.MemMgr.Allocates.{dos_mem_alloc-Allocated}
use fdpp.MemMgr.Search.{Scanned, scan-prefers}
use fdpp.MemMgr.Releases.{dos_mem_free_lem, free_process_lem}
use fdpp.MemMgr.Checks.{dos_mem_check_corrupt}
use fdpp.MemMgr.Resizes.{But, Changed, dos_mem_change_lem}

abbrev mcb : ℕ → ℕ → ℕ → Mcb
mcb t psp size = record { m_type = t; m_psp = psp; m_size = size; m_name = replicate 8 0 }

-- A system block, two free neighbours, and a process's block at the end.
abbrev memory : Mem
memory x =
    if x == 0x100
    then mcb mcb_normal 8 0x10
    else if x == 0x111
    then mcb mcb_normal 0 0x20
    else if x == 0x132
    then mcb mcb_normal 0 0x0f
    else if x == 0x142
    then mcb mcb_last 0x30 0x10
    else mcb 0 0 0

abbrev arena : Arena
arena = record {
  mem = memory;
  first_mcb = 0x100;
  uppermem_link = 0;
  uppermem_root = 0xffff;
  mem_access_mode = 0;
  cu_psp = 0x30;
}

memory-Chain : Chain memory 0x153 0x100
memory-Chain =
    Chain.more 0x111 refl refl
      (Chain.more 0x132 refl refl (Chain.more 0x142 refl refl (Chain.last refl refl)))

arena-IsArena : IsArena arena 0x153
arena-IsArena = record {
  chain = memory-Chain;
  low = omega arith;
  high = omega arith;
  root_at = λ h. absurd (cc);
  root_used = λ h. absurd (cc);
}

last-At : At memory 0x142 0x100
last-At = At.next 0x111 refl refl (At.next 0x132 refl refl (At.next 0x142 refl refl (At.here refl)))

abbrev para_of : Option Allocation → Option ℕ
para_of none = none
para_of (some r) = r.para

-- The two free blocks are joined to 0x30 paragraphs; LAST_FIT takes their end.
alloc_runs :
    (para_of (dos_mem_alloc arena 0x25 0) ≡ some 0x111)
    × (para_of (dos_mem_alloc arena 0x25 2) ≡ some 0x11c)
    × (para_of (dos_mem_alloc arena 0x31 1) ≡ none)
unfolding dos_mem_alloc search_again scan visit consider choose fit join_mcbs absorb finish start
    pick split split_first split_last claim write
alloc_runs = (refl, refl, refl)

dos_mem_alloc-Allocated_example :
    (r : Allocation) × (dos_mem_alloc arena 0x25 2 ≡ some r)
    × (r.arena ≡ record arena { mem = r.arena.mem })
    × Allocated arena 0x153 0x25 2 r
dos_mem_alloc-Allocated_example = dos_mem_alloc-Allocated arena 0x153 0x25 2 arena-IsArena

scan-prefers_example :
    (t : Scan) × (scan fuel best_fit 5
        (record { mem = memory; found = none; biggest = none; phase = scanning })
        0x100
      ≡ some t)
    × Scanned best_fit 5 memory 0x153 0x100 t
scan-prefers_example = scan-prefers best_fit 5 memory-Chain (omega arith) (omega arith)

dos_mem_free_lem_example :
    let (m', status) = dos_mem_free memory 0x142 in
    (status ≡ success)
    × Evolves (λ y. y ≢ 0x142) memory m' 0x153 0x100
    × ((m' 0x142).m_psp ≡ 0)
    × ((m' 0x142).m_size ≡ 0x10)
dos_mem_free_lem_example = dos_mem_free_lem 0x142 memory-Chain last-At (omega arith)

free_process_lem_example :
    (m' : Mem) × (free_process fuel memory 0x30 0x100 ≡ some (m', success))
    × Evolves (λ y. (memory y).m_psp ≢ 0x30) memory m' 0x153 0x100
    × ((x : ℕ) → At memory x 0x100 → (memory x).m_psp ≡ 0x30 → At m' x 0x100 × ((m' x).m_psp ≡ 0))
free_process_lem_example = free_process_lem 0x30 memory-Chain (omega arith) (omega arith)

dos_mem_change_lem_example :
    (m' : Mem) × (status : Status) × (max : Option ℕ) × (dos_mem_change memory 0x30 0x143 8
      ≡ some (m', status, max))
    × Evolves (But 0x142) memory m' 0x153 0x100
    × At m' 0x142 0x100
    × Changed memory 0x153 0x100 0x142 0x30 8 m' status max
dos_mem_change_lem_example =
    dos_mem_change_lem 0x30 0x142 8 memory-Chain last-At (omega arith) (omega arith)

-- The same memory with the last MCB overwritten.
abbrev overwritten : Mem
overwritten x = if x == 0x142 then mcb 0x4b 0x30 0x10 else memory x

dos_mem_check_corrupt_example : dos_mem_check fuel overwritten 0x100 ≡ some de_mcbdestry
dos_mem_check_corrupt_example =
    dos_mem_check_corrupt {x = 0x142}
      (At.next 0x111 refl refl (At.next 0x132 refl refl (At.next 0x142 refl refl (At.here refl))))
      (omega arith) (omega arith) (omega arith)
