-- ===== src/MemMgr/Alloc.antt =====
-- kernel/memmgr.c: DosMemAlloc and DosMemLargest.
use fdpp.Base.{
  ℕ, zero, suc, ◌+◌, ◌-◌, ◌/◌, ◌%◌, Bool, true, ◌&&◌, ◌||◌, not, Option, none, some, ltb, leb, ◌==◌,
  if◌then◌else◌, set,
}
use fdpp.MemMgr.{
  Mem, write, mcb_normal, mcb_last, free_psp, Status, success, de_nomem, de_mcbdestry, next_mcb,
  next_mcb_size, mcb_free, mcb_valid, fuel, join_mcbs,
}

-- The kernel's variables that the memory manager reads and writes.
pub record Arena : Type 0 where
  pub mem : Mem
  pub first_mcb : ℕ
  pub uppermem_link : ℕ
  pub uppermem_root : ℕ
  pub mem_access_mode : ℕ
  pub cu_psp : ℕ

-- A mode is a 16-bit word; LARGEST is -1.
abbrev pub largest_mode : ℕ
largest_mode = 0xffff

-- `mode & FIRST_FIT_U`, `mode & (FIRST_FIT_UO | FIRST_FIT_U)`, `mode & ~FIRST_FIT_U`
abbrev pub bit_u : ℕ → Bool
bit_u mode = mode / 0x80 % 2 == 1

abbrev pub bits_u_uo : ℕ → Bool
bits_u_uo mode = not (mode / 0x40 % 4 == 0)

abbrev pub clear_u : ℕ → ℕ
clear_u mode = if bit_u mode then mode - 0x80 else mode

-- The arms of `switch (mode)`.
pub data Fit : Type 0 where
  last_fit largest best_fit first_fit : Fit

unfoldable pub fit : ℕ → Fit
fit mode =
    if mode == largest_mode
    then largest
    else if mode == 1 || mode == 0x81 || mode == 0x41
    then best_fit
    else if mode == 0 || mode == 0x80 || mode == 0x40
    then first_fit
    else last_fit

-- What the scan of the chain carries besides `p`; `stopped` is `goto stopIt`.
pub data Phase : Type 0 where
  scanning stopped destroyed : Phase

pub record Scan : Type 0 where
  pub mem : Mem
  pub found : Option ℕ
  pub biggest : Option ℕ
  pub phase : Phase

-- `!seg || seg->m_size < n` and `!seg || seg->m_size > n`
abbrev pub none_or_smaller : Mem → Option ℕ → ℕ → Bool
none_or_smaller m none n = true
none_or_smaller m (some x) n = ltb (m x).m_size n

abbrev pub none_or_larger : Mem → Option ℕ → ℕ → Bool
none_or_larger m none n = true
none_or_larger m (some x) n = ltb n (m x).m_size

-- The `switch` at a block that is large enough.
unfoldable pub choose : Fit → Scan → ℕ → Scan
choose last_fit s p = record s { found = some p }
choose largest s p = s
choose best_fit s p =
    if none_or_larger s.mem s.found (s.mem p).m_size then record s { found = some p } else s
choose first_fit s p = record s { found = some p; phase = stopped }

-- The body of `if (mcbFree(p))` behind joinMCBs.
unfoldable pub consider : Fit → ℕ → Scan → ℕ → Scan
unfolding choose
consider r size s p =
    let n = (s.mem p).m_size in
    let s' : Scan =
      if none_or_smaller s.mem s.biggest n then record s { biggest = some p } else s in
    if leb size n then choose r s' p else s'

-- The loop's body up to the test for the last MCB.
unfoldable pub visit : Fit → ℕ → Scan → ℕ → Option Scan
visit r size s p =
    if not (mcb_valid (s.mem p))
    then some (record s { phase = destroyed })
    else if not (mcb_free (s.mem p))
    then some s
    else elim (join_mcbs fuel s.mem p) [
      | none ↦ none
      | some (success, m) ↦ some (consider r size (record s { mem = m }) p)
      | some (_, m) ↦ some (record s { mem = m; phase = destroyed })
    ]

-- FOREVER { … }
unfoldable pub scan : ℕ → Fit → ℕ → Scan → ℕ → Option Scan
scan zero r size s p = none
scan (suc f) r size s p = elim (visit r size s p) [
  | none ↦ none
  | some t ↦
      let rest = scan f r size t (next_mcb t.mem p) in
      elim t.phase [ scanning ↦ if (t.mem p).m_type == mcb_last then some t else rest | _ ↦ some t ]
]

-- Behind stopIt: split the found block, from its end for the LAST_FIT modes, else from its start.
-- The segment returned is that of the block which is to be allocated.
abbrev pub from_end : ℕ → Bool
from_end mode = mode == 2 || mode == 0x42 || mode == 0x82

unfoldable pub split_last : Mem → ℕ → ℕ → Mem × ℕ
unfolding write
split_last m found size =
    let c = m found in
    let rest = record c { m_size = (c.m_size + 0x10000 - (size + 1)) % 0x10000 } in
    let new = next_mcb_size found rest.m_size in
    let m₁ = write m found (record rest { m_type = mcb_normal; m_psp = free_psp }) in
    (write m₁ new (record (m₁ new) { m_type = c.m_type; m_size = size }), new)

unfoldable pub split_first : Mem → ℕ → ℕ → Mem × ℕ
unfolding write
split_first m found size =
    let c = m found in
    let p = next_mcb_size found size in
    let m₁ = write m p (record (m p) {
      m_type = c.m_type;
      m_size = (c.m_size + 0x20000 - size - 1) % 0x10000;
      m_psp = free_psp;
    }) in
    (write m₁ found (record (m₁ found) { m_type = mcb_normal; m_size = size }), found)

unfoldable pub split : ℕ → ℕ → Mem → ℕ → Mem × ℕ
split mode size m found =
    if mode == largest_mode || size == (m found).m_size
    then (m, found)
    else if from_end mode
    then split_last m found size
    else split_first m found size

-- The new block is the current process's.
unfoldable pub claim : Mem → ℕ → ℕ → Mem
unfolding write
claim m found psp =
    write m found (record (m found) { m_psp = psp; m_name = set (m found).m_name 0 0 })

-- What DosMemAlloc returns: the arena, the status, `*para`, and the value that `*asize` is given,
-- if it is given one.
pub record Allocation : Type 0 where
  pub arena : Arena
  pub status : Status
  pub para : Option ℕ
  pub asize : Option ℕ

abbrev pub size_of : Mem → Option ℕ → ℕ
size_of m none = 0
size_of m (some x) = (m x).m_size

-- `(uppermem_link & 1) && uppermem_root != 0xffff`
abbrev pub umb_linked : Arena → Bool
umb_linked a = (a.uppermem_link % 2 == 1) && not (a.uppermem_root == 0xffff)

-- Where the scan starts.
unfoldable pub start : Arena → ℕ → ℕ → ℕ
start a mode size =
    let tmpmode = if mode == largest_mode then a.mem_access_mode else mode in
    if umb_linked a && (not (mode == largest_mode) || size == 0xffff) && bits_u_uo tmpmode
    then a.uppermem_root
    else a.first_mcb

-- `found` behind the scan, and what LARGEST stores in `*asize`.
unfoldable pub pick : ℕ → ℕ → Scan → Option ℕ
pick mode size s =
    if mode == largest_mode && not (none_or_smaller s.mem s.biggest size)
    then s.biggest
    else s.found

unfoldable pub finish : ℕ → ℕ → Arena → Mem → ℕ → Allocation
unfolding split claim
finish mode size a m found =
    let (m', x) = split mode size m found in
    record {
      arena = record a { mem = claim m' x a.cu_psp };
      status = success;
      para = some x;
      asize = if mode == largest_mode then some (m found).m_size else none;
    }

-- `!foundSeg || !foundSeg->m_size`
abbrev pub no_block : Mem → Option ℕ → Bool
no_block m none = true
no_block m (some x) = (m x).m_size == 0

unfoldable pub destroyed_at : Arena → Mem → Allocation
destroyed_at a m = record {
  arena = record a { mem = m };
  status = de_mcbdestry;
  para = none;
  asize = none;
}

-- DosMemAlloc from searchAgain on (a stop without a found block would read through NULL); the first argument counts the searches that are left.
unfoldable pub search_again : ℕ → Arena → ℕ → ℕ → Option Allocation
unfolding start pick finish destroyed_at
search_again zero a size mode = none
search_again (suc k) a size mode =
    let s₀ : Scan = record { mem = a.mem; found = none; biggest = none; phase = scanning } in
    elim (scan fuel (fit mode) size s₀ (start a mode size)) [
      | none ↦ none
      | some s ↦
          let a' = record a { mem = s.mem } in
          let again = search_again k a' size (clear_u mode) in
          let refused : Option Allocation = some (record {
            arena = a';
            status = de_nomem;
            para = none;
            asize = some (size_of s.mem s.biggest);
          }) in
          elim s.phase [
            | destroyed ↦ some (destroyed_at a s.mem)
            | stopped ↦ elim s.found [ none ↦ none | some x ↦ some (finish mode size a s.mem x) ]
            | scanning ↦ elim (pick mode size s) [
              | none ↦
                  if not (mode == largest_mode) && bit_u mode && umb_linked a
                  then again
                  else refused
              | some x ↦
                  if (s.mem x).m_size == 0
                  then (if not (mode == largest_mode) && bit_u mode && umb_linked a
                      then again
                      else refused)
                  else some (finish mode size a s.mem x)
            ]
          ]
    ]

-- DosMemAlloc; an `asize` of NULL drops the field `asize` of the result.
unfoldable pub dos_mem_alloc : Arena → ℕ → ℕ → Option Allocation
dos_mem_alloc a size mode = search_again 2 a size mode
