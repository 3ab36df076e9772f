-- ===== src/MemMgr.antt =====
-- kernel/memmgr.c and hdr/mcb.h: the memory arena, a chain of memory control blocks (MCBs), one before each
-- block of paragraphs. `m_type` tells the last MCB from the others, `m_psp` is the owner (0 for a
-- free block), `m_size` the size in paragraphs without the MCB itself. An MCB lies at offset 0 of
-- its segment, so memory is a function from segments. A null pointer is `none`.
-- The calls of fd_prot_mem and fd_mark_mem, hints to a memory checker, are left out. MCBDESTRY
-- aborts the program after it has printed its message; here it is the result `de_mcbdestry`.
-- A loop takes fuel; `none` means that the fuel ran out.
pub mod Alloc
pub mod Allocates
pub mod Arenas
pub mod Chain
pub mod Checks
pub mod Consider
pub mod Join
pub mod Local
pub mod Ops
pub mod Picks
pub mod Placed
pub mod Releases
pub mod Resizes
pub mod Search
pub mod Seen
mod Tests
use fdpp.Base.{
  ℕ, zero, suc, ◌+◌, ◌%◌, Bool, ◌&&◌, ◌||◌, not, Option, none, some, List, ◌==◌, if◌then◌else◌,
}

-- `mcb` of hdr/mcb.h; `m_fill` is never used.
pub record Mcb : Type 0 where
  pub m_type : ℕ
  pub m_psp : ℕ
  pub m_size : ℕ
  pub m_name : List ℕ

abbrev pub Mem : Type 0
Mem = ℕ → Mcb

unfoldable pub write : Mem → ℕ → Mcb → Mem
write m a c x = if x == a then c else m x

abbrev pub mcb_normal : ℕ
mcb_normal = 0x4d

abbrev pub mcb_last : ℕ
mcb_last = 0x5a

abbrev pub free_psp : ℕ
free_psp = 0

pub data Status : Type 0 where
  success de_nomem de_invldmcb de_mcbdestry : Status

-- nxtMCBsize: a segment is 16 bits wide.
abbrev pub next_mcb_size : ℕ → ℕ → ℕ
next_mcb_size p size = (p + size + 1) % 0x10000

abbrev pub next_mcb : Mem → ℕ → ℕ
next_mcb m p = next_mcb_size p (m p).m_size

abbrev pub mcb_free : Mcb → Bool
mcb_free c = c.m_psp == free_psp

abbrev pub mcb_freeable : Mcb → Bool
mcb_freeable c = c.m_type == mcb_normal || c.m_type == mcb_last

abbrev pub mcb_valid : Mcb → Bool
mcb_valid c = not (c.m_size == 0xffff) && mcb_freeable c

-- More than there are segments.
abbrev pub fuel : ℕ
fuel = 0x1_0001

-- One round of the loop of joinMCBs: `p` takes in `q`, which is marked as "fake".
unfoldable pub absorb : Mem → ℕ → ℕ → Mem
unfolding write
absorb m p q =
    let c = m p in
    let d = m q in
    let m' =
      write m p (record c { m_type = d.m_type; m_size = (c.m_size + (d.m_size + 1)) % 0x10000 }) in
    write m' q (record (m' q) { m_size = 0xffff })

-- joinMCBs
unfoldable pub join_mcbs : ℕ → Mem → ℕ → Option (Status × Mem)
join_mcbs zero m p = none
join_mcbs (suc f) m p =
    let q = next_mcb m p in
    let rest = join_mcbs f (absorb m p q) p in
    if not ((m p).m_type == mcb_normal)
    then some (success, m)
    else if not (mcb_free (m q))
    then some (success, m)
    else if not (mcb_valid (m q))
    then some (de_mcbdestry, m)
    else rest
