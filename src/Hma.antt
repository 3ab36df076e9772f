-- ===== src/Hma.antt =====
-- kernel/hmamgr.c: the blocks of the high memory area, and the calls of int 2f/4a01 to 4a04 in
-- kernel/inthndlr.c (Handler). A block is known by the 16-bit offset of its header in segment 0xffff; memory is a
-- function from offsets to headers. `next` is the offset of the next header, and 0 in the last one.
-- The calls of fd_prot_mem and fd_mark_mem, hints to a memory checker, are left out, as are the variables
-- that only go into a message. MCBDESTRY aborts the program after its message; here it is a result.
-- A loop takes fuel; `none` means that the fuel ran out.
pub mod Chain
pub mod Views
pub mod Joins
pub mod Scans
pub mod Places
pub mod Divides
pub mod Allocates
pub mod Frees
pub mod Returns
pub mod Changes
pub mod Resizes
pub mod Checks
pub mod Handler
pub mod Calls
mod Tests
use fdpp.Base.{
  ℕ, zero, suc, ◌+◌, ◌-◌, ◌*◌, ◌/◌, ◌%◌, Bool, true, false, ◌&&◌, ◌||◌, not, Option, none, some,
  ltb, leb, ◌==◌, if◌then◌else◌,
}
use fdpp.MemMgr.{Status, success, de_nomem, de_invldmcb, de_mcbdestry}

-- struct HMCB; the reserved bytes are never used.
pub record Hmcb : Type 0 where
  pub signature : ℕ
  pub owner : ℕ
  pub size : ℕ
  pub next : ℕ

abbrev pub Headers : Type 0
Headers = ℕ → Hmcb

unfoldable pub store : Headers → ℕ → Hmcb → Headers
store m a c x = if x == a then c else m x

abbrev pub hmcb_sig : ℕ
hmcb_sig = 0x534d

abbrev pub init_mcb : Hmcb
init_mcb = record { signature = hmcb_sig; owner = 0; size = 0; next = 0 }

abbrev pub first_hmcb : ℕ
first_hmcb = 0x10

-- nxtMCBsize, nxtMCBsizeTd
abbrev pub nxt_mcb_size : ℕ → ℕ → ℕ
nxt_mcb_size p size = (p + size + 16) % 0x1_0000

abbrev pub nxt_mcb_size_td : Headers → ℕ → ℕ → ℕ
nxt_mcb_size_td m p size = (p + (m p).size + 0x1_0000 - size) % 0x1_0000

abbrev pub hmcb_free : Hmcb → Bool
hmcb_free c = c.owner == 0

abbrev pub hmcb_valid : Hmcb → Bool
hmcb_valid c = c.signature == hmcb_sig

abbrev pub hmcb_last : Hmcb → Bool
hmcb_last c = c.next == 0

-- More than there are headers of 16 bytes.
abbrev pub rounds : ℕ
rounds = 0x1001

-- One round of the loop of joinMCBs: `p` takes in `q`, which is marked as "fake".
unfoldable pub take_in : Headers → ℕ → ℕ → Headers
take_in m p q =
    let m' =
      store m p
        (record (m p) { next = (m q).next; size = ((m p).size + ((m q).size + 16)) % 0x1_0000 }) in
    store m' q (record (m' q) { size = 0xffff })

-- joinMCBs
unfoldable pub join : ℕ → Headers → ℕ → Option (Status × Headers)
join zero m p = none
join (suc f) m p =
    let q = (m p).next in
    let rest = join f (take_in m p q) p in
    if hmcb_last (m p)
    then some (success, m)
    else if not (hmcb_free (m q))
    then some (success, m)
    else if not (hmcb_valid (m q))
    then some (de_mcbdestry, m)
    else rest

-- The loop of DosHMAAlloc: the block that is found, if any.
unfoldable pub find_block : ℕ → Headers → ℕ → ℕ → Option (Status × Option ℕ × Headers)
find_block zero m p size = none
find_block (suc f) m p size =
    if not (hmcb_valid (m p))
    then some (de_mcbdestry, none, m)
    else elim (if hmcb_free (m p) then join rounds m p else some (success, m)) [
      | none ↦ none
      | some (success, n) ↦ elim (hmcb_free (m p) && leb size (n p).size) [
        | true ↦ some (success, some p, n)
        | false ↦ elim (hmcb_last (n p)) [
          | true ↦ some (success, none, n)
          | false ↦ find_block f n (n p).next size
        ]
      ]
      | some (_, n) ↦ some (de_mcbdestry, none, n)
    ]

-- The rest of DosHMAAlloc: the block found is split, if it is larger; its header, and the memory.
-- A size of 0xfff0, at which the second header would be the first one, is not meant for a split.
unfoldable pub divide : Headers → ℕ → ℕ → Bool → ℕ × Headers
divide m found size topdown =
    let c = m found in
    let p = if topdown then nxt_mcb_size_td m found size else nxt_mcb_size found size in
    let rest = (c.size + 0x2_0000 - size - 16) % 0x1_0000 in
    let m₁ = store m p (record init_mcb { next = c.next; size = if topdown then size else rest }) in
    let m₂ =
      store m₁ found (record (m₁ found) { next = p; size = if topdown then rest else size }) in
    if size == c.size then (found, m) else (if topdown then p else found, m₂)

unfoldable pub own : Headers → ℕ → ℕ → Headers
own m p psp = store m p (record (m p) { owner = psp })

-- DosHMAAlloc; `*off` is set where the result has an offset.
unfoldable pub dos_hma_alloc : Bool → Headers → ℕ → Bool → ℕ → Option (Status × Option ℕ × Headers)
dos_hma_alloc claimed m size topdown psp =
    if not claimed then some (de_nomem, none, m) else elim (find_block rounds m first_hmcb size) [
      | none ↦ none
      | some (success, none, n) ↦ some (de_nomem, none, n)
      | some (success, some found, n) ↦
          let d = divide n found size topdown in
          some (success, some ((d.0 + 16) % 0x1_0000), own d.1 d.0 psp)
      | some (st, _, n) ↦ some (st, none, n)
    ]

-- DosHMAFree
unfoldable pub dos_hma_free : Bool → Headers → ℕ → Option (Status × Headers)
dos_hma_free claimed m off =
    let p = (off + 0xfff0) % 0x1_0000 in
    if not claimed
    then some (de_nomem, m)
    else if off == 0
    then some (de_invldmcb, m)
    else if not (hmcb_valid (m p))
    then some (de_invldmcb, m)
    else if hmcb_free (m p)
    then some (success, m)
    else join rounds (own m p 0) p

-- DosHMAChange behind the tests: growing and shrinking.
unfoldable pub hma_grow : Headers → ℕ → ℕ → Option (Status × Headers)
hma_grow m p size =
    if not (ltb (m p).size size) then some (success, m) else elim (join rounds m p) [
      | none ↦ none
      | some (success, n) ↦ some (if ltb (n p).size size then de_nomem else success, n)
      | some (st, n) ↦ some (st, n)
    ]

unfoldable pub hma_shrink : Headers → ℕ → ℕ → ℕ → Option (Status × Headers)
hma_shrink m p size psp =
    let q = nxt_mcb_size p size in
    let m₁ = store m q (record init_mcb {
      size = ((m p).size + 0x2_0000 - size - 16) % 0x1_0000;
      next = (m p).next;
    }) in
    let m₂ = store m₁ p (record (m₁ p) { size = size; next = q }) in
    if not (ltb size (m p).size) then some (success, own m p psp) else elim (join rounds m₂ q) [
      | none ↦ none
      | some (success, n) ↦ some (success, own n p psp)
      | some (st, n) ↦ some (st, n)
    ]

-- DosHMAChange. For a size of 0 it passes the offset of the header on to DosHMAFree.
unfoldable pub dos_hma_change : Bool → Headers → ℕ → ℕ → ℕ → Option (Status × Headers)
dos_hma_change claimed m off size psp =
    let p = (off + 0xfff0) % 0x1_0000 in
    if not claimed
    then some (de_nomem, m)
    else if size == 0
    then dos_hma_free claimed m p
    else if not (hmcb_valid (m p))
    then some (de_invldmcb, m)
    else elim (hma_grow m p size) [
      | none ↦ none
      | some (success, n) ↦ hma_shrink n p size psp
      | some (st, n) ↦ some (st, n)
    ]

-- DosHMACheck and DosHMAQuery: both loops go to the last header.
unfoldable pub walk : ℕ → Headers → ℕ → Option (Status × ℕ)
walk zero m p = none
walk (suc f) m p =
    let rest = walk f m (m p).next in
    if hmcb_last (m p)
    then some (success, p)
    else if not (hmcb_valid (m p))
    then some (de_mcbdestry, p)
    else rest

unfoldable pub dos_hma_check : Bool → Headers → Option Status
dos_hma_check claimed m =
    if not claimed
    then some success
    else elim (walk rounds m first_hmcb) [ none ↦ none | some (st, p) ↦ some st ]

-- `*off` and `*avail` are set where the result has them.
unfoldable pub dos_hma_query : Bool → Headers → Option (Status × Option (ℕ × ℕ))
dos_hma_query claimed m =
    if not claimed then some (de_nomem, none) else elim (walk rounds m first_hmcb) [
      | none ↦ none
      | some (success, p) ↦ some (success, some (p, (m p).size))
      | some (st, p) ↦ some (st, none)
    ]

-- The loop of FreeProcessHMA; the result of DosHMAFree is dropped.
unfoldable pub free_process_hma : ℕ → Headers → ℕ → ℕ → Option (Status × Headers)
free_process_hma zero m ps p = none
free_process_hma (suc f) m ps p =
    if not (hmcb_valid (m p))
    then some (de_mcbdestry, m)
    else elim (if (m p).owner == ps then dos_hma_free true m p else some (success, m)) [
      | none ↦ none
      | some (st, n) ↦ elim (hmcb_last (n p)) [
        | true ↦ some (success, n)
        | false ↦ free_process_hma f n ps (n p).next
      ]
    ]

-- HMAInitFirstMcb
unfoldable pub hma_init_first_mcb : Headers → ℕ → Headers
hma_init_first_mcb m off =
    let m₁ = store m off (record init_mcb { size = (0x2_0000 - off - 16) % 0x1_0000 }) in
    if ltb 0x20 off
    then store m₁ first_hmcb (record init_mcb { owner = 0xffff; size = off - 0x20; next = off })
    else m₁
