-- ===== src/MemMgr/Ops.antt =====
-- kernel/memmgr.c: DosMemLargest, DosMemFree, DosMemChange, DosMemCheck, FreeProcessMem and
-- DosUmbLink.
use fdpp.Base.{
  ℕ, zero, suc, ◌+◌, ◌-◌, ◌%◌, Bool, true, false, ◌&&◌, ◌||◌, not, Option, none, some, replicate,
  ltb, ◌==◌, if◌then◌else◌,
}
use fdpp.MemMgr.{
  Mem, write, mcb_normal, mcb_last, free_psp, Status, success, de_nomem, de_invldmcb, de_mcbdestry,
  next_mcb, next_mcb_size, mcb_free, mcb_freeable, mcb_valid, fuel, join_mcbs,
}
use fdpp.MemMgr.Alloc.{Arena, largest_mode, bit_u, clear_u, dos_mem_alloc}

-- `*asize` behind a call that was given the variable's value.
abbrev stored : Option ℕ → ℕ → ℕ
stored none n = n
stored (some k) n = k

abbrev largest_status : ℕ → Status
largest_status n = if n == 0 then de_nomem else success

-- DosMemLargest: the arena, the status and `*size`. (`mem_access_mode |= 0x80` sets a bit that the
-- line above has cleared.)
unfoldable pub dos_mem_largest : Arena → Option (Arena × Status × ℕ)
dos_mem_largest a = elim (dos_mem_alloc a 0xffff largest_mode) [
  | none ↦ none
  | some r ↦
      let size = stored r.asize 0 in
      let b = r.arena in
      if not (bit_u b.mem_access_mode)
      then some (b, largest_status size, size)
      else elim (dos_mem_alloc (record b { mem_access_mode = clear_u b.mem_access_mode }) 0xffff
          largest_mode) [
            | none ↦ none
            | some s ↦
                let low = stored s.asize 0 in
                let c = record s.arena { mem_access_mode = s.arena.mem_access_mode + 0x80 } in
                let most = if ltb size low then low else size in some (c, largest_status most, most)
          ]
]

-- DosMemFree; `para` is the segment of the MCB.
unfoldable pub dos_mem_free : Mem → ℕ → Mem × Status
unfolding write
dos_mem_free m para =
    if para == 0
    then (m, de_invldmcb)
    else if not (mcb_freeable (m para))
    then (m, de_invldmcb)
    else if mcb_free (m para)
    then (m, success)
    else (write m para (record (m para) { m_psp = free_psp; m_name = replicate 8 0 }), success)

-- DosMemChange behind the test for a corrupt MCB, in two parts: growing, and the rest. `*maxSize` is
-- set where the result has a size.
unfoldable pub grow : Mem → ℕ → ℕ → Option (Mem × Status × Option ℕ)
grow m p size =
    if not (ltb (m p).m_size size) then some (m, success, none) else elim (join_mcbs fuel m p) [
      | none ↦ none
      | some (success, m') ↦
          if ltb (m' p).m_size size
          then some (m', de_nomem, some (m' p).m_size)
          else some (m', success, none)
      | some (_, m') ↦ some (m', de_mcbdestry, none)
    ]

-- The new free block `q` behind the first `size` paragraphs of `p`.
unfoldable pub cut : Mem → ℕ → ℕ → Mem
unfolding write
cut m p size =
    let q = next_mcb_size p size in
    let m₁ = write m q (record (m q) {
      m_size = ((m p).m_size + 0x20000 - size - 1) % 0x10000;
      m_type = (m p).m_type;
      m_psp = free_psp;
    }) in
    write m₁ p (record (m₁ p) { m_size = size; m_type = mcb_normal })

unfoldable pub shrink : Mem → ℕ → ℕ → ℕ → Option (Mem × Status)
unfolding write
shrink m p size psp =
    let own = λ (n : Mem). write n p (record (n p) { m_psp = psp }) in
    if not (ltb size (m p).m_size)
    then some (own m, success)
    else elim (join_mcbs fuel (cut m p size) (next_mcb_size p size)) [
      | none ↦ none
      | some (success, m') ↦ some (own m', success)
      | some (_, m') ↦ some (m', de_mcbdestry)
    ]

-- DosMemChange; `para` is the segment behind the MCB.
unfoldable pub dos_mem_change : Mem → ℕ → ℕ → ℕ → Option (Mem × Status × Option ℕ)
dos_mem_change m psp para size =
    let p = (para + 0xffff) % 0x10000 in
    if not (mcb_valid (m p)) then some (m, de_invldmcb, none) else elim (grow m p size) [
      | none ↦ none
      | some (m', success, _) ↦ elim (shrink m' p size psp) [
        | none ↦ none
        | some (n, st) ↦ some (n, st, none)
      ]
      | some (m', st, max) ↦ some (m', st, max)
    ]

-- The loop of DosMemCheck.
unfoldable pub dos_mem_check : ℕ → Mem → ℕ → Option Status
dos_mem_check zero m p = none
dos_mem_check (suc f) m p =
    let rest = dos_mem_check f m (next_mcb m p) in
    if (m p).m_type == mcb_last
    then some success
    else if not ((m p).m_type == mcb_normal)
    then some de_mcbdestry
    else rest

-- The loop of FreeProcessMem.
unfoldable pub free_process : ℕ → Mem → ℕ → ℕ → Option (Mem × Status)
free_process zero m ps p = none
free_process (suc f) m ps p =
    let m' = if (m p).m_psp == ps then (dos_mem_free m p).0 else m in
    let rest = free_process f m' ps (next_mcb m' p) in
    if not (mcb_valid (m p))
    then some (m, de_mcbdestry)
    else if (m' p).m_type == mcb_last
    then some (m', success)
    else rest

-- The loop of DosUmbLink: `q` and `p` where it ends, and whether it ended by its condition.
unfoldable pub umb_walk : ℕ → Mem → ℕ → Option ℕ → ℕ → Option (Bool × Option ℕ × ℕ)
umb_walk zero m root q p = none
umb_walk (suc f) m root q p =
    let rest = umb_walk f m root (some p) (next_mcb m p) in
    if p == root || (m p).m_type == mcb_last
    then some (true, q, p)
    else if not (mcb_valid (m p))
    then some (false, q, p)
    else rest

abbrev set_type : Mem → ℕ → ℕ → Mem
set_type m p t = write m p (record (m p) { m_type = t })

-- DosUmbLink; `none` where it would read through a NULL `q`, and where the fuel runs out.
unfoldable pub dos_umb_link : Arena → ℕ → Option Arena
unfolding write
dos_umb_link a n =
    if a.uppermem_root == 0xffff
    then some a
    else if ltb 1 n || a.uppermem_link % 2 == n
    then some a
    else elim (umb_walk fuel a.mem a.uppermem_root none a.first_mcb) [
      | none ↦ none
      | some (false, _, _) ↦ some a
      | some (true, q, p) ↦
          if n == 0
          then elim q [
            | none ↦ none
            | some q ↦
                let m =
                  if (a.mem q).m_type == mcb_normal && p == a.uppermem_root
                  then set_type a.mem q mcb_last
                  else a.mem in
                some (record a { mem = m; uppermem_link = n })
          ]
          else if (a.mem p).m_type == mcb_last
          then some (record a { mem = set_type a.mem p mcb_normal; uppermem_link = n })
          else some a
    ]

-- FreeProcessMem up to the call of FreeProcessHMA. After an error UMBs stay linked.
unfoldable pub free_process_mem : Arena → ℕ → Option (Arena × Status)
free_process_mem a ps = elim (dos_umb_link a 1) [
  | none ↦ none
  | some b ↦ elim (free_process fuel b.mem ps b.first_mcb) [
    | none ↦ none
    | some (m, success) ↦ elim (dos_umb_link (record b { mem = m }) (a.uppermem_link % 2)) [
      | none ↦ none
      | some c ↦ some (c, success)
    ]
    | some (m, st) ↦ some (record b { mem = m }, st)
  ]
]
