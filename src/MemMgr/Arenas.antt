-- ===== src/MemMgr/Arenas.antt =====
-- Intact arenas, and what DosMemAlloc gives back of one.
use fdpp.Base.{
  ℕ, ◌≤◌, ◌<◌, ◌≡◌, ◌≢◌, refl, sym, ap, ◌∙◌, ◌⊎◌, inl, inr, true, ◌&&◌, ◌||◌, not, none, some,
  arith, Bool-cases, ◌==◌, if◌then◌else◌,
}
use fdpp.MemMgr.{Mem, Mcb, success, de_nomem}
use fdpp.MemMgr.Alloc.{
  Arena, largest_mode, bits_u_uo, clear_u, fit, scanning, split, Allocation, umb_linked, start,
  finish,
}
use fdpp.MemMgr.Chain.{Chain, At, Evolves, Anywhere, Evolves-refl, At-le}
use fdpp.MemMgr.Placed.{Placed, Placed-after, split-Placed}
use fdpp.MemMgr.Seen.{Seen}

-- The arena is intact: its chain ends at `e`, and the UMB area, if it is linked in, begins with an
-- MCB of the chain that is in use.
pub record IsArena (a : Arena) (e : ℕ) : Type 0 where
  pub chain : Chain a.mem e a.first_mcb
  pub low : 0 < a.first_mcb
  pub high : e ≤ 0x1_0000
  pub root_at : umb_linked a ≡ true → At a.mem a.uppermem_root a.first_mcb
  pub root_used : umb_linked a ≡ true → (a.mem a.uppermem_root).m_psp ≢ 0

pub start-At :
    {a : Arena} {e : ℕ} (mode size : ℕ) → IsArena a e → At a.mem (start a mode size) a.first_mcb
unfolding start
start-At {a} mode size v =
    let tmpmode = if mode == largest_mode then a.mem_access_mode else mode in
    elim (Bool-cases (umb_linked a)) [
      | inr off ↦ rw off (At.here refl)
      | inl on ↦
          elim (Bool-cases ((not (mode == largest_mode) || size == 0xffff) && bits_u_uo tmpmode)) [
            | inl y ↦ rw (on, y) (v.root_at on)
            | inr n ↦ rw (on, n) (At.here refl)
          ]
    ]

-- Nothing has been seen when the scan starts.
pub start-Seen :
    {m : Mem} {e p : ℕ} (mode size : ℕ)
    → Chain m e p
    → Seen
        (fit mode)
        size
        m
        e
        p
        p
        (record { mem = m; found = none; biggest = none; phase = scanning })
start-Seen mode size c = record {
  evolves = Evolves-refl c;
  biggest = record {
    at = λ b q. absurd (cc);
    maximal = λ x f. absurd (omega (arith, f.below, At-le f.at));
  };
  fits = record {
    at = λ b q. absurd (cc);
    prefers = λ x f h. absurd (omega (arith, f.below, At-le f.at));
  };
  first = λ k g. refl;
}

-- What DosMemAlloc gives back of an intact arena. Only the memory of the arena changes.
pub data Allocated (a : Arena) (e size mode : ℕ) (r : Allocation) : Type 0 where
  placed :
      (x : ℕ)
      → r.status ≡ success
      → r.para ≡ some x
      → Placed a.mem r.arena.mem e a.first_mcb x a.cu_psp
      → (mode ≢ largest_mode → (r.arena.mem x).m_size ≡ size)
      → (mode ≡ largest_mode
          → (size ≤ (r.arena.mem x).m_size) × (r.asize ≡ some (r.arena.mem x).m_size))
      → Allocated a e size mode r
  refused :
      (n s : ℕ)
      → r.status ≡ de_nomem
      → r.para ≡ none
      → r.asize ≡ some n
      → Evolves Anywhere a.mem r.arena.mem e a.first_mcb
      → (0 < size → n < size)
      → (s ≡ start a mode size) ⊎ (s ≡ start a (clear_u mode) size)
      → ((x : ℕ) → At r.arena.mem x s → (r.arena.mem x).m_psp ≡ 0 → (r.arena.mem x).m_size ≤ n)
      → (((x : ℕ) × At r.arena.mem x s × ((r.arena.mem x).m_psp ≡ 0) × ((r.arena.mem x).m_size ≡ n))
          ⊎ ((n ≡ 0) × ((x : ℕ) → At r.arena.mem x s → (r.arena.mem x).m_psp ≢ 0)))
      → Allocated a e size mode r

-- The successful end, at a free block of the chain that is large enough.
pub finish-Allocated :
    {a : Arena} {e : ℕ} (size mode f : ℕ) (m : Mem)
    → IsArena a e
    → Evolves Anywhere a.mem m e a.first_mcb
    → At m f a.first_mcb
    → (m f).m_psp ≡ 0
    → size ≤ (m f).m_size
    → (finish mode size a m f).arena ≡ record a { mem = (finish mode size a m f).arena.mem }
      × Allocated a e size mode (finish mode size a m f)
unfolding finish
finish-Allocated {a} {e} size mode f m v ev at free large =
    let (p, exact, whole) = split-Placed ev.chain at free v.high a.cu_psp mode size (λ _. large) in
    (
      refl,
      Allocated.placed (split mode size m f).1 refl refl (Placed-after ev p) exact
          (λ h. (rw (whole h) large, rw (whole h) (ground arith))),
    )

pub IsArena-mem :
    {a : Arena} {e : ℕ} (m : Mem)
    → IsArena a e
    → Evolves Anywhere a.mem m e a.first_mcb
    → IsArena (record a { mem = m }) e
IsArena-mem {a} m v ev = record {
  chain = ev.chain;
  low = v.low;
  high = v.high;
  root_at = λ on. (ev.kept a.uppermem_root (v.root_at on) (v.root_used on) tt).0;
  root_used = λ on z.
      let k = ev.kept a.uppermem_root (v.root_at on) (v.root_used on) tt in
      v.root_used on (sym (ap (λ (c : Mcb). c.m_psp) k.1) ∙ z);
}
