-- ===== src/MemMgr/Allocates.antt =====
-- DosMemAlloc as a whole: it succeeds with a block of its own, or says that there is none.
use mathlib.Core.Path.{subst}
use mathlib.Core.Bool.{false≢true}
use fdpp.Base.{
  ℕ, zero, suc, ◌≤◌, ◌<◌, ◌≡◌, ◌≢◌, refl, sym, ap, ◌∙◌, ◌⊎◌, inl, inr, Bool, true, false, ◌&&◌, not,
  Option, none, some, arith, Bool-cases, Option-cases, ◌==◌, ==_iff,
}
use fdpp.MemMgr.{Mem, de_nomem, fuel}
use fdpp.MemMgr.Alloc.{
  Arena, largest_mode, bit_u, clear_u, fit, Scan, scanning, stopped, scan, Allocation, size_of,
  umb_linked, start, pick, finish, search_again, dos_mem_alloc,
}
use fdpp.MemMgr.Chain.{
  At, Evolves, Anywhere, Chain-at, Evolves-trans, Evolves-At, At-le, At-below, At-trans,
}
use fdpp.MemMgr.Placed.{Placed-after}
use fdpp.MemMgr.Search.{Scanned, scan-Scanned}
use fdpp.MemMgr.Seen.{IsFree, Seen}
use fdpp.MemMgr.Picks.{pick-IsFree, size_of-le, size_of-is, pick-none}
use fdpp.MemMgr.Arenas.{IsArena, start-At, start-Seen, Allocated, finish-Allocated, IsArena-mem}

abbrev no_block : Mem → Option ℕ → Bool
no_block m none = true
no_block m (some x) = (m x).m_size == 0

abbrev retries : Arena → ℕ → Bool
retries a mode = not (mode == largest_mode) && bit_u mode && umb_linked a

abbrev fresh_scan : Mem → Scan
fresh_scan m = record { mem = m; found = none; biggest = none; phase = scanning }

-- The ways out of a search.
module _ (k : ℕ) (a : Arena) (size mode : ℕ) {t : Scan}
    (run : scan fuel (fit mode) size (fresh_scan a.mem) (start a mode size) ≡ some t) where
  search_stopped :
      (y : ℕ)
      → t.phase ≡ stopped
      → t.found ≡ some y
      → search_again (suc k) a size mode ≡ some (finish mode size a t.mem y)
  unfolding search_again
  search_stopped y st fd = ground arith

  search_found :
      (x : ℕ)
      → t.phase ≡ scanning
      → pick mode size t ≡ some x
      → (t.mem x).m_size ≢ 0
      → search_again (suc k) a size mode ≡ some (finish mode size a t.mem x)
  unfolding search_again
  search_found x st pk ne = ground arith

  search_retried :
      t.phase ≡ scanning
      → no_block t.mem (pick mode size t) ≡ true
      → retries a mode ≡ true
      → search_again (suc k) a size mode
        ≡ search_again k (record a { mem = t.mem }) size (clear_u mode)
  unfolding search_again
  search_retried st empty re = ground arith

  search_refused :
      t.phase ≡ scanning
      → no_block t.mem (pick mode size t) ≡ true
      → retries a mode ≡ false
      → search_again (suc k) a size mode
        ≡ some (record {
          arena = record a { mem = t.mem };
          status = de_nomem;
          para = none;
          asize = some (size_of t.mem t.biggest);
        })
  unfolding search_again
  search_refused st empty re = ground arith

-- What a search promises.
abbrev Answer : ℕ → Arena → ℕ → ℕ → ℕ → Type 0
Answer k a e size mode =
    (r : Allocation) × (search_again k a size mode ≡ some r)
    × (r.arena ≡ record a { mem = r.arena.mem })
    × Allocated a e size mode r

clear_u_idem : (mode : ℕ) → clear_u (clear_u mode) ≡ clear_u mode
clear_u_idem mode = ground arith

-- A search after the modes for upper memory were cleared speaks for the whole call.
retried :
    (k : ℕ) {a : Arena} {e size mode : ℕ} (m : Mem)
    → Evolves Anywhere a.mem m e a.first_mcb
    → mode ≢ largest_mode
    → bit_u mode ≡ true
    → Answer k (record a { mem = m }) e size (clear_u mode)
    → (r : Allocation) × (search_again k (record a { mem = m }) size (clear_u mode) ≡ some r)
      × (r.arena ≡ record a { mem = r.arena.mem })
      × Allocated a e size mode r
unfolding start
retried k {a} {e} {size} {mode} m ev ne u (r, run, rest, Allocated.placed x st pa p exact whole) = (
  r,
  run,
  rest,
  Allocated.placed x st pa (Placed-after ev p) (λ _. exact (ground arith)) (λ h. absurd (ne h)),
)
retried k {a} {e} {size} {mode} m ev ne u
      (r, run, rest, Allocated.refused n s st pa size_is w small from max is) =
    (
      r,
      run,
      rest,
      Allocated.refused n s st pa size_is (Evolves-trans ev w) small (inr (whence from)) max is,
    )
  where
    whence :
        (s ≡ start a (clear_u mode) size) ⊎ (s ≡ start a (clear_u (clear_u mode)) size)
        → s ≡ start a (clear_u mode) size
    whence (inl q) = q
    whence (inr q) = q ∙ ap (λ z. start a z size) (clear_u_idem mode)

-- The rest of a search, once the chain has been scanned.
module _ (k : ℕ) {a : Arena} {e : ℕ} (size mode : ℕ) (v : IsArena a e) (t : Scan)
    (run : scan fuel (fit mode) size (fresh_scan a.mem) (start a mode size) ≡ some t)
    (w : Scanned (fit mode) size a.mem e (start a mode size) t) where
  changes : Evolves Anywhere a.mem t.mem e a.first_mcb
  changes = Evolves-At (start-At mode size v) w.seen.evolves

  start_after : At t.mem (start a mode size) a.first_mcb
  start_after = At-below (start-At mode size v) λ y h. w.seen.evolves.frame y (inl h)

  take_at :
      (y n : ℕ)
      → IsFree t.mem (start a mode size) n y × (size ≤ (t.mem y).m_size)
      → search_again (suc k) a size mode ≡ some (finish mode size a t.mem y)
      → Answer (suc k) a e size mode
  take_at y n (f, large) ran =
      let r =
        finish-Allocated size mode y t.mem v changes (At-trans f.at start_after) f.free large in
      (finish mode size a t.mem y, ran, r.0, r.1)

  refuse :
      t.phase ≡ scanning
      → Seen (fit mode) size a.mem e (start a mode size) e t
      → no_block t.mem (pick mode size t) ≡ true
      → retries a mode ≡ false
      → Answer (suc k) a e size mode
  refuse st seen empty re = (
    _,
    search_refused k a size mode run st empty re,
    refl,
    Allocated.refused (size_of t.mem t.biggest) (start a mode size) refl refl refl changes
        (λ pos. elim (Option-cases (pick mode size t)) [
          | inl z ↦ pick-none mode seen z pos
          | inr (x, q) ↦
              let (f, large) = pick-IsFree mode seen x q in
              absurd (ground (arith, subst (λ o. no_block t.mem o ≡ true) q empty))
        ])
        (inl refl) (size_of-le mode seen) (size_of-is mode seen),
  )

  search_end :
      t.phase ≡ scanning
      → Seen (fit mode) size a.mem e (start a mode size) e t
      → (retries a mode ≡ true → Answer k (record a { mem = t.mem }) e size (clear_u mode))
      → Answer (suc k) a e size mode
  search_end st seen again = elim (Bool-cases (no_block t.mem (pick mode size t))) [
    | inl empty ↦ elim (Bool-cases (retries a mode)) [
      | inr re ↦ refuse st seen empty re
      | inl re ↦
          let (r, ran, same, al) =
            retried k t.mem changes (ground arith) (ground arith) (again re) in
          (r, search_retried k a size mode run st empty re ∙ ran, same, al)
    ]
    | inr full ↦ elim (Option-cases (pick mode size t)) [
      | inl z ↦ absurd (false≢true (sym full ∙ subst (λ o. no_block t.mem o ≡ true) (sym z) refl))
      | inr (x, q) ↦
          let ne : (t.mem x).m_size ≢ 0 = λ z.
            false≢true
              (sym full ∙ subst (λ o. no_block t.mem o ≡ true) (sym q) ((==_iff _ 0).1 z)) in
          take_at x e (pick-IsFree mode seen x q) (search_found k a size mode run x st q ne)
    ]
  ]

  search_step :
      (retries a mode ≡ true → Answer k (record a { mem = t.mem }) e size (clear_u mode))
      → Answer (suc k) a e size mode
  search_step again = elim w.goes [
    | inr (st, ff, y, fd, en) ↦
        take_at y w.end (w.seen.fits.at y fd) (search_stopped k a size mode run y st fd)
    | inl (st, en) ↦
        search_end st (subst (λ n. Seen (fit mode) size a.mem e (start a mode size) n t) en w.seen)
          again
  ]

-- A search succeeds or refuses; it does not run out of fuel.
search_again-Allocated :
    (k : ℕ) {a : Arena} {e : ℕ} (size mode : ℕ)
    → IsArena a e
    → 0 < k
    → (bit_u mode ≡ true → 1 < k)
    → Answer k a e size mode
search_again-Allocated zero size mode v pos two = absurd (omega arith)
search_again-Allocated (suc k) {a} {e} size mode v pos two =
    let at = start-At mode size v in
    let low : 0 < start a mode size = omega (arith, At-le at, v.low) in
    let (t, run, w) =
      scan-Scanned fuel {s = fresh_scan a.mem} v.high low
        (start-Seen mode size (Chain-at v.chain at)) (At.here refl) refl (omega (arith, v.high)) in
    search_step k size mode v t run w λ re.
      search_again-Allocated k size (clear_u mode)
        (IsArena-mem t.mem v (changes k size mode v t run w))
        (let u : bit_u mode ≡ true = ground (arith, re) in omega (arith, two u))
        (λ h. absurd (ground arith))

-- DosMemAlloc on an intact arena ends, and changes only the memory of the arena. It succeeds: the
-- block returned belongs to the current process, no block at its place was in use before, it has
-- the size requested (for LARGEST, at least that and reported), and every other block in use is
-- kept as it was and none is added. Or it refuses with DE_NOMEM: nothing in use changes, and
-- `*asize` is the size of the largest free block from the start of the search on, or 0 if there is
-- none, which is less than what was requested, if that was not 0.
pub dos_mem_alloc-Allocated :
    (a : Arena) (e size mode : ℕ)
    → IsArena a e
    → (r : Allocation) × (dos_mem_alloc a size mode ≡ some r)
      × (r.arena ≡ record a { mem = r.arena.mem })
      × Allocated a e size mode r
unfolding dos_mem_alloc
dos_mem_alloc-Allocated a e size mode v =
    search_again-Allocated 2 size mode v (omega arith) (λ _. omega arith)
