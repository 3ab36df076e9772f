-- ===== src/MemMgr/Search.antt =====
-- The scan of DosMemAlloc: it changes nothing in use, and finds the block that the mode prefers.
use mathlib.Core.Path.{subst}
use fdpp.Base.{
  ℕ, zero, suc, ◌+◌, ◌≤◌, ◌<◌, ◌≡◌, refl, sym, ◌∙◌, ◌⊎◌, inl, inr, none, some, ℕ_discrete, arith,
}
use fdpp.MemMgr.{Mem, mcb_normal, mcb_last, next_mcb, fuel}
use fdpp.MemMgr.Alloc.{Fit, first_fit, scanning, stopped, Scan, consider, visit, scan}
use fdpp.MemMgr.Chain.{
  Chain, At, Anywhere, At-le, At-below, Chain-lt, Chain-at, At-step, Tail, Tail-chain, Evolves-refl,
}
use fdpp.MemMgr.Join.{Chain-valid, next_mcb_lem, Joined, join_mcbs-Joined}
use fdpp.MemMgr.Seen.{Seen, Seen-carry, Seen-used}
use fdpp.MemMgr.Consider.{consider-Seen, Goes, consider-Goes}

-- What a visit of the block at `p` does to a scan of a chain that is intact.
record Visited (r : Fit) (size : ℕ) (m₀ : Mem) (e a p : ℕ) (t : Scan) : Type 0 where
  at : At t.mem p a
  seen : Seen r size m₀ e a (p + (t.mem p).m_size + 1) t
  goes : Goes r p t

considered :
    {r : Fit} {size : ℕ} {m₀ : Mem} {e a : ℕ} {s : Scan} {p : ℕ} (m : Mem)
    → Seen r size m₀ e a p s
    → At s.mem p a
    → s.phase ≡ scanning
    → (s.mem p).m_psp ≡ 0
    → Joined Anywhere s.mem e p m
    → Visited r size m₀ e a p (consider r size (record s { mem = m }) p)
considered {r} {size} {m₀} {e} {a} {s} {p} m v at go free j =
    let s' = record s { mem = m } in
    let t = consider r size s' p in
    let at' = At-below at (λ y h. j.evolves.frame y (inl h)) in
    let seen = consider-Seen (Seen-carry v at j.evolves) at' (j.owner ∙ free) go in
    let g = consider-Goes r size s' p go in
    record {
      at = subst (λ z. At z p a) (sym g.0) at';
      seen = subst (λ (z : Mem). Seen r size m₀ e a (p + (z p).m_size + 1) t) (sym g.0) seen;
      goes = g.1;
    }

visit_lem :
    {r : Fit} {size : ℕ} {m₀ : Mem} {e a : ℕ} {s : Scan} {p : ℕ}
    → e ≤ 0x1_0000
    → 0 < p
    → Seen r size m₀ e a p s
    → At s.mem p a
    → s.phase ≡ scanning
    → (t : Scan) × (visit r size s p ≡ some t) × Visited r size m₀ e a p t
unfolding visit
visit_lem {r} {size} {m₀} {e} {a} {s} {p} high low v at go =
    let c = Chain-at v.evolves.chain at in
    let ok = Chain-valid c low high in
    elim (ℕ_discrete (s.mem p).m_psp 0) [
      | no used ↦ (s, ground arith, record { at = at; seen = Seen-used v at used; goes = inl go })
      | yes free ↦
          let (m, run, j) =
            join_mcbs-Joined {S = Anywhere} fuel s.mem p e high low c (omega arith)
              (λ u _. u free) in
          (
            consider r size (record s { mem = m }) p,
            ground (arith, run),
            considered m v at go free j,
          )
    ]

-- How the scan of an intact chain ends: all of it seen, or, for FIRST_FIT, stopped at the block found.
pub record Scanned (r : Fit) (size : ℕ) (m₀ : Mem) (e a : ℕ) (t : Scan) : Type 0 where
  pub end : ℕ
  pub seen : Seen r size m₀ e a end t
  pub goes :
      ((t.phase ≡ scanning) × (end ≡ e))
      ⊎ ((t.phase ≡ stopped)
          × (r ≡ first_fit)
          × (y : ℕ) × (t.found ≡ some y)
          × (end ≡ y + (t.mem y).m_size + 1))

-- One round of the scan.
module _ (f : ℕ) (r : Fit) (size : ℕ) (s t : Scan) (p : ℕ) (run : visit r size s p ≡ some t) where
  scan_stop : t.phase ≡ stopped → scan (suc f) r size s p ≡ some t
  unfolding scan
  scan_stop st = ground arith

  scan_last : t.phase ≡ scanning → (t.mem p).m_type ≡ mcb_last → scan (suc f) r size s p ≡ some t
  unfolding scan
  scan_last go k = ground arith

  scan_next :
      t.phase ≡ scanning
      → (t.mem p).m_type ≡ mcb_normal
      → scan (suc f) r size s p ≡ scan f r size t (next_mcb t.mem p)
  unfolding scan
  scan_next go k = ground arith

pub scan-Scanned :
    {r : Fit} {size : ℕ} {m₀ : Mem} {e a : ℕ} (f : ℕ) {s : Scan} {p : ℕ}
    → e ≤ 0x1_0000
    → 0 < p
    → Seen r size m₀ e a p s
    → At s.mem p a
    → s.phase ≡ scanning
    → e < f + p
    → (t : Scan) × (scan f r size s p ≡ some t) × Scanned r size m₀ e a t
scan-Scanned zero high low v at go enough =
    absurd (omega (arith, Chain-lt (Chain-at v.evolves.chain at)))
scan-Scanned {r} {size} {m₀} {e} {a} (suc f) {s} {p} high low v at go enough =
    let (t, run, w) = visit_lem high low v at go in
    elim w.goes [
      | inr (st, fd, ff) ↦ (
        t,
        scan_stop f r size s t p run st,
        record { end = p + (t.mem p).m_size + 1; seen = w.seen; goes = inr (st, ff, p, fd, refl) },
      )
      | inl g ↦ elim (Tail-chain (Chain-at w.seen.evolves.chain w.at)) [
        | Tail.ended k l ↦ (
          t,
          scan_last f r size s t p run g k,
          record { end = p + (t.mem p).m_size + 1; seen = w.seen; goes = inl (g, l) },
        )
        | Tail.goes k c ↦
            let rest : (u : Scan) × (scan f r size t (p + (t.mem p).m_size + 1) ≡ some u)
                × Scanned r size m₀ e a u =
              scan-Scanned f high (omega arith) w.seen (At-step w.at k) g (omega arith) in
            (rest.0, scan_next f r size s t p run g k ∙ rw (next_mcb_lem p c high) rest.1, rest.2)
      ]
    ]

-- The scan of an intact chain from its start ends, and changes nothing in use. It has seen all of
-- the chain or, for FIRST_FIT only, all up to the end of the block found, at which it has stopped. Of what it has seen, the block found is free, large
-- enough, and the one that the mode prefers (the last, the smallest or the first); none is found
-- only if none was large enough; `biggest` is the largest free block.
pub scan-prefers :
    (r : Fit) (size : ℕ) {m : Mem} {e p : ℕ}
    → Chain m e p
    → 0 < p
    → e ≤ 0x1_0000
    → let s : Scan = record { mem = m; found = none; biggest = none; phase = scanning } in
      (t : Scan) × (scan fuel r size s p ≡ some t) × Scanned r size m e p t
scan-prefers r size {m} {e} {p} c low high =
    scan-Scanned fuel high low
      (record {
        evolves = Evolves-refl c;
        biggest = record {
          at = λ b q. absurd (cc);
          maximal = λ x f. absurd (omega (arith, f.below, At-le f.at));
        };
        fits = record {
          at = λ b q. absurd (cc);
          prefers = λ x f h. absurd (omega (arith, f.below, At-le f.at));
        };
        first = λ k g. refl;
      })
      (At.here refl) refl (omega (arith, Chain-lt c))
