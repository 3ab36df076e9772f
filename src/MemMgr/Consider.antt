-- ===== src/MemMgr/Consider.antt =====
-- One free block in the scan of DosMemAlloc.
use mathlib.Core.Path.{subst}
use fdpp.Base.{
  ℕ, ◌+◌, ◌≤◌, ◌≡◌, refl, ◌⊎◌, inl, inr, true, false, Option, none, some, arith, Bool-cases, leb,
  if◌then◌else◌, leb→le,
}
use fdpp.MemMgr.{Mem}
use fdpp.MemMgr.Alloc.{
  Fit, last_fit, largest, best_fit, first_fit, scanning, stopped, Scan, none_or_smaller,
  none_or_larger, choose, consider,
}
use fdpp.MemMgr.Chain.{At, Evolves, Anywhere}
use fdpp.MemMgr.Seen.{
  Prefers, Biggest, Fits, Seen, Biggest-skip, Fits-skip, Biggest-take, Fits-take,
}

better :
    (m : Mem) (o : Option ℕ) (p x : ℕ)
    → none_or_larger m o (m p).m_size ≡ true
    → Prefers best_fit m o x
    → Prefers best_fit m (some p) x
better m none p x h k = absurd k
better m (some y) p x h k = ground arith

not_better :
    (m : Mem) (o : Option ℕ) (p : ℕ)
    → none_or_larger m o (m p).m_size ≡ false
    → Prefers best_fit m o p
not_better m none p h = absurd (cc)
not_better m (some y) p h = ground arith

-- A free block at `p` is taken into account as the mode says.
module _ {size : ℕ} {m₀ : Mem} {e a : ℕ} {s : Scan} {p n : ℕ} (at : At s.mem p a)
    (end : n ≡ p + (s.mem p).m_size + 1) (free : (s.mem p).m_psp ≡ 0)
    (ev : Evolves Anywhere m₀ s.mem e a) (big : Biggest s.mem a n s.biggest)
    (go : s.phase ≡ scanning) where
  small-Seen :
      (r : Fit)
      → Fits r size s.mem a p s.found
      → (r ≡ first_fit → s.phase ≡ scanning → s.found ≡ none)
      → (size ≤ (s.mem p).m_size → Prefers r s.mem s.found p)
      → Seen r size m₀ e a n s
  small-Seen r fits first skip = record {
    evolves = ev;
    biggest = big;
    fits = Fits-skip at end (λ _ h. skip h) fits;
    first = first;
  }

  choose-Seen :
      (r : Fit)
      → Fits r size s.mem a p s.found
      → (r ≡ first_fit → s.phase ≡ scanning → s.found ≡ none)
      → size ≤ (s.mem p).m_size
      → Seen r size m₀ e a n (choose r s p)
  unfolding choose
  choose-Seen last_fit fits first large = record {
    evolves = ev;
    biggest = big;
    fits = Fits-take at end free large (λ x f h. omega (arith, f.below)) (omega arith) fits;
    first = λ k. absurd (cc);
  }
  choose-Seen largest fits first large = small-Seen largest fits first λ h. tt
  choose-Seen best_fit fits first large =
      elim (Bool-cases (none_or_larger s.mem s.found (s.mem p).m_size)) [
        | inl y ↦ rw y record {
          evolves = ev;
          biggest = big;
          fits =
              Fits-take at end free large (λ x f h. better s.mem s.found p x y (fits.prefers x f h))
                (omega arith) fits;
          first = λ k. absurd (cc);
        }
        | inr z ↦ rw z (small-Seen best_fit fits first λ h. not_better s.mem s.found p z)
      ]
  choose-Seen first_fit fits first large = record {
    evolves = ev;
    biggest = big;
    fits =
        Fits-take at end free large
          (λ x f h.
            absurd (subst (λ o. Prefers first_fit s.mem o x) (first refl go) (fits.prefers x f h)))
          (omega arith) fits;
    first = λ k z. absurd (cc);
  }

  fit-Seen :
      (r : Fit)
      → Fits r size s.mem a p s.found
      → (r ≡ first_fit → s.phase ≡ scanning → s.found ≡ none)
      → Seen r size m₀ e a n (if leb size (s.mem p).m_size then choose r s p else s)
  fit-Seen r fits first = elim (Bool-cases (leb size (s.mem p).m_size)) [
    | inl y ↦ rw y (choose-Seen r fits first (leb→le _ _ y))
    | inr z ↦ rw z (small-Seen r fits first λ h. absurd (ground arith))
  ]

pub consider-Seen :
    {r : Fit} {size : ℕ} {m₀ : Mem} {e a : ℕ} {s : Scan} {p : ℕ}
    → Seen r size m₀ e a p s
    → At s.mem p a
    → (s.mem p).m_psp ≡ 0
    → s.phase ≡ scanning
    → Seen r size m₀ e a (p + (s.mem p).m_size + 1) (consider r size s p)
unfolding consider
consider-Seen {r} {s} {p} v at free go =
    elim (Bool-cases (none_or_smaller s.mem s.biggest (s.mem p).m_size)) [
      | inl y ↦ rw y (
          fit-Seen {s = record s { biggest = some p }} at refl free v.evolves
            (Biggest-take at refl free y v.biggest) go r v.fits v.first)
      | inr z ↦ rw z (
          fit-Seen {s = s} at refl free v.evolves (Biggest-skip at refl (λ _. z) v.biggest) go r
            v.fits v.first)
    ]

-- A visit goes on or, for FIRST_FIT, stops at a block just found; it leaves memory to joinMCBs.
abbrev pub Goes : Fit → ℕ → Scan → Type 0
Goes r p t = (t.phase ≡ scanning) ⊎ ((t.phase ≡ stopped) × (t.found ≡ some p) × (r ≡ first_fit))

choose-Goes :
    (r : Fit) (s : Scan) (p : ℕ)
    → s.phase ≡ scanning
    → ((choose r s p).mem ≡ s.mem) × Goes r p (choose r s p)
unfolding choose
choose-Goes last_fit s p go = (refl, inl go)
choose-Goes largest s p go = (refl, inl go)
choose-Goes best_fit s p go = elim (Bool-cases (none_or_larger s.mem s.found (s.mem p).m_size)) [
  | inl y ↦ rw y (refl, inl go)
  | inr z ↦ rw z (refl, inl go)
]
choose-Goes first_fit s p go = (refl, inr (refl, refl, refl))

fit-Goes :
    (r : Fit) (size : ℕ) (s : Scan) (p : ℕ)
    → s.phase ≡ scanning
    → let t : Scan = if leb size (s.mem p).m_size then choose r s p else s in
      (t.mem ≡ s.mem) × Goes r p t
fit-Goes r size s p go = elim (Bool-cases (leb size (s.mem p).m_size)) [
  | inl y ↦ rw y (choose-Goes r s p go)
  | inr z ↦ rw z (refl, inl go)
]

pub consider-Goes :
    (r : Fit) (size : ℕ) (s : Scan) (p : ℕ)
    → s.phase ≡ scanning
    → ((consider r size s p).mem ≡ s.mem) × Goes r p (consider r size s p)
unfolding consider
consider-Goes r size s p go = elim (Bool-cases (none_or_smaller s.mem s.biggest (s.mem p).m_size)) [
  | inl y ↦ rw y (fit-Goes r size (record s { biggest = some p }) p go)
  | inr z ↦ rw z (fit-Goes r size s p go)
]
