-- ===== src/MemMgr/Checks.antt =====
-- DosMemCheck accepts an intact chain and finds a corrupt MCB.
use fdpp.Base.{ℕ, zero, suc, ◌+◌, ◌≤◌, ◌<◌, ◌≡◌, ◌≢◌, refl, ◌∙◌, some, arith, ==_false}
use fdpp.MemMgr.{Mem, success, de_mcbdestry, next_mcb, mcb_normal, mcb_last, fuel}
use fdpp.MemMgr.Ops.{dos_mem_check}
use fdpp.MemMgr.Chain.{Chain, At, At-le, Chain-lt, Tail, Tail-chain}
use fdpp.MemMgr.Join.{next_mcb_lem}

-- One round of DosMemCheck.
check_next :
    (f : ℕ) (m : Mem) (p b : ℕ)
    → (m p).m_type ≡ mcb_normal
    → next_mcb m p ≡ b
    → dos_mem_check (suc f) m p ≡ dos_mem_check f m b
unfolding dos_mem_check
check_next f m p b t q = rw (t, q) refl

check_intact :
    (f : ℕ) {m : Mem} {e p : ℕ}
    → Chain m e p
    → e ≤ 0x1_0000
    → e < f + p
    → dos_mem_check f m p ≡ some success
unfolding dos_mem_check
check_intact zero c high enough = absurd (omega (arith, Chain-lt c))
check_intact (suc f) {m} {e} {p} c high enough = elim (Tail-chain c) [
  | Tail.ended t l ↦ rw t refl
  | Tail.goes t r ↦
      check_next f m p (p + (m p).m_size + 1) t (next_mcb_lem p r high)
      ∙ check_intact f r high (omega arith)
]

check_corrupt :
    (f : ℕ) {m : Mem} {x p : ℕ}
    → At m x p
    → (m x).m_type ≢ mcb_normal
    → (m x).m_type ≢ mcb_last
    → x < 0x1_0000
    → x < f + p
    → dos_mem_check f m p ≡ some de_mcbdestry
unfolding dos_mem_check
check_corrupt zero r bad bad' high enough = absurd (omega (arith, At-le r))
check_corrupt (suc f) {m} {x} {p} (At.here q) bad bad' high enough =
    rw (← q) (rw (==_false _ _ bad', ==_false _ _ bad) refl)
check_corrupt (suc f) {m} {x} {p} (At.next b t l r) bad bad' high enough =
    check_next f m p b t (omega (arith, At-le r)) ∙ check_corrupt f r bad bad' high (omega arith)

-- DosMemCheck succeeds on an intact chain, that is before it goes on to check the HMA.
pub dos_mem_check-Chain :
    {m : Mem} {e a : ℕ} → Chain m e a → e ≤ 0x1_0000 → dos_mem_check fuel m a ≡ some success
dos_mem_check-Chain c high = check_intact fuel c high (omega (arith, Chain-lt c))

-- Where following the chain leads to an MCB that is neither an ordinary nor a last one, however
-- many blocks there are before it, DosMemCheck reports the corruption.
pub dos_mem_check_corrupt :
    {m : Mem} {x a : ℕ}
    → At m x a
    → (m x).m_type ≢ mcb_normal
    → (m x).m_type ≢ mcb_last
    → x < 0x1_0000
    → dos_mem_check fuel m a ≡ some de_mcbdestry
dos_mem_check_corrupt r bad bad' high = check_corrupt fuel r bad bad' high (omega (arith, At-le r))
