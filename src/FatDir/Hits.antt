-- ===== src/FatDir/Hits.antt =====
-- What entries on the disk dos_findnext accepts.
use mathlib.Core.Path.{subst}
use mathlib.Core.Option.{some-injective}
use mathlib.Core.Bool.{false≢true}
use fdpp.Base.{
  ℕ, zero, suc, ◌/◌, ◌%◌, ◌<◌, ◌≡◌, ◌≢◌, refl, sym, ◌∙◌, ◌⊎◌, inl, inr, Bool, not, true, false,
  some, List, [], ◌∷◌, ◌==◌, if◌then◌else◌, get_elem?, get_or, Bool-cases, ℕ_discrete, arith,
  ==_iff, ==_false,
}
use fdpp.FatDir.{
  Dirent, Directory, dirent_size, dir_sector, swap_deleted_rd, Dmatch, fcmp_wild, accepts,
}
use fdpp.FatDir.Attributes.{
  IsLabelSearch, Within, and_true, negated, attr_test-AttrFits, AttrFits-attr_test,
}

-- The bytes of the entry on the disk are `e`.
pub record OnDisk (d : Directory) (k : ℕ) (e : Dirent) : Type 0 where
  pub small : k < 65535
  pub at_sector : ℕ
  pub entries : ℕ → Dirent
  pub sector_is : dir_sector d k ≡ some at_sector
  pub block_is : d.getblock at_sector ≡ some entries
  pub entry_is : e ≡ entries (k % (d.dpb_secsize / dirent_size))

-- The first byte of an entry: 0 behind the last one, and 0xe5 if it is deleted.
abbrev pub first_byte : Dirent → ℕ
first_byte e = get_or e.dir_name 0 0

-- The name that an entry stands for: a name that begins with 0xe5 is stored with 0x05 in its place.
abbrev pub stored_name : List ℕ → List ℕ
stored_name [] = []
stored_name (c ∷ s) = (if c == 0x05 then 0xe5 else c) ∷ s

-- The first eleven characters are those of the pattern, or match a question mark.
abbrev pub Fits : List ℕ → List ℕ → ℕ → Type 0
Fits pat name n =
    (k a b : ℕ)
    → k < n
    → get_elem? pat k ≡ some a
    → get_elem? name k ≡ some b
    → (a ≡ b'?') ⊎ (a ≡ b)

-- An entry that a search is for: not deleted, not a part of a long name, with a name that fits, and a volume
-- label, if labels are searched for, or else hidden, system, a label or a directory only as searched for.
pub record IsHit (m : Dmatch) (e : Dirent) : Type 0 where
  pub live : first_byte e ≢ 0xe5
  pub short : e.dir_attrib % 0x10 ≢ 0x0f
  pub name : Fits m.dm_name_pat (stored_name e.dir_name) 11
  pub label : IsLabelSearch m.dm_attr_srch → e.dir_attrib / 0x08 % 2 ≡ 1
  pub others :
      ¬ IsLabelSearch m.dm_attr_srch
      → Within m.dm_attr_srch e.dir_attrib 0x02
        × Within m.dm_attr_srch e.dir_attrib 0x04
        × Within m.dm_attr_srch e.dir_attrib 0x08
        × Within m.dm_attr_srch e.dir_attrib 0x10

fcmp_wild-Fits : (n : ℕ) (s t : List ℕ) → fcmp_wild s t n ≡ true → Fits s t n
unfolding fcmp_wild
fcmp_wild-Fits zero s t h k a b lt p q = absurd (omega arith)
fcmp_wild-Fits (suc n) [] t h k a b lt p q = absurd (cc)
fcmp_wild-Fits (suc n) (x ∷ s) [] h k a b lt p q = absurd (cc)
fcmp_wild-Fits (suc n) (x ∷ s) (y ∷ t) h zero a b lt p q = elim (Bool-cases (x == b'?')) [
  | inl y' ↦ inl (sym (some-injective _ _ p) ∙ ground (arith, y'))
  | inr n' ↦ inr (sym (some-injective _ _ p) ∙ ground (arith, n', h) ∙ some-injective _ _ q)
]
fcmp_wild-Fits (suc n) (x ∷ s) (y ∷ t) h (suc k) a b lt p q =
    fcmp_wild-Fits n s t (ground arith) k a b (omega arith) p q

Fits-fcmp_wild : (n : ℕ) (s t : List ℕ) → Fits s t n → fcmp_wild s t n ≡ true
unfolding fcmp_wild
Fits-fcmp_wild zero s t f = refl
Fits-fcmp_wild (suc n) [] t f = refl
Fits-fcmp_wild (suc n) (x ∷ s) [] f = refl
Fits-fcmp_wild (suc n) (x ∷ s) (y ∷ t) f =
    let rest = Fits-fcmp_wild n s t λ k a b lt. f (suc k) a b (omega arith) in
    elim (f 0 x y (omega arith) refl refl) [
      | inl e ↦ ground (arith, e, rest)
      | inr e ↦ ground (arith, e, rest)
    ]

-- What swap_deleted_rd makes of an entry.
pub swap_deleted_rd_lem :
    (e : Dirent)
    → first_byte e ≢ 0xe5
    → swap_deleted_rd e ≡ (record e { dir_name = stored_name e.dir_name }, false)
unfolding swap_deleted_rd
swap_deleted_rd_lem e h = shown_as e.dir_name e.dir_attrib e.dir_crtimems_or_fchar h
  where
    shown_as :
        (n : List ℕ) (a f : ℕ)
        → get_or n 0 0 ≢ 0xe5
        → swap_deleted_rd (record { dir_name = n; dir_attrib = a; dir_crtimems_or_fchar = f })
          ≡ (record { dir_name = stored_name n; dir_attrib = a; dir_crtimems_or_fchar = f }, false)
    shown_as [] a f h = refl
    shown_as (c ∷ t) a f h = rw (==_false c 0xe5 h) refl

-- dos_findnext accepts what is read of an entry exactly if a search is for it.
swap_deleted_rd_deleted : (e : Dirent) → (swap_deleted_rd e).1 ≡ (first_byte e == 0xe5)
unfolding swap_deleted_rd
swap_deleted_rd_deleted e = refl

pub accepts-IsHit :
    (m : Dmatch) (e : Dirent)
    → accepts m (swap_deleted_rd e).0 (swap_deleted_rd e).1 ≡ true
    → IsHit m e
unfolding accepts
accepts-IsHit m e h = elim (ℕ_discrete (first_byte e) 0xe5) [
  | yes gone ↦
      let deleted = swap_deleted_rd_deleted e ∙ (==_iff (first_byte e) 0xe5).1 gone in
      let kept = negated _ (and_true _ _ h).0 in absurd (false≢true (sym kept ∙ deleted))
  | no live ↦
      let h₀ =
        subst (λ (r : Dirent × Bool). accepts m r.0 r.1 ≡ true) (swap_deleted_rd_lem e live) h in
      let (short, h₁) = and_true (not (e.dir_attrib % 0x10 == 0x0f)) _ h₀ in
      let (name, h₂) = and_true _ _ h₁ in
      let fits = attr_test-AttrFits m.dm_attr_srch e.dir_attrib h₂ in
      record {
        live = live;
        short = λ z. ground (arith, z, short);
        name = fcmp_wild-Fits 11 _ _ name;
        label = fits.0;
        others = fits.1;
      }
]

pub IsHit-accepts :
    (m : Dmatch) (e : Dirent)
    → IsHit m e
    → accepts m (swap_deleted_rd e).0 (swap_deleted_rd e).1 ≡ true
unfolding accepts
IsHit-accepts m e h =
    rw (swap_deleted_rd_lem e h.live, ==_false _ _ h.short, Fits-fcmp_wild 11 _ _ h.name)
      (AttrFits-attr_test m.dm_attr_srch e.dir_attrib (h.label, h.others))
