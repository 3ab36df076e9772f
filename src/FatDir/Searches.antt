-- ===== src/FatDir/Searches.antt =====
-- dos_findnext finds the next entry on the disk that the search is for.
use mathlib.Core.Path.{subst}
use mathlib.Core.Option.{some-injective}
use mathlib.Core.Bool.{false≢true}
use fdpp.Base.{
  ℕ, ◌+◌, ◌/◌, ◌%◌, ◌≤◌, ◌<◌, ◌≡◌, ◌≢◌, refl, sym, ap, ◌∙◌, ◌⊎◌, inl, inr, Bool, true, Option, none,
  some, List, [], ◌∷◌, leb, ◌==◌, Bool-cases, Option-cases, ℕ_discrete, arith,
}
use fdpp.FatDir.{
  Dirent, Directory, Read, filled, dirent_size, dir_sector, swap_deleted_rd, dir_read, Dmatch,
  accepts, dos_findnext,
}
use fdpp.FatDir.Finds.{search_at, Passed, Ends, dos_findnext_lem}
use fdpp.FatDir.Hits.{
  OnDisk, first_byte, stored_name, IsHit, accepts-IsHit, IsHit-accepts, swap_deleted_rd_lem,
}

-- The end of a directory: the first entry that was never used, or the place where the directory or what
-- can be read of it ends.
pub data Stops (d : Directory) (k : ℕ) : Type 0 where
  unused : (e : Dirent) → OnDisk d k e → first_byte e ≡ 0 → Stops d k
  unreadable : (s : ℕ) → dir_sector d k ≡ some s → d.getblock s ≡ none → Stops d k
  no_sector : dir_sector d k ≡ none → Stops d k
  too_far : 65535 ≤ k → Stops d k

-- From `i` up to `j` there are entries, and the search is for none of them.
abbrev pub Missed : Directory → Dmatch → ℕ → ℕ → Type 0
Missed d m i j =
    (k : ℕ) → i ≤ k → k < j → (e : Dirent) × OnDisk d k e × (first_byte e ≢ 0) × ¬ IsHit m e

-- The next entry that the search is for, given with its name, and dm_entry behind it.
pub record Next (o : Option (Option Dirent × Dmatch)) (d : Directory) (m : Dmatch) (i : ℕ)
    : Type 0 where
  pub place : ℕ
  pub entry : Dirent
  pub behind : i ≤ place
  pub missed : Missed d m i place
  pub on_disk : OnDisk d place entry
  pub is_used : first_byte entry ≢ 0
  pub hit : IsHit m entry
  pub run :
      o
      ≡ some
          (some (record entry { dir_name = stored_name entry.dir_name }), search_at m (place + 1))

-- There is none up to the end of the directory, and dm_entry is there.
pub record NoMore (o : Option (Option Dirent × Dmatch)) (d : Directory) (m : Dmatch) (i : ℕ)
    : Type 0 where
  pub place : ℕ
  pub behind : i ≤ place
  pub missed : Missed d m i place
  pub stops : Stops d place
  pub run : o ≡ some (none, search_at m place)

abbrev as_read : Read → Option (Dirent × Bool)
as_read (filled e deleted) = some (e, deleted)
as_read _ = none

-- What dir_read makes of an entry.
data Reads (d : Directory) (k : ℕ) : Type 0 where
  entry :
      (e : Dirent)
      → OnDisk d k e
      → first_byte e ≢ 0
      → as_read (dir_read d k) ≡ some (swap_deleted_rd e)
      → Reads d k
  nothing : Stops d k → as_read (dir_read d k) ≡ none → Reads d k

-- The first character is 0 as read if it is 0 on the disk.
swap_deleted_rd_zero : (e : Dirent) → (first_byte (swap_deleted_rd e).0 == 0) ≡ (first_byte e == 0)
unfolding swap_deleted_rd
swap_deleted_rd_zero e = zero_as e.dir_name e.dir_attrib e.dir_crtimems_or_fchar
  where
    zero_as :
        (n : List ℕ) (a f : ℕ)
        → let e' : Dirent = record { dir_name = n; dir_attrib = a; dir_crtimems_or_fchar = f } in
          (first_byte (swap_deleted_rd e').0 == 0) ≡ (first_byte e' == 0)
    zero_as [] a f = refl
    zero_as (c ∷ t) a f = elim (ℕ_discrete c 0) [ yes q ↦ rw q refl | no ne ↦ ground (arith, ne) ]

Reads_lem : (d : Directory) (k : ℕ) → Reads d k
unfolding dir_read
Reads_lem d k = elim (Bool-cases (leb 65535 k)) [
  | inl y ↦ nothing (too_far (ground arith)) (rw y refl)
  | inr n ↦ elim (Option-cases (dir_sector d k)) [
    | inl z ↦ nothing (no_sector z) (rw (n, z) refl)
    | inr (s, q) ↦ elim (Option-cases (d.getblock s)) [
      | inl z ↦ nothing (unreadable s q z) (rw (n, q, z) refl)
      | inr (b, r) ↦
          let e = b (k % (d.dpb_secsize / dirent_size)) in
          let there : OnDisk d k e = record {
            small = ground arith;
            at_sector = s;
            entries = b;
            sector_is = q;
            block_is = r;
            entry_is = refl;
          } in
          elim (Bool-cases (first_byte e == 0)) [
            | inl none_used ↦
                nothing (unused e there (ground (arith, none_used)))
                  (rw (n, q, r, swap_deleted_rd_zero e, none_used) refl)
            | inr more ↦
                entry e there (λ z. ground (arith, z, more))
                  (rw (n, q, r, swap_deleted_rd_zero e, more) refl)
          ]
    ]
  ]
]

-- What is read of an entry is read of one on the disk.
read_entry :
    (d : Directory) (k : ℕ) {e' : Dirent} {deleted : Bool}
    → dir_read d k ≡ filled e' deleted
    → (e : Dirent) × OnDisk d k e × (first_byte e ≢ 0) × (swap_deleted_rd e ≡ (e', deleted))
read_entry d k read = elim (Reads_lem d k) [
  | entry e there used r ↦ (e, there, used, some-injective _ _ (sym r ∙ ap as_read read))
  | nothing st r ↦ absurd (let bad = sym r ∙ ap as_read read in cc)
]

read_end : (d : Directory) (k : ℕ) → Ends d k → Stops d k
read_end d k ends = elim (Reads_lem d k) [
  | nothing st r ↦ st
  | entry e there used r ↦ absurd (elim ends [
    | inl a ↦ (let bad = sym r ∙ ap as_read a in cc)
    | inr (inl a) ↦ (let bad = sym r ∙ ap as_read a in cc)
    | inr (inr a) ↦ (let bad = sym r ∙ ap as_read a in cc)
  ])
]

missed : (d : Directory) (m : Dmatch) (i j : ℕ) → Passed d m i j → Missed d m i j
missed d m i j passed k lo hi =
    let (e', deleted, read, not_taken) = passed k lo hi in
    let (e, there, used, is) = read_entry d k read in
    (
      e,
      there,
      used,
      λ hit.
          let taken =
            subst (λ (r : Dirent × Bool). accepts m r.0 r.1 ≡ true) is (IsHit-accepts m e hit) in
          absurd (false≢true (sym not_taken ∙ taken)),
    )

-- dos_findnext of a disk that media_check lets through returns, from any place where the entries have 16 bits.
-- Either the result is the next entry in the directory that the search is for, with its name, and dm_entry is
-- behind it; or there is none before the end of the directory, and dm_entry is there. A search is for the
-- entries that are not deleted nor parts of a long name, whose names fit the pattern, and which are volume
-- labels, if the attributes ask for these only, or else have no attribute of hidden, system, label and
-- directory that is not asked for.
pub dos_findnext-Next :
    (d : Directory) (m : Dmatch)
    → m.dm_entry ≤ 65535
    → Next (dos_findnext true d m) d m m.dm_entry ⊎ NoMore (dos_findnext true d m) d m m.dm_entry
dos_findnext-Next d m h = elim (dos_findnext_lem d m h) [
  | inl v ↦
      let (e, there, used, is) = read_entry d v.place v.read in
      let hit =
        accepts-IsHit m e
          (subst (λ (r : Dirent × Bool). accepts m r.0 r.1 ≡ true) (sym is) v.accepted) in
      let shown = ap (λ (r : Dirent × Bool). r.0) (sym is ∙ swap_deleted_rd_lem e hit.live) in
      inl (record {
        place = v.place;
        entry = e;
        behind = v.behind;
        missed = missed d m m.dm_entry v.place v.passed;
        on_disk = there;
        is_used = used;
        hit = hit;
        run = v.run ∙ ap (λ (x : Dirent). some (some x, search_at m (v.place + 1))) shown;
      })
  | inr v ↦ inr (record {
    place = v.place;
    behind = v.behind;
    missed = missed d m m.dm_entry v.place v.passed;
    stops = read_end d v.place v.ends;
    run = v.run;
  })
]
