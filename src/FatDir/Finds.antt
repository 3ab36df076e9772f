-- ===== src/FatDir/Finds.antt =====
-- dos_findnext finds the next of the entries read that it accepts.
use fdpp.Base.{
  ℕ, zero, suc, ◌+◌, ◌%◌, ◌≤◌, ◌<◌, ◌≡◌, refl, ◌∙◌, ◌⊎◌, inl, inr, Bool, true, false, Option, none,
  some, leb, Bool-cases, ℕ_discrete, arith,
}
use fdpp.FatDir.{
  Dirent, Directory, Read, filled, empty, de_seek, de_blkinvld, dir_read, Dmatch, accepts,
  find_entry, rounds, dos_findnext,
}

-- The search at another entry.
abbrev pub search_at : Dmatch → ℕ → Dmatch
search_at m i = record m { dm_entry = i }

-- From `i` up to `j` there are entries, and none is accepted.
abbrev pub Passed : Directory → Dmatch → ℕ → ℕ → Type 0
Passed d m i j =
    (k : ℕ)
    → i ≤ k
    → k < j
    → (e : Dirent) × (deleted : Bool) × (dir_read d k ≡ filled e deleted)
      × (accepts m e deleted ≡ false)

-- No entry can be read.
abbrev pub Ends : Directory → ℕ → Type 0
Ends d j = (dir_read d j ≡ empty) ⊎ ((dir_read d j ≡ de_seek) ⊎ (dir_read d j ≡ de_blkinvld))

-- The next entry that is accepted, and dm_entry behind it.
pub record Accepted (o : Option (Option Dirent × Dmatch)) (d : Directory) (m : Dmatch) (i : ℕ)
    : Type 0 where
  pub place : ℕ
  pub entry : Dirent
  pub deleted : Bool
  pub behind : i ≤ place
  pub passed : Passed d m i place
  pub read : dir_read d place ≡ filled entry deleted
  pub accepted : accepts m entry deleted ≡ true
  pub run : o ≡ some (some entry, search_at m (place + 1))

-- There is none, and dm_entry is where no entry can be read.
pub record Exhausted (o : Option (Option Dirent × Dmatch)) (d : Directory) (m : Dmatch) (i : ℕ)
    : Type 0 where
  pub place : ℕ
  pub behind : i ≤ place
  pub passed : Passed d m i place
  pub ends : Ends d place
  pub run : o ≡ some (none, search_at m place)

Read-cases :
    (r : Read)
    → ((e : Dirent) × (deleted : Bool) × (r ≡ filled e deleted))
      ⊎ ((r ≡ empty) ⊎ ((r ≡ de_seek) ⊎ (r ≡ de_blkinvld)))
Read-cases (filled e deleted) = inl (e, deleted, refl)
Read-cases empty = inr (inl refl)
Read-cases de_seek = inr (inr (inl refl))
Read-cases de_blkinvld = inr (inr (inr refl))

-- No entry is read from 65535 on.
filled-lt :
    (d : Directory) (i : ℕ) (e : Dirent) (deleted : Bool)
    → dir_read d i ≡ filled e deleted
    → i < 65535
unfolding dir_read
filled-lt d i e deleted h = elim (Bool-cases (leb 65535 i)) [
  | inl over ↦ absurd (let h' = rw over at h in cc)
  | inr under ↦ ground arith
]

accepts_at :
    (m : Dmatch) (i : ℕ) (e : Dirent) (deleted : Bool)
    → accepts (search_at m i) e deleted ≡ accepts m e deleted
unfolding accepts
accepts_at m i e deleted = refl

module _ (f : ℕ) (d : Directory) (m : Dmatch) (i : ℕ) where
  find_ends : Ends d i → find_entry (suc f) d (search_at m i) ≡ some (none, search_at m i)
  unfolding find_entry
  find_ends (inl e) = rw (e, find_entry) refl
  find_ends (inr (inl e)) = rw (e, find_entry) refl
  find_ends (inr (inr e)) = rw (e, find_entry) refl

  module _ (e : Dirent) (deleted : Bool) (read : dir_read d i ≡ filled e deleted) where
    next_place : (i + 1) % 0x1_0000 ≡ i + 1
    next_place = omega (arith, filled-lt d i e deleted read)

    find_hit :
        accepts m e deleted ≡ true
        → find_entry (suc f) d (search_at m i) ≡ some (some e, search_at m (i + 1))
    unfolding find_entry
    find_hit a = rw (read, find_entry, accepts_at m i e deleted, a, next_place) refl

    find_on :
        accepts m e deleted ≡ false
        → find_entry (suc f) d (search_at m i) ≡ find_entry f d (search_at m (i + 1))
    unfolding find_entry
    find_on a = rw (read, find_entry, accepts_at m i e deleted, a, next_place) refl

find_entry_lem :
    (f : ℕ) (d : Directory) (m : Dmatch) (i : ℕ)
    → i ≤ 65535
    → 65536 ≤ f + i
    → Accepted (find_entry f d (search_at m i)) d m i
      ⊎ Exhausted (find_entry f d (search_at m i)) d m i
find_entry_lem zero d m i h enough = absurd (omega arith)
find_entry_lem (suc f) d m i h enough = elim (Read-cases (dir_read d i)) [
  | inr ends ↦ inr (record {
    place = i;
    behind = omega arith;
    passed = λ k lo hi. absurd (omega arith);
    ends = ends;
    run = find_ends f d m i ends;
  })
  | inl (e, deleted, read) ↦ elim (Bool-cases (accepts m e deleted)) [
    | inl a ↦ inl (record {
      place = i;
      entry = e;
      deleted = deleted;
      behind = omega arith;
      passed = λ k lo hi. absurd (omega arith);
      read = read;
      accepted = a;
      run = find_hit f d m i e deleted read a;
    })
    | inr a ↦
        let lt = filled-lt d i e deleted read in
        let on = find_on f d m i e deleted read a in
        elim (find_entry_lem f d m (i + 1) (omega arith) (omega arith)) [
          | inl v ↦ inl (record {
            place = v.place;
            entry = v.entry;
            deleted = v.deleted;
            behind = omega (arith, v.behind);
            passed = extend v.place (e, deleted, read, a) v.passed;
            read = v.read;
            accepted = v.accepted;
            run = on ∙ v.run;
          })
          | inr v ↦ inr (record {
            place = v.place;
            behind = omega (arith, v.behind);
            passed = extend v.place (e, deleted, read, a) v.passed;
            ends = v.ends;
            run = on ∙ v.run;
          })
        ]
  ]
]
  where
    extend :
        (j : ℕ)
        → (e : Dirent) × (deleted : Bool) × (dir_read d i ≡ filled e deleted)
          × (accepts m e deleted ≡ false)
        → Passed d m (i + 1) j
        → Passed d m i j
    extend j here rest k lo hi = elim (ℕ_discrete k i) [
      | yes e ↦ rw e here
      | no n ↦ rest k (omega arith) hi
    ]

-- dos_findnext of a disk that media_check lets through returns, from any place where the entries have 16 bits.
-- Either the result is the next entry in the directory that it accepts, and dm_entry is behind that; or there is
-- none before the first place where no entry can be read, and dm_entry is that place.
pub dos_findnext_lem :
    (d : Directory) (m : Dmatch)
    → m.dm_entry ≤ 65535
    → Accepted (dos_findnext true d m) d m m.dm_entry
      ⊎ Exhausted (dos_findnext true d m) d m m.dm_entry
unfolding dos_findnext
dos_findnext_lem d m h = find_entry_lem rounds d m m.dm_entry h (omega arith)
