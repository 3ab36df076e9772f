-- ===== src/Truename/Appends.antt =====
-- What truename appends, whatever the source is.
use fdpp.Base.{
  ℕ, zero, suc, ◌≤◌, ◌<◌, ◌≡◌, refl, ap, ◌∙◌, inl, inr, Bool, true, false, ◌&&◌, not, Option, none,
  some, List, [], ◌∷◌, ◌==◌, if◌then◌else◌, length, Bool-cases, Option-cases, by_test, ==_iff,
  arith,
}
use fdpp.Truename.{
  Error, Answer, gives, fails, Parsed, fname_size, remote_path_max, is_sep, path_error, is_end,
  add_char, component, back_up, add_sep, skip_seps, dots, dot_entry, segment, append, append_path,
  de_pathnotfnd,
}
use fdpp.Truename.Names.{Adds, done, char, stem, dotted, add_char_lem, Answer-cases}
use fdpp.Truename.Parses.{component-Parses}
use fdpp.Truename.Paths.{
  IsPath, top, below, IsWritten, closed, trailing, NoSep, add_sep_lem, back_up-IsPath, back_up-le,
  dots-lt, undotted,
}

-- What a round does: `o` is the path in front of the separator.
record Round (p : List ℕ) (s o : List ℕ) (r : Parsed) : Type 0 where
  written : IsWritten p r.out
  bound : length (0x5c ∷ o) ≤ remote_path_max → length r.out ≤ remote_path_max
  source : length r.src ≤ length s
  shorter : is_end s ≡ false → length r.src < length s

module _ (dev : Bool) (p : List ℕ) (front : NoSep p) (s o : List ℕ) (w : IsPath p o) where
  named :
      (r : Parsed)
      → dots s ≡ none
      → component dev fname_size false false s (0x5c ∷ o) ≡ gives r
      → Round p s o r
  named r d h =
      let c = component-Parses dev fname_size false false s (0x5c ∷ o) r h in
      record {
        written = elim (undotted dev s (0x5c ∷ o) r d h) [
          | inl e ↦ trailing o w e
          | inr n ↦ closed (below o w n)
        ];
        bound = c.bound;
        source = c.source;
        shorter = c.shorter;
      }

  dotted-Round :
      (t : List ℕ) (x : List ℕ) (r : Parsed)
      → length t < length s
      → IsPath p x
      → length x ≤ length o
      → ◌≡◌ {A = Answer Parsed} (gives (record { src = t; out = x; wild = false })) (gives r)
      → Round p s o r
  dotted-Round t x r lt v le h =
      let e : x ≡ r.out = ap (λ z. elim z [ gives y ↦ y.out | fails y ↦ [] ]) h in
      let f : t ≡ r.src = ap (λ z. elim z [ gives y ↦ y.src | fails y ↦ [] ]) h in
      record {
        written = rw (← e) (closed v);
        bound = λ b. rw (← e) (omega arith);
        source = rw (← f) (omega arith);
        shorter = λ _. rw (← f) lt;
      }

  dot_entry-Round :
      (two : Bool) (t : List ℕ) (r : Parsed)
      → length t < length s
      → dot_entry two (length p) t (0x5c ∷ o) ≡ gives r
      → Round p s o r
  unfolding dot_entry
  dot_entry-Round false t r lt h = dotted-Round t o r lt w (omega arith) h
  dot_entry-Round true t r lt h = elim (Option-cases (back_up (length p) o)) [
    | inl e ↦ absurd (let h' = rw (e, dot_entry) at h in cc)
    | inr (x, e) ↦
        dotted-Round t x r lt (back_up-IsPath p front x w e) (back_up-le (length p) o x e)
          (rw (e, dot_entry) at h)
  ]

  segment-Round : (r : Parsed) → segment dev (length p) s (0x5c ∷ o) ≡ gives r → Round p s o r
  unfolding segment
  segment-Round r h = elim (Option-cases (dots s)) [
    | inl e ↦ named r e (rw (e, segment) at h)
    | inr ((t, two), e) ↦
        by_test (λ x. x ≡ gives r → Round p s o r) (not (is_end t)) (fails (path_error t))
          (dot_entry two (length p) t (0x5c ∷ o)) (λ _ z. absurd (cc))
          (λ _. dot_entry-Round two t r (dots-lt s t two e)) (rw (e, segment) at h)
  ]

-- Skipping separators.
skip_seps-le : (s : List ℕ) → length (skip_seps s) ≤ length s
unfolding skip_seps
skip_seps-le [] = omega arith
skip_seps-le (c ∷ s) = ground (arith, skip_seps-le s)

-- A round consumes a character.
Round-lt :
    (p : List ℕ) (c : ℕ) (s o : List ℕ) (r : Parsed)
    → Round p (skip_seps (c ∷ s)) o r
    → length r.src ≤ length s
unfolding skip_seps
Round-lt p c s o r v = elim (Bool-cases (is_sep c)) [
  | inl e ↦
      let le = v.source in
      let k : length r.src ≤ length (skip_seps s) = rw e at le in omega (arith, skip_seps-le s)
  | inr n ↦
      let lt = v.shorter in let k : length r.src < length (c ∷ s) = (rw n at lt) n in omega arith
]

-- What the outer loop returns, and that it does.
pub record Appended (p : List ℕ) (t : Option (Answer (List ℕ × Bool))) : Type 0 where
  pub result : Answer (List ℕ × Bool)
  pub run : t ≡ some result
  pub written :
      (o : List ℕ) (wild : Bool)
      → result ≡ gives (o, wild)
      → IsWritten p o × (length o ≤ remote_path_max)

failed : (p : List ℕ) (e : Error) → Appended p (some (fails e))
failed p e = record { result = fails e; run = refl; written = λ o wild z. absurd (cc) }

append-Appended :
    (f : ℕ) (dev : Bool) (p : List ℕ) (wild : Bool) (s out : List ℕ)
    → NoSep p
    → length s ≤ f
    → IsWritten p out
    → length out ≤ remote_path_max
    → Appended p (append f dev (length p) 0x5c wild s out)
unfolding append
append-Appended f dev p wild [] out front h w b = record {
  result = gives (out, wild);
  run = refl;
  written = λ o wild' e.
      let q : out ≡ o = ap (λ z. elim z [ gives y ↦ y.0 | fails y ↦ [] ]) e in
      (rw (← q) w, rw (← q) b);
}
append-Appended zero dev p wild (c ∷ s) out front h w b = absurd (omega arith)
append-Appended (suc f) dev p true (c ∷ s) out front h w b = failed p de_pathnotfnd
append-Appended (suc f) dev p false (c ∷ s) out front h w b =
    elim (Answer-cases (add_sep 0x5c (c ∷ s) out)) [
      | inr (x, e) ↦ rw (e, append) (failed p x)
      | inl (o, e) ↦
          let (o₀, v, q, k) = add_sep_lem p front (c ∷ s) out o w e in
          elim (Answer-cases (segment dev (length p) (skip_seps (c ∷ s)) o)) [
            | inr (x, z) ↦ rw (e, append, z, append) (failed p x)
            | inl (r, z) ↦
                let t = segment-Round dev p front (skip_seps (c ∷ s)) o₀ v r (rw q at z) in
                let lt = Round-lt p c s o₀ r t in
                rw (e, append, z, append)
                  (append-Appended f dev p r.wild r.src r.out front (omega arith) t.written
                    (t.bound (rw q at (k b))))
          ]
    ]

Adds-le : {k : ℕ} {o o' : List ℕ} → Adds k o o' → length o ≤ length o'
Adds-le done = omega arith
Adds-le (char c q a) = omega (arith, Adds-le a)

IsPath-le : {p o : List ℕ} → IsPath p o → length p ≤ length o
IsPath-le (top e) = rw e (omega arith)
IsPath-le (below o w (c, q, stem a)) = omega (arith, IsPath-le w, Adds-le a)
IsPath-le (below o w (c, q, dotted a e)) = omega (arith, IsPath-le w, Adds-le a, Adds-le e)

-- It returns; if it succeeds, it has written such a path, within the limit.
pub record Canonical (p : List ℕ) (t : Option (Answer (List ℕ))) : Type 0 where
  pub result : Answer (List ℕ)
  pub run : t ≡ some result
  pub written : (o : List ℕ) → result ≡ gives o → IsWritten p o × (length o ≤ remote_path_max)

refused : (p : List ℕ) (e : Error) → Canonical p (some (fails e))
refused p e = record { result = fails e; run = refl; written = λ o z. absurd (cc) }

-- The backslash behind a prefix of two characters, such as "C:".
ended :
    (p o : List ℕ) (r : Answer (List ℕ))
    → 2 ≤ length p
    → length o ≡ 2
    → IsWritten p o
    → add_char 0x5c [] o ≡ r
    → (x : List ℕ) → r ≡ gives x
    → IsWritten p x × (length x ≤ remote_path_max)
ended p o r two l (trailing o₀ v e) h x k =
    absurd (omega (arith, IsPath-le v, ap (λ (t : List ℕ). length t) e))
ended p o r two l (closed v) h x k =
    let (q, b) = add_char_lem 0x5c [] o x (h ∙ k) in (trailing o v q, b)

-- The part of truename that appends the path of a source returns, whatever the source is. If it starts
-- from a prefix of two characters or more that does not end with a backslash, and from names behind it,
-- and it succeeds, then it leaves the prefix with names behind it, and perhaps one more backslash at the
-- end. Each name has one backslash in front, 1 to 8 characters, and perhaps a dot and up to 3 more; none of
-- these is a separator, a dot, or a character that DirChar refuses. There are at most 128 characters.
pub append_path-Canonical :
    (dev : Bool) (p : List ℕ) (allow : Bool) (s out : List ℕ)
    → NoSep p
    → 2 ≤ length p
    → IsWritten p out
    → length out ≤ remote_path_max
    → Canonical p (append_path dev (length p) 0x5c allow s out)
unfolding append_path
append_path-Canonical dev p allow s out front two w b =
    let v = append-Appended (length s) dev p false s out front (omega arith) w b in
    elim (Answer-cases v.result) [
      | inr (x, e) ↦ rw (v.run, e, append_path) (refused p x)
      | inl ((o, wild), e) ↦
          let (w', b') = v.written o wild e in
          rw (v.run, e, append_path)
            (by_test (Canonical p) (wild && not allow) (some (fails de_pathnotfnd))
              (if length o == 2 then some (add_char 0x5c [] o) else some (gives o))
              (λ _. refused p de_pathnotfnd)
              (λ _.
                by_test (Canonical p) (length o == 2) (some (add_char 0x5c [] o)) (some (gives o))
                  (λ l. record {
                    result = add_char 0x5c [] o;
                    run = refl;
                    written =
                        ended p o (add_char 0x5c [] o) two ((==_iff (length o) 2).0 l) w' refl;
                  })
                  (λ _. record {
                    result = gives o;
                    run = refl;
                    written = λ x k.
                        let q : o ≡ x = ap (λ z. elim z [ gives y ↦ y | fails y ↦ [] ]) k in
                        (rw (← q) w', rw (← q) b');
                  })))
    ]
