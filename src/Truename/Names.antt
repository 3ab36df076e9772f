-- ===== src/Truename/Names.antt =====
-- What the steps of the loop over a component write: a name in 8.3 form.
use fdpp.Base.{
  ℕ, zero, suc, ◌+◌, ◌≤◌, ◌≡◌, ◌≢◌, refl, ◌⊎◌, inl, inr, Bool, true, false, ◌&&◌, List, ◌∷◌, ◌==◌,
  length, Bool-cases, ==_iff, arith,
}
use fdpp.Truename.{
  Error, Answer, gives, fails, ◌>>=◌, fext_size, remote_path_max, is_sep, dir_char, add_char,
  question_marks, put_char,
}

-- A character of a name: no separator, no dot, and none that DirChar refuses.
abbrev pub IsPlain : ℕ → Type 0
IsPlain c = (dir_char c ≡ true) × (is_sep c ≡ false) × (c ≢ 0x2e)

-- The second text is the first one with at most `k` more characters, the last one first.
pub data Adds : ℕ → List ℕ → List ℕ → Type 0 where
  done : {k : ℕ} {o : List ℕ} → Adds k o o
  char : {k : ℕ} {o o' : List ℕ} (c : ℕ) → IsPlain c → Adds k (c ∷ o) o' → Adds (suc k) o o'

-- A name of at most `k` characters, and perhaps a dot and an extension of at most 3.
pub data AddsName : ℕ → List ℕ → List ℕ → Type 0 where
  stem : {k : ℕ} {o o' : List ℕ} → Adds k o o' → AddsName k o o'
  dotted :
      {k : ℕ} {o o' o'' : List ℕ} → Adds k o o' → Adds fext_size (0x2e ∷ o') o'' → AddsName k o o''

pub AddsName-char :
    {k : ℕ} {o o' : List ℕ} (c : ℕ) → IsPlain c → AddsName k (c ∷ o) o' → AddsName (suc k) o o'
AddsName-char c p (stem a) = stem (char c p a)
AddsName-char c p (dotted a e) = dotted (char c p a) e

-- The name so far, and the rest of it.
abbrev pub Written : Bool → ℕ → List ℕ → List ℕ → Type 0
Written true k o o' = Adds k o o'
Written false k o o' = AddsName k o o'

written_char :
    (dot : Bool) (k : ℕ) (o o' : List ℕ) (c : ℕ)
    → IsPlain c
    → Written dot k (c ∷ o) o'
    → Written dot (suc k) o o'
written_char true k o o' c p a = char c p a
written_char false k o o' c p a = AddsName-char c p a

pub written_done : (dot : Bool) (k : ℕ) (o : List ℕ) → Written dot k o o
written_done true k o = done
written_done false k o = stem done

-- Inversion of a step that succeeds.
pub gives_before :
    {S T : Type 0} (first : Answer S) (rest : S → Answer T) {t : T}
    → (first >>= rest) ≡ gives t
    → (x : S) × (first ≡ gives x) × (rest x ≡ gives t)
gives_before (fails e) rest never = cc
gives_before (gives x) rest then_t = (x, refl, then_t)

pub Answer-cases :
    {S : Type 0} (r : Answer S) → ((x : S) × (r ≡ gives x)) ⊎ ((e : Error) × (r ≡ fails e))
Answer-cases (gives a) = inl (a, refl)
Answer-cases (fails e) = inr (e, refl)

-- addChar writes one character, within the limit.
pub add_char_lem :
    (c : ℕ) (s out o : List ℕ)
    → add_char c s out ≡ gives o
    → (o ≡ c ∷ out) × (length o ≤ remote_path_max)
unfolding add_char
add_char_lem c s out o h = ground arith

pub question-IsPlain : IsPlain 0x3f
question-IsPlain = (refl, refl, omega arith)

-- The question marks for a `*`.
pub question_marks_lem :
    (i : ℕ) (s out o o' : List ℕ) (dot : Bool)
    → question_marks i s out ≡ gives o
    → Written dot 0 o o'
    → Written dot i out o'
unfolding question_marks
question_marks_lem zero s out o o' dot h w = let e : o ≡ out = cc in rw (← e) w
question_marks_lem (suc i) s out o o' dot h w =
    let (o₁, e, h') = gives_before (add_char 0x3f s out) (λ x. question_marks i s x) h in
    let q = (add_char_lem 0x3f s out o₁ e).0 in
    written_char dot i out o' 0x3f question-IsPlain
      (rw q at (question_marks_lem i s o₁ o o' dot h' w))

-- What the end of a round writes.
pub put_char_ok :
    (i : ℕ) (c : ℕ) (s out o : List ℕ) (j : ℕ)
    → i ≢ 0
    → put_char i c s out ≡ gives (j, o)
    → (i ≡ suc j) × (o ≡ c ∷ out) × (dir_char c ≡ true)
unfolding put_char add_char
put_char_ok i c s out o j n h = elim (Bool-cases (dir_char c)) [
  | inl good ↦ ground arith
  | inr bad ↦ absurd (ground arith)
]

pub filled :
    (i : ℕ) (s out o : List ℕ)
    → question_marks (suc i) s out ≡ gives o
    → (o₁ : List ℕ) × (o₁ ≡ 0x3f ∷ out) × (question_marks i s o₁ ≡ gives o)
unfolding question_marks
filled i s out o h =
    let (o₁, e, h') = gives_before (add_char 0x3f s out) (λ x. question_marks i s x) h in
    (o₁, (add_char_lem 0x3f s out o₁ e).0, h')

-- A character that is no dot.
pub put_char_lem :
    (i : ℕ) (c : ℕ) (s out o o' : List ℕ) (j : ℕ) (dot : Bool)
    → is_sep c ≡ false
    → c ≢ 0x2e
    → put_char i c s out ≡ gives (j, o)
    → Written dot j o o'
    → Written dot i out o'
unfolding put_char
put_char_lem zero c s out o o' j dot n d h w =
    let e : o ≡ out = cc in let f : j ≡ 0 = cc in rw (← e, ← f) w
put_char_lem (suc i) c s out o o' j dot n d h w =
    let (p, q, good) = put_char_ok (suc i) c s out o j (λ e. absurd (omega arith)) h in
    rw p (written_char dot j out o' c (good, n, d) (rw q at w))

-- The dot of the extension.
pub dot_lem :
    (dot : Bool) (c : ℕ) (s out o o' : List ℕ) (i j : ℕ)
    → (c == 0x2e && dot) ≡ false
    → (c == 0x2e) ≡ true
    → put_char (fext_size + 1) c s out ≡ gives (j, o)
    → Adds j o o'
    → Written dot i out o'
dot_lem true c s out o o' i j two e h a = absurd (ground arith)
dot_lem false c s out o o' i j two e h a =
    let (p, q, good) = put_char_ok 4 c s out o j (λ z. absurd (omega arith)) h in
    let k : j ≡ 3 = omega arith in
    let d : c ≡ 0x2e = (==_iff c 0x2e).0 e in dotted done (rw (← d) (rw q at (rw k at a)))
