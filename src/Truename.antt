-- ===== src/Truename.antt =====
-- kernel/newstuff.c: truename, from the loop that appends the path of the source. Text is a list of character
-- codes without the zero at its end. What is written at `dest` up to `p` is `out`, the last character first, so
-- that p[-1] is its first one; `root` is rootPos - dest, and `sep` is the character at rootPos.
-- The outer loop takes fuel; `none` means that the fuel ran out.
pub mod Names
pub mod Parses
pub mod Paths
pub mod Appends
pub mod Items
pub mod Walks
pub mod Resolves
mod Tests
use fdpp.Base.{
  ℕ, zero, suc, ◌+◌, ◌-◌, Bool, true, false, ◌&&◌, ◌||◌, not, Option, none, some, List, [], ◌∷◌,
  ltb, leb, ◌==◌, if◌then◌else◌, length,
}

pub data Error : Type 0 where
  de_filenotfnd : Error
  de_pathnotfnd : Error

-- A COUNT that is an error, or what else a step leaves.
pub data Answer (S : Type 0) : Type 0 where
  gives : S → Answer S
  fails : Error → Answer S

infixl 5 ◌>>=◌
abbrev pub ◌>>=◌ : {S T : Type 0} → Answer S → (S → Answer T) → Answer T
fails e >>= rest = fails e
gives x >>= rest = rest x

abbrev pub fname_size : ℕ
fname_size = 8

abbrev pub fext_size : ℕ
fext_size = 3

abbrev pub remote_path_max : ℕ
remote_path_max = 128

abbrev pub is_sep : ℕ → Bool
is_sep c = c == 0x2f || c == 0x5c

abbrev pub has_sep : List ℕ → Bool
has_sep [] = false
has_sep (c ∷ s) = is_sep c || has_sep s

-- path_error
abbrev pub path_error : List ℕ → Error
path_error s = if has_sep s then de_pathnotfnd else de_filenotfnd

-- strchr
abbrev pub has : ℕ → List ℕ → Bool
has c [] = false
has c (d ∷ s) = d == c || has c s

-- _DirChars: "[]:|<>+=;,
abbrev pub dir_chars : List ℕ
dir_chars = 0x22 ∷ 0x5b ∷ 0x5d ∷ 0x3a ∷ 0x7c ∷ 0x3c ∷ 0x3e ∷ 0x2b ∷ 0x3d ∷ 0x3b ∷ 0x2c ∷ []

abbrev pub dir_char : ℕ → Bool
dir_char c = leb 0x20 c && not (has c dir_chars)

-- addChar; `s` is the source, for the error.
unfoldable pub add_char : ℕ → List ℕ → List ℕ → Answer (List ℕ)
add_char c s out =
    if leb remote_path_max (length out) then fails (path_error s) else gives (c ∷ out)

unfoldable pub skip_seps : List ℕ → List ℕ
skip_seps [] = []
skip_seps (c ∷ s) = if is_sep c then skip_seps s else c ∷ s

-- The source is at the end of a component.
abbrev pub is_end : List ℕ → Bool
is_end [] = true
is_end (c ∷ s) = is_sep c

-- `*` as the question marks that are left.
unfoldable pub question_marks : ℕ → List ℕ → List ℕ → Answer (List ℕ)
unfolding add_char
question_marks zero s out = gives out
question_marks (suc i) s out = do o ← add_char 0x3f s out; question_marks i s o

-- What a component leaves: the source, what is written, and whether there is a wildcard.
pub record Parsed : Type 0 where
  pub src : List ℕ
  pub out : List ℕ
  pub wild : Bool

-- The end of a round: a character is written while the length is in limits.
unfoldable pub put_char : ℕ → ℕ → List ℕ → List ℕ → Answer (ℕ × List ℕ)
unfolding add_char
put_char i c s out =
    if i == 0
    then gives (0, out)
    else if not (dir_char c)
    then fails (path_error s)
    else (do o ← add_char c s out; gives (i - 1, o))

-- The loop over a component. `dot` and `wild` are the bits of `state`.
unfoldable pub component : Bool → ℕ → Bool → Bool → List ℕ → List ℕ → Answer Parsed
unfolding question_marks put_char
component dev i dot wild [] out = gives (record { src = []; out = out; wild = wild })
component dev i dot wild (c ∷ s) out =
    if is_sep c
    then gives (record { src = c ∷ s; out = out; wild = wild })
    else if c == 0x3a && (length s == 0 && dev)
    then gives (record { src = s; out = out; wild = wild })
    else if c == 0x2a
    then (do o ← question_marks i s out; component dev 0 dot true s o)
    else if c == 0x2e && dot
    then fails (path_error s)
    else if c == 0x2e && is_end s
    then gives (record { src = s; out = out; wild = wild })
    else if c == 0x2e
    then (do (j, o) ← put_char (fext_size + 1) c s out; component dev j true wild s o)
    else (do (j, o) ← put_char i c s out; component dev j dot (wild || c == 0x3f) s o)

-- `while (*--p != '\\')` of a ".." entry, with the test for the root.
unfoldable pub back_up : ℕ → List ℕ → Option (List ℕ)
back_up root [] = none
back_up root (c ∷ out) =
    if c == 0x5c then some out else if leb (length out) root then none else back_up root out

-- The backslash that is appended if it is not there.
unfoldable pub add_sep : ℕ → List ℕ → List ℕ → Answer (List ℕ)
unfolding add_char
add_sep sep s [] = add_char sep s []
add_sep sep s (c ∷ out) = if c == sep then gives (c ∷ out) else add_char sep s (c ∷ out)

-- The source behind the dots of "." and "..", and whether there are two.
abbrev pub dots : List ℕ → Option (List ℕ × Bool)
dots [] = none
dots (c ∷ []) = if c == 0x2e then some ([], false) else none
dots (c ∷ d ∷ s) =
    if not (c == 0x2e) then none else if d == 0x2e then some (s, true) else some (d ∷ s, false)

abbrev pub tail : List ℕ → List ℕ
tail [] = []
tail (c ∷ s) = s

-- "." and "..", the latter if `two`; `out` has the backslash.
unfoldable pub dot_entry : Bool → ℕ → List ℕ → List ℕ → Answer Parsed
unfolding back_up
dot_entry false root t out = gives (record { src = t; out = tail out; wild = false })
dot_entry true root t out = elim (back_up root (tail out)) [
  | some o ↦ gives (record { src = t; out = o; wild = false })
  | none ↦ fails de_pathnotfnd
]

-- A round of the outer loop, once the separator is written; `out` has it.
unfoldable pub segment : Bool → ℕ → List ℕ → List ℕ → Answer Parsed
unfolding component dot_entry
segment dev root s out = elim (dots s) [
  | none ↦ component dev fname_size false false s out
  | some (t, two) ↦ if not (is_end t) then fails (path_error t) else dot_entry two root t out
]

-- The outer loop.
unfoldable pub append : ℕ → Bool → ℕ → ℕ → Bool → List ℕ → List ℕ → Option (Answer (List ℕ × Bool))
unfolding add_sep skip_seps segment
append f dev root sep wild [] out = some (gives (out, wild))
append zero dev root sep wild (c ∷ s) out = none
append (suc f) dev root sep wild (c ∷ s) out =
    if wild then some (fails de_pathnotfnd) else elim (add_sep sep (c ∷ s) out) [
      | fails e ↦ some (fails e)
      | gives o ↦ elim (segment dev root (skip_seps (c ∷ s)) o) [
        | fails e ↦ some (fails e)
        | gives r ↦ append f dev root sep r.wild r.src r.out
      ]
    ]

-- The rest up to the terminator: `allow` is CDS_MODE_ALLOW_WILDCARDS.
unfoldable pub append_path : Bool → ℕ → ℕ → Bool → List ℕ → List ℕ → Option (Answer (List ℕ))
unfolding append add_char
append_path dev root sep allow src out = elim (append (length src) dev root sep false src out) [
  | none ↦ none
  | some (fails e) ↦ some (fails e)
  | some (gives (o, wild)) ↦
      if wild && not allow
      then some (fails de_pathnotfnd)
      else if length o == 2
      then some (add_char 0x5c [] o)
      else some (gives o)
]
