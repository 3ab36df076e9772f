-- ===== src/Truename/Parses.antt =====
-- The loop over a component as a whole.
use fdpp.Base.{
  ℕ, zero, suc, ◌+◌, ◌≤◌, ◌<◌, ◌≡◌, ◌≢◌, refl, sym, ap, ◌⊎◌, inl, inr, Bool, true, false, ◌&&◌,
  ◌||◌, List, [], ◌∷◌, ◌==◌, length, by_test, ==_iff, ==_false, arith,
}
use fdpp.Truename.{
  Answer, gives, fails, Parsed, fname_size, fext_size, remote_path_max, is_sep, is_end, add_char,
  question_marks, put_char, component,
}
use fdpp.Truename.Names.{
  IsPlain, AddsName, Written, written_done, gives_before, add_char_lem, question-IsPlain,
  question_marks_lem, put_char_ok, filled, put_char_lem, dot_lem,
}

question_marks_bound :
    (i : ℕ) (s out o : List ℕ)
    → question_marks i s out ≡ gives o
    → length out ≤ remote_path_max
    → length o ≤ remote_path_max
unfolding question_marks
question_marks_bound zero s out o h b = let e : o ≡ out = cc in rw e b
question_marks_bound (suc i) s out o h b =
    let (o₁, e, h') = gives_before (add_char 0x3f s out) (λ x. question_marks i s x) h in
    question_marks_bound i s o₁ o h' (add_char_lem 0x3f s out o₁ e).1

put_char_bound :
    (i : ℕ) (c : ℕ) (s out o : List ℕ) (j : ℕ)
    → put_char i c s out ≡ gives (j, o)
    → length out ≤ remote_path_max
    → length o ≤ remote_path_max
unfolding put_char add_char
put_char_bound i c s out o j h b = ground arith

-- What the loop over a component does with a source `s`.
pub record Parses (dot : Bool) (i : ℕ) (s out : List ℕ) (r : Parsed) : Type 0 where
  pub written : Written dot i out r.out
  pub bound : length out ≤ remote_path_max → length r.out ≤ remote_path_max
  pub source : length r.src ≤ length s
  pub shorter : is_end s ≡ false → length r.src < length s

stop_lem :
    (dot : Bool) (i : ℕ) (s out : List ℕ) (wild : Bool) (r : Parsed)
    → ◌≡◌ {A = Answer Parsed} (gives (record { src = s; out = out; wild = wild })) (gives r)
    → Written dot i out r.out × (r.out ≡ out) × (r.src ≡ s)
stop_lem dot i s out wild r h =
    let e : out ≡ r.out = ap (λ t. elim t [ gives x ↦ x.out | fails x ↦ [] ]) h in
    let f : s ≡ r.src = ap (λ t. elim t [ gives x ↦ x.src | fails x ↦ [] ]) h in
    (rw (← e) (written_done dot i out), sym e, sym f)

-- The source ends, or a separator follows.
stop_here :
    (dot : Bool) (i : ℕ) (s out : List ℕ) (wild : Bool) (r : Parsed)
    → is_end s ≡ true
    → ◌≡◌ {A = Answer Parsed} (gives (record { src = s; out = out; wild = wild })) (gives r)
    → Parses dot i s out r
stop_here dot i s out wild r e h =
    let (w, o, q) = stop_lem dot i s out wild r h in
    record {
      written = w;
      bound = λ b. rw o b;
      source = omega (arith, ap (λ (t : List ℕ). length t) q);
      shorter = λ f. absurd (cc);
    }

-- A character is consumed.
advance :
    (dot : Bool) (i : ℕ) (c : ℕ) (s out : List ℕ) (r : Parsed)
    → Written dot i out r.out
    → (length out ≤ remote_path_max → length r.out ≤ remote_path_max)
    → length r.src ≤ length s
    → Parses dot i (c ∷ s) out r
advance dot i c s out r w b l = record {
  written = w;
  bound = b;
  source = omega arith;
  shorter = λ _. omega arith;
}

stop_after :
    (dot : Bool) (i : ℕ) (c : ℕ) (s out : List ℕ) (wild : Bool) (r : Parsed)
    → ◌≡◌ {A = Answer Parsed} (gives (record { src = s; out = out; wild = wild })) (gives r)
    → Parses dot i (c ∷ s) out r
stop_after dot i c s out wild r h =
    let (w, o, q) = stop_lem dot i s out wild r h in
    advance dot i c s out r w (λ b. rw o b) (omega (arith, ap (λ (t : List ℕ). length t) q))

-- The loop over a component writes a name in 8.3 form, within the limit.
pub component-Parses :
    (dev : Bool) (i : ℕ) (dot wild : Bool) (s out : List ℕ) (r : Parsed)
    → component dev i dot wild s out ≡ gives r
    → Parses dot i s out r
unfolding component
component-Parses dev i dot wild [] out r = stop_here dot i [] out wild r refl
component-Parses dev i dot wild (c ∷ s) out r =
    let P : Answer Parsed → Type 0 = λ t. t ≡ gives r → Parses dot i (c ∷ s) out r in
    by_test P (is_sep c) _ _ (λ e. stop_here dot i (c ∷ s) out wild r e)
      λ n₁.
        by_test P (c == 0x3a && (length s == 0 && dev)) _ _ (λ _. stop_after dot i c s out wild r)
          λ n₂.
            by_test P (c == 0x2a) _ _
              (λ _ h.
                let (o, e, h') =
                  gives_before (question_marks i s out) (λ x. component dev 0 dot true s x) h in
                let p = component-Parses dev 0 dot true s o r h' in
                advance dot i c s out r (question_marks_lem i s out o r.out dot e p.written)
                  (λ b. p.bound (question_marks_bound i s out o e b)) p.source)
              λ n₃.
                by_test P (c == 0x2e && dot) _ _ (λ _ h. absurd (cc))
                  λ n₄.
                    by_test P (c == 0x2e && is_end s) _ _ (λ _. stop_after dot i c s out wild r)
                      λ n₅.
                        by_test P (c == 0x2e) _ _
                          (λ e h.
                            let ((j, o), q, h') =
                              gives_before (put_char (fext_size + 1) c s out)
                                (λ (j, o). component dev j true wild s o) h in
                            let p = component-Parses dev j true wild s o r h' in
                            advance dot i c s out r
                              (dot_lem dot c s out o r.out i j n₄ e q p.written)
                              (λ b. p.bound (put_char_bound (fext_size + 1) c s out o j q b))
                              p.source)
                          λ n₆ h.
                            let ((j, o), q, h') =
                              gives_before (put_char i c s out)
                                (λ (j, o). component dev j dot (wild || c == 0x3f) s o) h in
                            let p = component-Parses dev j dot (wild || c == 0x3f) s o r h' in
                            advance dot i c s out r
                              (put_char_lem i c s out o r.out j dot n₁ (λ z. absurd (ground arith))
                                q p.written)
                              (λ b. p.bound (put_char_bound i c s out o j q b)) p.source

-- A name that is begun: its first character is no dot.
abbrev pub Named : List ℕ → List ℕ → Type 0
Named o o' = (c : ℕ) × IsPlain c × AddsName 7 (c ∷ o) o'

-- A component that does not begin with a dot is empty, or has a character in front of the extension.
pub component-Named :
    (dev : Bool) (c : ℕ) (s out : List ℕ) (r : Parsed)
    → c ≢ 0x2e
    → component dev fname_size false false (c ∷ s) out ≡ gives r
    → (r.out ≡ out) ⊎ Named out r.out
unfolding component
component-Named dev c s out r d =
    let P : Answer Parsed → Type 0 = λ t. t ≡ gives r → (r.out ≡ out) ⊎ Named out r.out in
    let n : (c == 0x2e) ≡ false = ==_false c 0x2e d in
    by_test P (is_sep c) _ _ (λ _ h. inl (stop_lem false 8 (c ∷ s) out false r h).1)
      λ n₁.
        by_test P (c == 0x3a && (length s == 0 && dev)) _ _
          (λ _ h. inl (stop_lem false 8 s out false r h).1)
          λ n₂.
            by_test P (c == 0x2a) _ _
              (λ _ h.
                let (o, e, h') =
                  gives_before (question_marks 8 s out) (λ x. component dev 0 false true s x) h in
                let p = component-Parses dev 0 false true s o r h' in
                let (o₁, e₁, h₁) = filled 7 s out o e in
                inr (
                  0x3f,
                  question-IsPlain,
                  rw e₁ at (question_marks_lem 7 s o₁ o r.out false h₁ p.written),
                ))
              λ n₃.
                by_test P (c == 0x2e && false) _ _ (λ z _. absurd (ground arith))
                  λ n₄.
                    by_test P (c == 0x2e && is_end s) _ _ (λ z _. absurd (ground arith))
                      λ n₅.
                        by_test P (c == 0x2e) _ _ (λ z _. absurd (d ((==_iff c 0x2e).0 z)))
                          λ n₆ h.
                            let ((j, o), q, h') =
                              gives_before (put_char 8 c s out)
                                (λ (j, o). component dev j false (c == 0x3f) s o) h in
                            let p = component-Parses dev j false (c == 0x3f) s o r h' in
                            let (k, w, good) =
                              put_char_ok 8 c s out o j (λ z. absurd (omega arith)) q in
                            let e : j ≡ 7 = omega arith in
                            inr (c, (good, n₁, d), rw w at (rw e at (p.written)))
