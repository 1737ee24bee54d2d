-- ===== src/Slices/Lines.antt =====
-- internal/text/text.go: the loop of FormatSlice ends, and keeps its lines within their length.
use mathlib.Core.List.{append_assoc, append-nil}
use bitbucket_cli.Prelude.{
  ℕ, zero, suc, ◌+◌, ◌*◌, ◌<◌, ◌≤◌, ◌≡◌, refl, ◌∙◌, ap, sym, subst, false, true, Bool, Option, some,
  List, [], ◌∷◌, ◌++◌, nat_eq, length, length-append, All, Bool-cases, inl, inr, arith,
  if◌then◌else◌,
}
use bitbucket_cli.Prelude.Codes.{Text, has_code}
use bitbucket_cli.Prelude.Codes.Splits.{has_code-append}
use bitbucket_cli.Slices.{is_last, separator, overflows, format_loop}

-- Every line of a text, of which the first is written up to a column, has at most `m` characters.
abbrev pub Narrow : ℕ → ℕ → Text → Type 0
Narrow m column [] = column ≤ m
Narrow m column (c ∷ s) =
    (column ≤ m) × (if nat_eq c 10 then Narrow m 0 s else Narrow m (column + 1) s)

pub Narrow-append :
    (m column end : ℕ) (s t : Text)
    → has_code 10 s ≡ false
    → column + length s ≡ end
    → end ≤ m
    → Narrow m end t
    → Narrow m column (s ++ t)
Narrow-append m column end [] t none_in e h k = let same : column ≡ end = omega arith in rw same k
Narrow-append m column end (c ∷ s) t none_in e h k =
    let tail_in : has_code 10 s ≡ false = ground (arith, none_in) in
    let other : nat_eq c 10 ≡ false = ground (arith, none_in) in
    (omega arith, rw other (Narrow-append m (column + 1) end s t tail_in (omega arith) h k))

-- The loop ends with what was written and a rest whose lines are narrow.
abbrev pub Ends : Option Text → Text → ℕ → ℕ → Type 0
Ends o out m column = (tail : Text) × (o ≡ some (out ++ tail)) × Narrow m column tail

emit :
    (o : Option Text) (out piece : Text) (m column end : ℕ)
    → has_code 10 piece ≡ false
    → column + length piece ≡ end
    → end ≤ m
    → Ends o (out ++ piece) m end
    → Ends o out m column
emit o out piece m column end none_in e h (tail, runs, narrow) = (
  piece ++ tail,
  runs ∙ ap some (append_assoc out piece tail),
  Narrow-append m column end piece tail none_in e h narrow,
)

break_line :
    (o : Option Text) (out : Text) (m column : ℕ)
    → column ≤ m
    → Ends o (out ++ 10 ∷ []) m 0
    → Ends o out m column
break_line o out m column h (tail, runs, narrow) =
    (10 ∷ tail, runs ∙ ap some (append_assoc out (10 ∷ []) tail), (h, narrow))

-- An element on a line of its own fits, with the comma after it, and does not break the line.
abbrev pub IsShort : ℕ → Text → Type 0
IsShort line_length v = (has_code 10 v ≡ false) × (length v + 1 ≤ line_length)

no_break-piece :
    (v : Text) (last : Bool) → has_code 10 v ≡ false → has_code 10 (v ++ separator last) ≡ false
no_break-piece v true h = rw (has_code-append 10 v [], h) refl
no_break-piece v false h = rw (has_code-append 10 v (44 ∷ []), h) refl

length-separator : (last : Bool) → length (separator last) ≤ 1
length-separator true = omega arith
length-separator false = omega arith

module _ (line_length : ℕ) (pre : Text) (blank : has_code 10 pre ≡ false) where
  abbrev column_of : ℕ → ℕ
  column_of current = if nat_eq current 0 then 0 else length pre + current

  abbrev rounds : List Text → ℕ → ℕ
  rounds values current = 2 * length values + (if nat_eq current 0 then 0 else 1)

  -- What the loop does from a line that holds something.
  abbrev LoopEnds : ℕ → List Text → ℕ → Type 0
  LoopEnds fuel rest current =
      (out : Text)
      → Ends (format_loop fuel line_length pre rest current out) out (length pre + line_length)
          (length pre + current)

  loop_done : (fuel current : ℕ) → 0 < fuel → current ≤ line_length → LoopEnds fuel [] current
  unfolding format_loop
  loop_done zero current h fits out = absurd (omega arith)
  loop_done (suc fuel) current h fits out = ([], ap some (sym (append-nil out)), omega arith)

  emit_first :
      (fuel : ℕ) (v : Text) (last : Bool) (rest : List Text) (out : Text)
      → IsShort line_length v
      → LoopEnds fuel rest (length v + length (separator last))
      → Ends
          (format_loop fuel line_length pre rest
            (length v + length (separator last))
            (out ++ (pre ++ (v ++ separator last))))
          out
          (length pre + line_length)
          0
  emit_first fuel v last rest out (plain, len) next =
      let piece = pre ++ (v ++ separator last) in
      emit _ out piece (length pre + line_length) 0
        (length pre + (length v + length (separator last)))
        (rw (has_code-append 10 pre (v ++ separator last), blank) (no_break-piece v last plain))
        (omega (arith, length-append pre (v ++ separator last), length-append v (separator last)))
        (omega (arith, length-separator last)) (next (out ++ piece))

  emit_more :
      (fuel : ℕ) (v : Text) (last : Bool) (rest : List Text) (current : ℕ) (out : Text)
      → has_code 10 v ≡ false
      → current + (1 + length v) + length (separator last) ≤ line_length
      → LoopEnds fuel rest (current + (1 + length v) + length (separator last))
      → Ends
          (format_loop fuel line_length pre rest
            (current + (1 + length v) + length (separator last))
            (out ++ (32 ∷ (v ++ separator last))))
          out
          (length pre + line_length)
          (length pre + current)
  emit_more fuel v last rest current out plain fits next =
      let piece = 32 ∷ (v ++ separator last) in
      emit _ out piece (length pre + line_length) (length pre + current)
        (length pre + (current + (1 + length v) + length (separator last)))
        (no_break-piece v last plain) (omega (arith, length-append v (separator last)))
        (omega arith) (next (out ++ piece))

  abbrev Keeps : ℕ → List Text → ℕ → Type 0
  Keeps fuel rest current =
      (out : Text)
      → Ends (format_loop fuel line_length pre rest current out) out (length pre + line_length)
          (column_of current)

  continued :
      (fuel : ℕ) (rest : List Text) (n : ℕ)
      → rounds rest (n + length (separator (is_last rest))) < fuel
      → n + length (separator (is_last rest)) ≤ line_length
      → Keeps fuel rest (n + length (separator (is_last rest)))
      → LoopEnds fuel rest (n + length (separator (is_last rest)))
  continued fuel [] n enough fits ih out = loop_done fuel (n + 0) (omega arith) fits out
  continued fuel (w ∷ rest) n enough fits ih out =
      let holds : nat_eq (n + 1) 0 ≡ false = ground arith in
      subst
        (λ c.
          Ends (format_loop fuel line_length pre (w ∷ rest) (n + 1) out) out
            (length pre + line_length) c)
        (rw holds refl) (ih out)

  fits_more :
      (current : ℕ) (last : Bool) (v : Text)
      → overflows line_length current last v ≡ false
      → current + (1 + length v) + length (separator last) ≤ line_length
  unfolding overflows
  fits_more current true v h = ground (arith, h)
  fits_more current false v h = ground (arith, h)

  rounds_down :
      (fuel current n : ℕ) (v : Text) (rest : List Text)
      → rounds (v ∷ rest) current < suc fuel
      → rounds rest n < fuel
  rounds_down fuel current n v rest h = ground (arith, h)

  pub format_loop-Ends :
      (fuel : ℕ) (values : List Text) (current : ℕ)
      → All (IsShort line_length) values
      → rounds values current < fuel
      → current ≤ line_length
      → Keeps fuel values current
  unfolding format_loop
  format_loop-Ends zero values current short enough fits out = absurd (omega arith)
  format_loop-Ends (suc fuel) [] current short enough fits out =
      ([], ap some (sym (append-nil out)), ground arith)
  format_loop-Ends (suc fuel) (v ∷ rest) current (fit, short) enough fits out =
      let last = is_last rest in
      elim (Bool-cases (nat_eq current 0)) [
        | inl e ↦
            let n = length v in
            let down = rounds_down fuel current (n + length (separator last)) v rest enough in
            let room : n + length (separator last) ≤ line_length =
              omega (arith, length-separator last, fit.1) in
            rw e (
              emit_first fuel v last rest out fit (
                continued fuel rest n down room
                  (format_loop-Ends fuel rest (n + length (separator last)) short down room)))
        | inr e ↦ elim (Bool-cases (overflows line_length current last v)) [
          | inl long ↦
              rw (e, long)
                (break_line _ out (length pre + line_length) (length pre + current) (omega arith) (
                  format_loop-Ends fuel (v ∷ rest) 0 (fit, short) (ground (arith, e, enough))
                    (omega arith) (out ++ 10 ∷ [])))
          | inr free ↦
              let n = current + (1 + length v) in
              let down = rounds_down fuel current (n + length (separator last)) v rest enough in
              let room = fits_more current last v free in
              rw (e, free)
                (emit_more fuel v last rest current out fit.0 room (
                  continued fuel rest n down room
                    (format_loop-Ends fuel rest (n + length (separator last)) short down room)))
        ]
      ]
