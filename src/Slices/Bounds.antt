-- ===== src/Slices/Bounds.antt =====
-- internal/text/text.go: FormatSlice ends, and keeps its lines within their length.
use mathlib.Core.List.{append-nil}
use bitbucket_cli.Prelude.{
  ℕ, zero, suc, ◌+◌, ◌*◌, ◌<◌, ◌≤◌, ◌≡◌, refl, subst, false, Bool, Option, some, List, [], ◌∷◌,
  ◌++◌, length, length-append, All, arith, if◌then◌else◌,
}
use bitbucket_cli.Prelude.Codes.{Text, has_code}
use bitbucket_cli.Prelude.Codes.Splits.{has_code-append}
use bitbucket_cli.Slices.{spaces, surround, limit_of, format_values, format_slice}
use bitbucket_cli.Slices.Lines.{Narrow, Narrow-append, IsShort, format_loop-Ends}

length-spaces : (n : ℕ) → length (spaces n) ≡ n
length-spaces zero = refl
length-spaces (suc n) = omega (arith, length-spaces n)

spaces_blank : (n : ℕ) → has_code 10 (spaces n) ≡ false
spaces_blank zero = refl
spaces_blank (suc n) = spaces_blank n

length-surround :
    (before after : Text) (values : List Text)
    → length (surround before after values) ≡ length values
length-surround before after [] = refl
length-surround before after (v ∷ rest) = omega (arith, length-surround before after rest)

-- One line of an indentation and a value.
one_line :
    (m indent : ℕ) (v : Text)
    → has_code 10 v ≡ false
    → indent + length v ≤ m
    → Narrow m 0 (spaces indent ++ v)
one_line m indent v plain h = subst (Narrow m 0) (append-nil (spaces indent ++ v)) (
    Narrow-append m 0 (indent + length v) (spaces indent ++ v) []
      (rw (has_code-append 10 (spaces indent) v, spaces_blank indent) plain)
      (omega (arith, length-append (spaces indent) v, length-spaces indent)) h h)

inside :
    (before v after : Text) → has_code 10 (before ++ v ++ after) ≡ false → has_code 10 v ≡ false
inside before v after h =
    ground (arith, h, has_code-append 10 (before ++ v) after, has_code-append 10 before v)

length-inside : (before v after : Text) → length v ≤ length (before ++ v ++ after)
length-inside before v after =
    omega (arith, length-append (before ++ v) after, length-append before v)

-- The text is made, and its lines are narrow.
abbrev pub Formats : Option Text → ℕ → Type 0
Formats o m = (text : Text) × (o ≡ some text) × Narrow m 0 text

format_values-Formats :
    (fuel line_length indent : ℕ) (before after : Text) (values : List Text)
    → All (IsShort (limit_of line_length)) (surround before after values)
    → 2 * length values < fuel
    → Formats
        (format_values fuel line_length indent before after values)
        (indent + limit_of line_length)
format_values-Formats fuel line_length indent before after [] short enough = (
  spaces indent,
  refl,
  subst (Narrow (indent + limit_of line_length) 0) (append-nil (spaces indent))
      (one_line (indent + limit_of line_length) indent [] refl (omega arith)),
)
format_values-Formats fuel line_length indent before after (v ∷ []) ((plain, len), _) enough = (
  spaces indent ++ v,
  refl,
  one_line (indent + limit_of line_length) indent v (inside before v after plain)
      (omega (arith, length-inside before v after)),
)
format_values-Formats fuel line_length indent before after (v ∷ w ∷ rest) short enough =
    let values = surround before after (v ∷ w ∷ rest) in
    let (text, runs, narrow) =
      format_loop-Ends (limit_of line_length) (spaces indent) (spaces_blank indent) fuel values 0
        short (omega (arith, length-surround before after (v ∷ w ∷ rest))) (omega arith) [] in
    (
      text,
      runs,
      subst (λ n. Narrow (n + limit_of line_length) 0 text) (length-spaces indent) narrow,
    )

-- `FormatSlice` ends, within as many rounds as twice the number of its values and one more, and each
-- line of its text has at most the line length besides the indentation, where each value with what
-- surrounds it and a comma fits in a line and has no line break.
pub format_slice-Formats :
    (sorted : List Text → List Text) (fuel : ℕ) (values : List Text) (line_length indent : ℕ)
    (before after : Text) (sort : Bool) (chosen : List Text)
    → (if sort then sorted values else values) ≡ chosen
    → All (IsShort (limit_of line_length)) (surround before after chosen)
    → 2 * length chosen < fuel
    → Formats
        (format_slice sorted fuel values line_length indent before after sort)
        (indent + limit_of line_length)
unfolding format_slice
format_slice-Formats sorted fuel values line_length indent before after sort chosen e short enough =
    rw e (format_values-Formats fuel line_length indent before after chosen short enough)
