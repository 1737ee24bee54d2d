-- ===== src/Slices.antt =====
-- internal/text/text.go: FormatSlice. A text is its list of code points, as long as its bytes are for
-- ASCII; `line_length` is Go's `uint`, read as an `int` that holds it. `sorted` is `slices.Sort`.
pub mod Lines
pub mod Bounds
use bitbucket_cli.Prelude.{
  ℕ, zero, suc, ◌+◌, Bool, true, false, ◌&&◌, ◌||◌, not, Option, none, some, List, [], ◌∷◌, ◌++◌,
  ltb, nat_eq, length, if◌then◌else◌,
}
use bitbucket_cli.Prelude.Codes.{Text}
use bitbucket_cli.Prelude.Decimal.{max_int}

-- `strings.Repeat(" ", n)`
abbrev pub spaces : ℕ → Text
spaces zero = []
spaces (suc n) = 32 ∷ spaces n

abbrev pub is_last : List Text → Bool
is_last [] = true
is_last (v ∷ rest) = false

-- The separator after an element.
abbrev pub separator : Bool → Text
separator last = if last then [] else 44 ∷ []

-- The line would be too long with one more element.
unfoldable pub overflows : ℕ → ℕ → Bool → Text → Bool
overflows line_length current last v =
    not last && ltb line_length (current + 1 + length v + 1)
    || last && ltb line_length (current + 1 + length v)

-- The loop, on fuel: the elements left with what surrounds them, the length of the current line
-- without its indentation, and what is written. `none` means that the fuel ran out.
unfoldable pub format_loop : ℕ → ℕ → Text → List Text → ℕ → Text → Option Text
format_loop zero line_length pre values current out = none
format_loop (suc fuel) line_length pre [] current out = some out
format_loop (suc fuel) line_length pre (v ∷ rest) current out =
    let last = is_last rest in
    let first =
      format_loop fuel line_length pre rest (length v + length (separator last))
        (out ++ (pre ++ (v ++ separator last))) in
    let again = format_loop fuel line_length pre (v ∷ rest) 0 (out ++ 10 ∷ []) in
    let more =
      format_loop fuel line_length pre rest (current + (1 + length v) + length (separator last))
        (out ++ (32 ∷ (v ++ separator last))) in
    if nat_eq current 0 then first else if overflows line_length current last v then again else more

abbrev pub surround : Text → Text → List Text → List Text
surround before after [] = []
surround before after (v ∷ rest) = (before ++ v ++ after) ∷ surround before after rest

-- A length of 0 is no limit.
abbrev pub limit_of : ℕ → ℕ
limit_of line_length = if nat_eq line_length 0 then max_int else line_length

abbrev pub format_values : ℕ → ℕ → ℕ → Text → Text → List Text → Option Text
format_values fuel line_length indent before after [] = some (spaces indent)
format_values fuel line_length indent before after (v ∷ []) = some (spaces indent ++ v)
format_values fuel line_length indent before after (v ∷ w ∷ rest) =
    format_loop fuel (limit_of line_length) (spaces indent) (surround before after (v ∷ w ∷ rest)) 0
      []

-- `FormatSlice`
unfoldable pub format_slice :
    (List Text → List Text) → ℕ → List Text → ℕ → ℕ → Text → Text → Bool → Option Text
format_slice sorted fuel values line_length indent before after sort =
    format_values fuel line_length indent before after (if sort then sorted values else values)
