-- ===== src/CommandLine/Expansion.antt =====
-- pkg/cmd/root/alias.go: expandAlias, which puts arguments into the expansion of an alias.
pub mod Arguments
pub mod Pieces
pub mod Placeholders
use bitbucket_cli.Prelude.{
  ℕ, zero, suc, ◌-◌, Bool, true, false, ◌&&◌, ◌||◌, Option, none, some, List, [], ◌∷◌, ◌++◌, nat_eq,
  length, if◌then◌else◌,
}
use bitbucket_cli.Prelude.Codes.{Text, has_prefix, has_code}
use bitbucket_cli.Prelude.Decimal.{show_nat, is_digit}
use bitbucket_cli.CommandLine.{Outcome, fine, bad, not_enough_arguments, bad_quoting}

-- `strings.ReplaceAll` of a text that is not empty, after as many characters as are skipped.
unfoldable pub replace_from : Text → Text → ℕ → Text → Text
replace_from old new skipped [] = []
replace_from old new (suc skipped) (c ∷ s) = replace_from old new skipped s
replace_from old new zero (c ∷ s) =
    let after = replace_from old new (length old - 1) s in
    let next = replace_from old new zero s in
    if has_prefix (c ∷ s) old then new ++ after else c ∷ next

abbrev pub dollar : ℕ
dollar = 36

-- `$1` for the first argument, and so on.
abbrev pub placeholder : ℕ → Text
placeholder i = dollar ∷ show_nat (suc i)

-- The loop over the arguments from the number `i` on: the expansion, and the arguments that are left.
unfoldable pub place_arguments : ℕ → Text → List Text → Text × List Text
place_arguments i expansion [] = (expansion, [])
place_arguments i expansion (a ∷ args) =
    let placed = place_arguments (suc i) (replace_from (placeholder i) a 0 expansion) args in
    let kept = place_arguments (suc i) expansion args in
    if has_code dollar expansion then placed else (kept.0, a ∷ kept.1)

abbrev pub digit_first : Text → Bool
digit_first [] = false
digit_first (c ∷ s) = is_digit c

-- `\$\d`
unfoldable pub is_lingering : Text → Bool
is_lingering [] = false
is_lingering (c ∷ s) = nat_eq c dollar && digit_first s || is_lingering s

with_rest : Option (List Text) → List Text → Outcome (List Text)
with_rest none rest = bad bad_quoting
with_rest (some words) rest = fine (words ++ rest)

-- `expandAlias`; `split` is shlex's `Split`, and `none` its error.
unfoldable pub expand_alias : (Text → Option (List Text)) → Text → List Text → Outcome (List Text)
unfolding with_rest
expand_alias split expansion args =
    let (text, rest) = place_arguments 0 expansion args in
    if is_lingering text then bad (not_enough_arguments text) else with_rest (split text) rest
