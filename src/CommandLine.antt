-- ===== src/CommandLine.antt =====
-- pkg/cmdutil/args.go, pkg/cmdutil/flags.go and pkg/cmd/root/alias.go: the checks of a command's
-- arguments and flags, and the expansion of aliases.
pub mod Enums
pub mod Arguments
pub mod Expansion
use bitbucket_cli.Prelude.{
  ℕ, suc, Bool, true, false, ◌||◌, ◌&&◌, List, [], ◌∷◌, ◌++◌, if◌then◌else◌, Option, none, some,
  ltb, leb, nat_eq, length,
}
use bitbucket_cli.Prelude.Codes.{Text, codes, text_eq, equal_fold, has_prefix, split_n, has_code}

pub data UsageError : Type 0 where
  flag_error : Text → UsageError
  valid_values : Text → UsageError
  no_matches : Text → UsageError
  bad_pattern : Text → UsageError
  not_enough_arguments : Text → UsageError
  bad_quoting : UsageError
  panics : UsageError

pub data Outcome (A : Type 0) : Type 0 where
  fine : A → Outcome A
  bad : UsageError → Outcome A

-- `isIncluded`
unfoldable pub is_included : Text → List Text → Bool
is_included value [] = false
is_included value (opt ∷ opts) = equal_fold opt value || is_included value opts

-- `strings.Join` and `formatValuesForUsageDocs`
unfoldable pub join : List Text → Text → Text
join [] sep = []
join (part ∷ []) sep = part
join (part ∷ part' ∷ parts) sep = part ++ (sep ++ join (part' ∷ parts) sep)

unfoldable pub format_values : List Text → Text
unfolding join
format_values values = codes "{" ++ (join values (codes "|") ++ codes "}")

-- `enumValue.Set`: the value after it, and the error.
unfoldable pub set_enum : List Text → Text → Text → Text × Option UsageError
unfolding is_included format_values
set_enum options value old =
    if is_included value options
    then (value, none)
    else (old, some (valid_values (format_values options)))

-- `strings.Split` at a comma.
unfoldable pub split_commas : Text → List Text
split_commas value = split_n 44 (length value) value

unfoldable pub all_included : List Text → List Text → Bool
all_included options [] = true
all_included options (item ∷ items) =
    let rest = all_included options items in if is_included item options then rest else false

-- `enumMultiValue.Set`
unfoldable pub set_enums : List Text → Text → List Text → List Text × Option UsageError
unfolding all_included split_commas format_values
set_enums options value old =
    if all_included options (split_commas value)
    then (old ++ split_commas value, none)
    else (old, some (valid_values (format_values options)))

-- `ExactArgs`: the error, if there is one.
unfoldable pub exact_args : ℕ → Text → List Text → Option UsageError
exact_args n msg args =
    if ltb n (length args)
    then some (flag_error (codes "too many arguments"))
    else if ltb (length args) n
    then some (flag_error msg)
    else none

-- `MinimumArgs`; `minimum_n_args` is cobra's `MinimumNArgs`.
unfoldable pub minimum_args :
    (ℕ → List Text → Option UsageError) → ℕ → Text → List Text → Option UsageError
minimum_args minimum_n_args n msg args =
    if text_eq msg []
    then minimum_n_args 1 args
    else if ltb (length args) n
    then some (flag_error msg)
    else none

add_to : {A : Type 0} → Bool → A → List A × List A → List A × List A
add_to true item (matching, non_matching) = (item ∷ matching, non_matching)
add_to false item (matching, non_matching) = (matching, item ∷ non_matching)

-- `Partition`
unfoldable pub partition : {A : Type 0} → List A → (A → Bool) → List A × List A
unfolding add_to
partition [] predicate = ([], [])
partition (item ∷ slice) predicate = add_to (predicate item) item (partition slice predicate)

add_matches : Text → Option (List Text) → Outcome (List Text) → Outcome (List Text)
add_matches pattern_text none later = bad (bad_pattern pattern_text)
add_matches pattern_text (some []) later = bad (no_matches pattern_text)
add_matches pattern_text (some (m ∷ ms)) (bad e) = bad e
add_matches pattern_text (some (m ∷ ms)) (fine expansions) = fine (m ∷ ms ++ expansions)

-- `GlobPaths`; `glob` is `filepath.Glob`, and `none` its error.
unfoldable pub glob_paths : (Text → Option (List Text)) → List Text → Outcome (List Text)
unfolding add_matches
glob_paths glob [] = fine []
glob_paths glob (p ∷ patterns) = add_matches p (glob p) (glob_paths glob patterns)

-- `expandShellAlias`; Go panics on an empty expansion, which `validations.go` lets no alias have.
unfoldable pub expand_shell_alias : Outcome Text → Text → List Text → Outcome (List Text)
expand_shell_alias (bad e) expansion args = bad e
expand_shell_alias (fine sh_path) [] args = bad panics
expand_shell_alias (fine sh_path) (mark ∷ command) [] = fine (sh_path ∷ codes "-c" ∷ command ∷ [])
expand_shell_alias (fine sh_path) (mark ∷ command) (arg ∷ args) =
    fine (sh_path ∷ codes "-c" ∷ command ∷ codes "--" ∷ arg ∷ args)
