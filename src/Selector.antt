-- ===== src/Selector.antt =====
-- The arguments that name a pull request or a pipeline: a number, or the URL of its page. The two
-- regular expressions are the same but for the path between the repository and the number:
-- `^https?://([^/]+)/([^/]+)/([^/]+)/PATH(\d+)`.
pub mod RoundTrip
use bitbucket_cli.Prelude.{ℕ, String, Bool, Option, none, some, [], ◌∷◌, nat_eq, if◌then◌else◌}
use bitbucket_cli.Prelude.Codes.{Text, codes, text_eq, has_prefix, trim_prefix, slash}
use bitbucket_cli.Prelude.Decimal.{ℤ, pos, is_digit, Atoi, in_range, atoi, atoi_value}
use bitbucket_cli.Prelude.Result.{Error, text_error, Result, ok, err}
use bitbucket_cli.Repo.{Repo, new_with_host, http_prefix, https_prefix}

-- What stands before the first slash, and what after it.
unfoldable pub until_slash : Text → Option (Text × Text)
until_slash [] = none
until_slash (c ∷ s) =
    let rest = until_slash s in
    if nat_eq c slash
    then some ([], s)
    else elim rest [ none ↦ none | some (part, after) ↦ some (c ∷ part, after) ]

-- `([^/]+)/`
unfoldable pub segment : Text → Option (Text × Text)
segment s = elim (until_slash s) [
  | none ↦ none
  | some (part, after) ↦ if text_eq part [] then none else some (part, after)
]

-- The digits that a text begins with.
abbrev pub leading_digits : Text → Text
leading_digits [] = []
leading_digits (c ∷ s) = let rest = leading_digits s in if is_digit c then c ∷ rest else []

-- `^https?://`
unfoldable pub after_protocol : Text → Option Text
after_protocol s =
    if has_prefix s https_prefix
    then some (trim_prefix s https_prefix)
    else if has_prefix s http_prefix
    then some (trim_prefix s http_prefix)
    else none

-- `PATH(\d+)`
unfoldable pub numbered : Text → Text → Option Text
numbered path s =
    if has_prefix s path
    then (let digits = leading_digits (trim_prefix s path) in
        if text_eq digits [] then none else some digits)
    else none

pub record Match : Type 0 where
  pub host : Text
  pub workspace : Text
  pub slug : Text
  pub digits : Text

infixl 5 ◌>>=◌
abbrev pub ◌>>=◌ : {A B : Type 0} → Option A → (A → Option B) → Option B
none >>= f = none
some a >>= f = f a

-- The regular expression with its four groups.
unfoldable pub match_url : Text → Text → Option Match
match_url path arg = do
  s ← after_protocol arg
  host ← segment s
  workspace ← segment host.1
  slug ← segment workspace.1
  digits ← numbered path slug.1
  some (record { host = host.0; workspace = workspace.0; slug = slug.0; digits = digits })

matched : String → Text → Option Match → Result (ℤ × Option Repo)
matched format arg none = err (text_error format (arg ∷ []))
matched format arg (some m) =
    ok (atoi_value (atoi m.digits), some (new_with_host m.workspace m.slug m.host))

parse_number : Text → String → Text → Atoi → Result (ℤ × Option Repo)
parse_number path format arg (in_range n) = ok (n, none)
parse_number path format arg other = matched format arg (match_url path arg)

unfoldable pub parse_arg : Text → String → Text → Result (ℤ × Option Repo)
unfolding matched parse_number
parse_arg path format arg = parse_number path format arg (atoi arg)

abbrev pub pr_path : Text
pr_path = codes "pull-requests/"

abbrev pub pipeline_path : Text
pipeline_path = codes "addon/pipelines/home#!/results/"

-- `ParsePRArg` of pkg/cmd/pr/shared
unfoldable pub parse_pr_arg : Text → Result (ℤ × Option Repo)
unfolding parse_arg
parse_pr_arg = parse_arg pr_path "invalid pull request argument: %s"

-- `ParsePipelineArg` of pkg/cmd/pipeline/shared
unfoldable pub parse_pipeline_arg : Text → Result (ℤ × Option Repo)
unfolding parse_arg
parse_pipeline_arg = parse_arg pipeline_path "invalid pipeline argument: %s"
