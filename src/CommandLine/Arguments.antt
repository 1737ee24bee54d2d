-- ===== src/CommandLine/Arguments.antt =====
-- pkg/cmdutil/args.go: arguments and slices.
use bitbucket_cli.Prelude.{
  ℕ, ◌≡◌, ◌↔◌, refl, Bool, not, List, [], ◌∷◌, none, filter, length, inl, inr, Bool-cases, arith,
}
use bitbucket_cli.Prelude.Codes.{Text}
use bitbucket_cli.CommandLine.{partition, exact_args}

-- `ExactArgs` has no error just for the number of arguments that it names.
pub exact_args_iff :
    (n : ℕ) (msg : Text) (args : List Text) → (exact_args n msg args ≡ none) ↔ (length args ≡ n)
unfolding exact_args
exact_args_iff n msg args = (λ e. ground (arith, e), λ e. ground (arith, e))

-- `Partition` returns the elements that satisfy the predicate and those that do not, each in the
-- order of the slice.
pub partition-filter :
    {A : Type 0} (slice : List A) (predicate : A → Bool)
    → partition slice predicate ≡ (filter predicate slice, filter (λ a. not (predicate a)) slice)
unfolding partition
partition-filter [] predicate = refl
partition-filter (item ∷ slice) predicate = elim (Bool-cases (predicate item)) [
  | inl e ↦ rw (e, partition-filter slice predicate) refl
  | inr e ↦ rw (e, partition-filter slice predicate) refl
]
