-- ===== src/CommandLine/Enums.antt =====
-- pkg/cmdutil/flags.go: flags that take values of a list.
use bitbucket_cli.Prelude.{
  ◌≡◌, refl, true, List, [], ◌∷◌, ◌++◌, none, All, is_some, inl, inr, Bool-cases, arith,
}
use bitbucket_cli.Prelude.Codes.{Text}
use bitbucket_cli.CommandLine.{is_included, all_included, split_commas, set_enums}

all_included-All :
    (options items : List Text)
    → all_included options items ≡ true
    → All (λ item. is_included item options ≡ true) items
unfolding all_included
all_included-All options [] e = tt
all_included-All options (item ∷ items) e =
    (ground (arith, e), all_included-All options items (ground (arith, e)))

-- Setting a flag of several values is all or nothing: without an error each of the values between the
-- commas is among the options and they are appended in order; with an error the flag is unchanged.
pub set_enums-All :
    (options : List Text) (value : Text) (old : List Text)
    → ((set_enums options value old).1 ≡ none
        → ((set_enums options value old).0 ≡ old ++ split_commas value)
          × All (λ item. is_included item options ≡ true) (split_commas value))
      × (is_some (set_enums options value old).1 ≡ true → (set_enums options value old).0 ≡ old)
unfolding set_enums
set_enums-All options value old = elim (Bool-cases (all_included options (split_commas value))) [
  | inl e ↦
      rw e
        (λ _. (refl, all_included-All options (split_commas value) e), λ bad. ground (arith, bad))
  | inr e ↦ rw e (λ good. ground (arith, good), λ _. refl)
]
