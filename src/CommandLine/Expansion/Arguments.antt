-- ===== src/CommandLine/Expansion/Arguments.antt =====
-- pkg/cmd/root/alias.go: what expandAlias makes of an expansion without placeholders.
use bitbucket_cli.Prelude.{
  ℕ, suc, ◌≡◌, refl, false, true, Option, some, List, [], ◌∷◌, ◌++◌, nat_eq, Bool-cases, inl, inr,
  arith, if◌then◌else◌,
}
use bitbucket_cli.Prelude.Codes.{Text, text_eq, has_prefix, has_code}
use bitbucket_cli.Prelude.Decimal.{show_nat, show_nat-all_digits, show_nat-ne-nil, all_digits}
use bitbucket_cli.CommandLine.{fine}
use bitbucket_cli.CommandLine.Expansion.{
  replace_from, dollar, placeholder, place_arguments, digit_first, is_lingering, with_rest,
  expand_alias,
}

-- Without a dollar every argument is left.
pub place_plain :
    (i : ℕ) (expansion : Text) (args : List Text)
    → has_code dollar expansion ≡ false
    → place_arguments i expansion args ≡ (expansion, args)
unfolding place_arguments
place_plain i expansion [] h = refl
place_plain i expansion (a ∷ args) h = rw (h, place_plain (suc i) expansion args h) refl

digits_prefix :
    (s d : Text)
    → text_eq d [] ≡ false
    → all_digits d ≡ true
    → digit_first s ≡ false
    → has_prefix s d ≡ false
digits_prefix s [] ne h k = absurd (cc)
digits_prefix [] (e ∷ d) ne h k = refl
digits_prefix (c ∷ s) (e ∷ d) ne h k = ground (arith, h, k)

-- A text without a placeholder stays as it is.
replace_none :
    (i : ℕ) (a s : Text) → is_lingering s ≡ false → replace_from (placeholder i) a 0 s ≡ s
unfolding replace_from is_lingering
replace_none i a [] h = refl
replace_none i a (c ∷ s) h = elim (Bool-cases (nat_eq c dollar)) [
  | inl e ↦
      let later : is_lingering s ≡ false = ground (arith, e, h) in
      let first : digit_first s ≡ false = ground (arith, e, h) in
      rw
        (
          e,
          digits_prefix s (show_nat (suc i)) (show_nat-ne-nil (suc i)) (show_nat-all_digits (suc i))
              first,
          replace_none i a s later,
        )
        refl
  | inr e ↦
      let later : is_lingering s ≡ false = ground (arith, e, h) in
      rw (e, replace_none i a s later) refl
]

place_dropped :
    (i : ℕ) (expansion : Text) (args : List Text)
    → has_code dollar expansion ≡ true
    → is_lingering expansion ≡ false
    → place_arguments i expansion args ≡ (expansion, [])
unfolding place_arguments
place_dropped i expansion [] h k = refl
place_dropped i expansion (a ∷ args) h k =
    rw (h, replace_none i a expansion k) (place_dropped (suc i) expansion args h k)

-- Without a dollar in the expansion `expandAlias` gives its words and then all arguments; with a
-- dollar and no placeholder it gives the words alone, whatever the arguments.
pub expand_alias-arguments :
    (split : Text → Option (List Text)) (expansion : Text) (args words : List Text)
    → is_lingering expansion ≡ false
    → split expansion ≡ some words
    → expand_alias split expansion args
      ≡ fine (words ++ (if has_code dollar expansion then [] else args))
unfolding expand_alias with_rest
expand_alias-arguments split expansion args words none_left read =
    elim (Bool-cases (has_code dollar expansion)) [
      | inl e ↦ rw (e, place_dropped 0 expansion args e none_left, none_left, read) refl
      | inr e ↦ rw (e, place_plain 0 expansion args e, none_left, read) refl
    ]
