-- ===== src/CommandLine/Expansion/Placeholders.antt =====
-- pkg/cmd/root/alias.go: expandAlias puts each argument in the places of its number.
use bitbucket_cli.Prelude.{
  ℕ, zero, suc, ◌+◌, ◌-◌, ◌≤◌, ◌<◌, ◌≡◌, refl, ap, sym, ◌∙◌, ◌⊎◌, false, true, Option, some, List,
  [], ◌∷◌, ◌++◌, ltb, drop, length, All, Bool-cases, inl, inr, arith,
}
use bitbucket_cli.Prelude.Codes.{Text, has_code}
use bitbucket_cli.Prelude.Codes.Splits.{has_code-append}
use bitbucket_cli.CommandLine.{fine, bad, not_enough_arguments}
use bitbucket_cli.CommandLine.Expansion.{
  dollar, place_arguments, is_lingering, with_rest, expand_alias,
}
use bitbucket_cli.CommandLine.Expansion.Arguments.{place_plain}
use bitbucket_cli.CommandLine.Expansion.Pieces.{
  Piece, plain, place, expansion_of, nth, filled, used, IsPlain, From, fill, digit_shown,
  replace_written, fill-IsPlain, fill-From, used-fill, dollar-used, From-used, filled_from,
  filled_none, filled-fill, used_none,
}

drop_none : (n : ℕ) → ◌≡◌ {A = List Text} (drop n []) []
drop_none zero = refl
drop_none (suc n) = refl

drop_step :
    (i m n : ℕ) (a : Text) (args : List Text)
    → m - suc i ≡ n - suc i
    → i < n
    → drop (m - suc i) args ≡ drop (n - i) (a ∷ args)
drop_step i m n a args h less =
    let one_more : suc (n - suc i) ≡ n - i = omega (arith, less) in
    ap (λ k. drop k args) h ∙ ap (λ k. drop k (a ∷ args)) one_more

place_written :
    (i : ℕ) (l : List Piece) (args : List Text)
    → IsPlain l
    → From i l
    → used l ≤ 9
    → used l ≤ i + length args
    → All (λ a. has_code dollar a ≡ false) args
    → place_arguments i (expansion_of l) args ≡ (filled_from i args l, drop (used l - i) args)
unfolding place_arguments
place_written i l [] p f nine enough free =
    let none_left : used l ≡ 0 = used_none i l f (omega (arith, enough)) in
    rw (filled_none i [] l none_left, none_left)
      (ap (λ r. (expansion_of l, r)) (sym (drop_none (0 - i))))
place_written i l (a ∷ args) p f nine enough (q, free) =
    elim (Bool-cases (has_code dollar (expansion_of l))) [
      | inl e ↦
          let some_left : 0 < used l = ground (arith, e, dollar-used l p) in
          let more = From-used i l f some_left in
          let same = used-fill i a l f in
          rw (e, digit_shown i (omega (arith, more, nine)), replace_written i a l p)
            (place_written (suc i) (fill i a l) args (fill-IsPlain i a l q p) (fill-From i a l f)
                (omega (arith, same, more, nine)) (omega (arith, same, more, enough)) free
              ∙ (λ j. (
                filled-fill i a args l f j,
                drop_step i (used (fill i a l)) (used l) a args same more j,
              )))
      | inr e ↦
          let none_left : used l ≡ 0 = ground (arith, e, dollar-used l p) in
          let no_more : used l - i ≡ 0 = omega (arith, none_left) in
          rw
            (
              place_plain i (expansion_of l) (a ∷ args) e,
              filled_none i (a ∷ args) l none_left,
              no_more,
            )
            refl
    ]

free_nth :
    (k : ℕ) (args : List Text)
    → All (λ a. has_code dollar a ≡ false) args
    → has_code dollar (nth k args) ≡ false
free_nth k [] h = refl
free_nth zero (a ∷ args) (q, h) = q
free_nth (suc k) (a ∷ args) (q, h) = free_nth k args h

filled_free :
    (args : List Text) (l : List Piece)
    → IsPlain l
    → All (λ a. has_code dollar a ≡ false) args
    → has_code dollar (filled args l) ≡ false
filled_free args [] p h = refl
filled_free args (plain t ∷ rest) (q, p) h =
    ground (arith, q, has_code-append dollar t (filled args rest), filled_free args rest p h)
filled_free args (place k ∷ rest) p h = ground (
  arith,
  free_nth k args h,
  has_code-append dollar (nth k args) (filled args rest),
  filled_free args rest p h,
)

free_lingering : (t : Text) → has_code dollar t ≡ false → is_lingering t ≡ false
unfolding is_lingering
free_lingering [] h = refl
free_lingering (c ∷ t) h = ground (arith, h, free_lingering t (ground (arith, h)))

filled_zero : (args : List Text) (l : List Piece) → filled_from 0 args l ≡ filled args l
filled_zero args [] = refl
filled_zero args (plain t ∷ rest) = ap (λ s. t ++ s) (filled_zero args rest)
filled_zero args (place k ∷ rest) =
    ap (λ n. nth n args ++ filled_from 0 args rest) (omega arith)
    ∙ ap (λ s. nth k args ++ s) (filled_zero args rest)

all_used : (l : List Piece) → used l - 0 ≡ used l
all_used l = omega arith

From-zero : (l : List Piece) → From 0 l
From-zero [] = tt
From-zero (plain t ∷ rest) = From-zero rest
From-zero (place k ∷ rest) = (ground arith, From-zero rest)

lingering-append : (t s : Text) → is_lingering s ≡ true → is_lingering (t ++ s) ≡ true
unfolding is_lingering
lingering-append [] s h = h
lingering-append (c ∷ t) s h = ground (arith, lingering-append t s h)

-- A place that is left lingers.
lingering_used : (l : List Piece) → 0 < used l → used l ≤ 9 → is_lingering (expansion_of l) ≡ true
unfolding is_lingering
lingering_used [] h nine = absurd (ground (arith, h))
lingering_used (plain t ∷ rest) h nine =
    lingering-append t (expansion_of rest) (lingering_used rest h nine)
lingering_used (place k ∷ rest) h nine = ground (arith, nine)

place_short :
    (i : ℕ) (l : List Piece) (args : List Text)
    → IsPlain l
    → From i l
    → used l ≤ 9
    → i + length args < used l
    → All (λ a. has_code dollar a ≡ false) args
    → is_lingering (place_arguments i (expansion_of l) args).0 ≡ true
unfolding place_arguments
place_short i l [] p f nine short free = lingering_used l (omega (arith, short)) nine
place_short i l (a ∷ args) p f nine short (q, free) =
    let dollar_left : has_code dollar (expansion_of l) ≡ true =
      ground (arith, dollar-used l p, short) in
    let same = used-fill i a l f in
    rw (dollar_left, digit_shown i (omega (arith, short, nine)), replace_written i a l p)
      (place_short (suc i) (fill i a l) args (fill-IsPlain i a l q p) (fill-From i a l f)
        (omega (arith, same, short, nine)) (omega (arith, same, short)) free)

expand_enough :
    (split : Text → Option (List Text)) (l : List Piece) (args words : List Text)
    → IsPlain l
    → used l ≤ 9
    → All (λ a. has_code dollar a ≡ false) args
    → split (filled args l) ≡ some words
    → used l ≤ length args
    → expand_alias split (expansion_of l) args ≡ fine (words ++ drop (used l) args)
unfolding expand_alias with_rest
expand_enough split l args words p nine free read enough =
    let placed : place_arguments 0 (expansion_of l) args ≡ (filled args l, drop (used l) args) =
      place_written 0 l args p (From-zero l) nine (omega (arith, enough)) free
      ∙ (λ j. (filled_zero args l j, drop (all_used l j) args)) in
    rw (placed, free_lingering (filled args l) (filled_free args l p free), read) refl

expand_short :
    (split : Text → Option (List Text)) (l : List Piece) (args : List Text)
    → IsPlain l
    → used l ≤ 9
    → All (λ a. has_code dollar a ≡ false) args
    → length args < used l
    → (t : Text) × (expand_alias split (expansion_of l) args ≡ bad (not_enough_arguments t))
unfolding expand_alias
expand_short split l args p nine free short = (
  (place_arguments 0 (expansion_of l) args).0,
  rw (place_short 0 l args p (From-zero l) nine (omega (arith, short)) free) refl,
)

-- An expansion of plain text, which has no dollar, and of the places `$1` to `$9`, with arguments that
-- have no dollar: where there are as many arguments as the highest place has, `expandAlias` gives
-- the words of the text that has each argument in the places of its number, and then, as they are,
-- the arguments after that of the highest place; where there are fewer it fails, since there are not
-- enough arguments. The words are those that shlex splits the filled text into.
pub expand_alias-places :
    (split : Text → Option (List Text)) (l : List Piece) (args words : List Text)
    → IsPlain l
    → used l ≤ 9
    → All (λ a. has_code dollar a ≡ false) args
    → split (filled args l) ≡ some words
    → ((used l ≤ length args)
        × (expand_alias split (expansion_of l) args ≡ fine (words ++ drop (used l) args)))
      ⊎ ((length args < used l)
          × (t : Text) × (expand_alias split (expansion_of l) args ≡ bad (not_enough_arguments t)))
expand_alias-places split l args words p nine free read =
    elim (Bool-cases (ltb (length args) (used l))) [
      | inl e ↦
          let short : length args < used l = ground (arith, e) in
          let (t, failed) = expand_short split l args p nine free short in inr (short, t, failed)
      | inr e ↦
          let enough : used l ≤ length args = ground (arith, e) in
          inl (enough, expand_enough split l args words p nine free read enough)
    ]
