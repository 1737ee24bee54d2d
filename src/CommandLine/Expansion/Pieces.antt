-- ===== src/CommandLine/Expansion/Pieces.antt =====
-- pkg/cmd/root/alias.go: an expansion as plain text and the places of arguments.
use bitbucket_cli.Prelude.{
  ℕ, zero, suc, ◌+◌, ◌-◌, ◌≤◌, ◌<◌, ◌≡◌, refl, ap, ◌∙◌, false, List, [], ◌∷◌, ◌++◌, nat_eq, ltb,
  Bool-cases, inl, inr, arith, if◌then◌else◌,
}
use bitbucket_cli.Prelude.Codes.{Text, has_code}
use bitbucket_cli.Prelude.Codes.Splits.{has_code-append}
use bitbucket_cli.Prelude.Decimal.{show_nat, digits}
use bitbucket_cli.CommandLine.Expansion.{replace_from, dollar}

-- An expansion as its writer sees it: plain text, and the places of the arguments; `place 0` is `$1`.
pub data Piece : Type 0 where
  plain : Text → Piece
  place : ℕ → Piece

abbrev pub expansion_of : List Piece → Text
expansion_of [] = []
expansion_of (plain t ∷ rest) = t ++ expansion_of rest
expansion_of (place k ∷ rest) = dollar ∷ (49 + k) ∷ expansion_of rest

abbrev pub nth : ℕ → List Text → Text
nth k [] = []
nth zero (a ∷ args) = a
nth (suc k) (a ∷ args) = nth k args

-- The text with every argument in its places.
abbrev pub filled : List Text → List Piece → Text
filled args [] = []
filled args (plain t ∷ rest) = t ++ filled args rest
filled args (place k ∷ rest) = nth k args ++ filled args rest

-- How many arguments have places: the highest number of one.
abbrev pub used : List Piece → ℕ
used [] = 0
used (plain t ∷ rest) = used rest
used (place k ∷ rest) = if ltb k (used rest) then used rest else suc k

-- Plain text has no dollar.
abbrev pub IsPlain : List Piece → Type 0
IsPlain [] = Unit
IsPlain (plain t ∷ rest) = (has_code dollar t ≡ false) × IsPlain rest
IsPlain (place k ∷ rest) = IsPlain rest

-- The loop after `i` arguments: places of the numbers from `i` on are left.
abbrev pub From : ℕ → List Piece → Type 0
From i [] = Unit
From i (plain t ∷ rest) = From i rest
From i (place k ∷ rest) = (i ≤ k) × From i rest

abbrev pub fill : ℕ → Text → List Piece → List Piece
fill i a [] = []
fill i a (plain t ∷ rest) = plain t ∷ fill i a rest
fill i a (place k ∷ rest) = (if nat_eq k i then plain a else place k) ∷ fill i a rest

pub digit_shown : (i : ℕ) → i < 9 → show_nat (suc i) ≡ (49 + i) ∷ []
unfolding show_nat digits
digit_shown i h = ground (arith, h)

-- The replacement of the place of a single digit.
abbrev digit_place : ℕ → Text
digit_place d = dollar ∷ d ∷ []

replace_plain :
    (d : ℕ) (a t s : Text)
    → has_code dollar t ≡ false
    → replace_from (digit_place d) a 0 (t ++ s) ≡ t ++ replace_from (digit_place d) a 0 s
unfolding replace_from
replace_plain d a [] s h = refl
replace_plain d a (c ∷ t) s h = ground (arith, h, replace_plain d a t s (ground (arith, h)))

replace_same :
    (d : ℕ) (a s : Text)
    → replace_from (digit_place d) a 0 (dollar ∷ d ∷ s) ≡ a ++ replace_from (digit_place d) a 0 s
unfolding replace_from
replace_same d a s = ground arith

replace_other :
    (d k : ℕ) (a s : Text)
    → nat_eq (49 + k) d ≡ false
    → replace_from (digit_place d) a 0 (dollar ∷ (49 + k) ∷ s)
      ≡ dollar ∷ (49 + k) ∷ replace_from (digit_place d) a 0 s
unfolding replace_from
replace_other d k a s h = ground (arith, h)

pub replace_written :
    (i : ℕ) (a : Text) (l : List Piece)
    → IsPlain l
    → replace_from (digit_place (49 + i)) a 0 (expansion_of l) ≡ expansion_of (fill i a l)
replace_written i a [] p = unfold replace_from in refl
replace_written i a (plain t ∷ rest) (q, p) =
    replace_plain (49 + i) a t (expansion_of rest) q ∙ ap (λ s. t ++ s) (replace_written i a rest p)
replace_written i a (place k ∷ rest) p = elim (Bool-cases (nat_eq k i)) [
  | inl e ↦
      let same : k ≡ i = ground (arith, e) in
      rw e (
        ap (λ n. replace_from (digit_place (49 + i)) a 0 (dollar ∷ (49 + n) ∷ expansion_of rest))
          same
        ∙ replace_same (49 + i) a (expansion_of rest)
        ∙ ap (λ s. a ++ s) (replace_written i a rest p))
  | inr e ↦ rw e (
      replace_other (49 + i) k a (expansion_of rest) (ground (arith, e))
      ∙ ap (λ s. dollar ∷ (49 + k) ∷ s) (replace_written i a rest p))
]

pub fill-IsPlain :
    (i : ℕ) (a : Text) (l : List Piece)
    → has_code dollar a ≡ false
    → IsPlain l
    → IsPlain (fill i a l)
fill-IsPlain i a [] h p = tt
fill-IsPlain i a (plain t ∷ rest) h (q, p) = (q, fill-IsPlain i a rest h p)
fill-IsPlain i a (place k ∷ rest) h p = elim (Bool-cases (nat_eq k i)) [
  | inl e ↦ rw e (h, fill-IsPlain i a rest h p)
  | inr e ↦ rw e (fill-IsPlain i a rest h p)
]

pub fill-From : (i : ℕ) (a : Text) (l : List Piece) → From i l → From (suc i) (fill i a l)
fill-From i a [] f = tt
fill-From i a (plain t ∷ rest) f = fill-From i a rest f
fill-From i a (place k ∷ rest) (q, f) = elim (Bool-cases (nat_eq k i)) [
  | inl e ↦ rw e (fill-From i a rest f)
  | inr e ↦ rw e (ground (arith, e, q), fill-From i a rest f)
]

-- The arguments that are left once the places of one number are filled.
pub used-fill :
    (i : ℕ) (a : Text) (l : List Piece) → From i l → used (fill i a l) - suc i ≡ used l - suc i
used-fill i a [] f = refl
used-fill i a (plain t ∷ rest) f = used-fill i a rest f
used-fill i a (place k ∷ rest) (q, f) = ground (arith, q, used-fill i a rest f)

-- Where no place is left the expansion has no dollar, and where one is left it has.
pub dollar-used : (l : List Piece) → IsPlain l → has_code dollar (expansion_of l) ≡ ltb 0 (used l)
dollar-used [] p = ground arith
dollar-used (plain t ∷ rest) (q, p) =
    ground (arith, q, has_code-append dollar t (expansion_of rest), dollar-used rest p)
dollar-used (place k ∷ rest) p = ground (arith, dollar-used rest p)

pub From-used : (i : ℕ) (l : List Piece) → From i l → 0 < used l → i < used l
From-used i [] f h = ground (arith, h)
From-used i (plain t ∷ rest) f h = From-used i rest f h
From-used i (place k ∷ rest) (q, f) h = ground (arith, q)

-- What the arguments from `i` on fill.
abbrev pub filled_from : ℕ → List Text → List Piece → Text
filled_from i args [] = []
filled_from i args (plain t ∷ rest) = t ++ filled_from i args rest
filled_from i args (place k ∷ rest) = nth (k - i) args ++ filled_from i args rest

pub filled_none :
    (i : ℕ) (args : List Text) (l : List Piece) → used l ≡ 0 → filled_from i args l ≡ expansion_of l
filled_none i args [] h = refl
filled_none i args (plain t ∷ rest) h = ap (λ s. t ++ s) (filled_none i args rest h)
filled_none i args (place k ∷ rest) h = absurd (ground (arith, h))

pub filled-fill :
    (i : ℕ) (a : Text) (args : List Text) (l : List Piece)
    → From i l
    → filled_from (suc i) args (fill i a l) ≡ filled_from i (a ∷ args) l
filled-fill i a args [] f = refl
filled-fill i a args (plain t ∷ rest) f = ap (λ s. t ++ s) (filled-fill i a args rest f)
filled-fill i a args (place k ∷ rest) (q, f) = elim (Bool-cases (nat_eq k i)) [
  | inl e ↦
      let none_before : k - i ≡ 0 = ground (arith, e) in
      rw (e, none_before) (ap (λ s. a ++ s) (filled-fill i a args rest f))
  | inr e ↦
      let one_more : k - i ≡ suc (k - suc i) = ground (arith, e, q) in
      rw (e, one_more) (ap (λ s. nth (k - suc i) args ++ s) (filled-fill i a args rest f))
]

pub used_none : (i : ℕ) (l : List Piece) → From i l → used l ≤ i → used l ≡ 0
used_none i [] f h = ground arith
used_none i (plain t ∷ rest) f h = used_none i rest f h
used_none i (place k ∷ rest) (q, f) h = absurd (ground (arith, q, h))
