-- ===== src/Prelude/Decimal.antt =====
-- Go's `int` and what the code uses of `strconv` and of `%d`, on lists of code points.
pub use bitbucket_cli.Prelude.Int.{ℤ, pos, negsuc}
use bitbucket_cli.Prelude.{
  ℕ, zero, suc, ◌+◌, ◌-◌, ◌*◌, ◌/◌, ◌%◌, ◌<◌, Bool, true, false, ◌&&◌, ◌||◌, not, [], ◌∷◌, ◌++◌,
  ◌≡◌, refl, ap, ◌∙◌, inl, inr, Bool-cases, ltb, leb, nat_eq, if◌then◌else◌, arith,
}
use bitbucket_cli.Prelude.Codes.{Text, text_eq}

-- The digits of a number, on fuel: one round for each digit.
unfoldable pub digits : ℕ → ℕ → Text
digits zero n = []
digits (suc f) n =
    let more = digits f (n / 10) in if ltb n 10 then (48 + n) ∷ [] else more ++ (48 + n % 10) ∷ []

unfoldable pub show_nat : ℕ → Text
unfolding digits
show_nat n = digits (suc n) n

-- `%d` and `strconv.Itoa`
unfoldable pub show_int : ℤ → Text
unfolding show_nat
show_int (pos n) = show_nat n
show_int (negsuc n) = 45 ∷ show_nat (suc n)

abbrev pub is_digit : ℕ → Bool
is_digit c = leb 48 c && leb c 57

abbrev pub all_digits : Text → Bool
all_digits [] = true
all_digits (c ∷ s) = is_digit c && all_digits s

abbrev pub number : ℕ → Text → ℕ
number n [] = n
number n (c ∷ s) = number (n * 10 + (c - 48)) s

-- The greatest `int` of 64 bits.
abbrev pub max_int : ℕ
max_int = 9223372036854775807

-- `strconv.Atoi`: a value out of range comes back as the nearest `int` beside the error.
pub data Atoi : Type 0 where
  in_range : ℤ → Atoi
  out_of_range : ℤ → Atoi
  syntax_error : Atoi

abbrev pub bounded : Bool → ℕ → Atoi
bounded false n = if leb n max_int then in_range (pos n) else out_of_range (pos max_int)
bounded true n =
    if nat_eq n 0
    then in_range (pos 0)
    else if leb n (max_int + 1)
    then in_range (negsuc (n - 1))
    else out_of_range (negsuc max_int)

abbrev pub unsigned : Bool → Text → Atoi
unsigned negative s =
    if text_eq s [] || not (all_digits s) then syntax_error else bounded negative (number 0 s)

unfoldable pub atoi : Text → Atoi
atoi [] = syntax_error
atoi (c ∷ s) =
    if nat_eq c 43
    then unsigned false s
    else if nat_eq c 45
    then unsigned true s
    else unsigned false (c ∷ s)

-- `num, _ := strconv.Atoi(s)`
abbrev pub atoi_value : Atoi → ℤ
atoi_value (in_range n) = n
atoi_value (out_of_range n) = n
atoi_value syntax_error = pos 0

number-append : (n : ℕ) (s : Text) (c : ℕ) → number n (s ++ c ∷ []) ≡ number n s * 10 + (c - 48)
number-append n [] c = refl
number-append n (d ∷ s) c = number-append (n * 10 + (d - 48)) s c

all_digits-append :
    (s t : Text) → all_digits s ≡ true → all_digits t ≡ true → all_digits (s ++ t) ≡ true
all_digits-append [] t h k = k
all_digits-append (c ∷ s) t h k = ground (arith, all_digits-append s t)

number-digits : (f n : ℕ) → n < f → number 0 (digits f n) ≡ n
unfolding digits
number-digits zero n h = absurd (omega arith)
number-digits (suc f) n h =
    ground (arith, number-digits f (n / 10), number-append 0 (digits f (n / 10)) (48 + n % 10))

digits-all_digits : (f n : ℕ) → all_digits (digits f n) ≡ true
unfolding digits
digits-all_digits zero n = refl
digits-all_digits (suc f) n = ground (
  arith,
  digits-all_digits f (n / 10),
  all_digits-append (digits f (n / 10)) ((48 + n % 10) ∷ []),
)

-- The number of a text of digits is the number that was shown.
pub number-show_nat : (n : ℕ) → number 0 (show_nat n) ≡ n
unfolding show_nat
number-show_nat n = number-digits (suc n) n (omega arith)

pub show_nat-all_digits : (n : ℕ) → all_digits (show_nat n) ≡ true
unfolding show_nat
show_nat-all_digits n = digits-all_digits (suc n) n

-- A number that fits is read from its digits.
pub atoi-all_digits :
    (s : Text)
    → text_eq s [] ≡ false
    → all_digits s ≡ true
    → leb (number 0 s) max_int ≡ true
    → atoi s ≡ in_range (pos (number 0 s))
unfolding atoi
atoi-all_digits [] ne h fits = ground arith
atoi-all_digits (c ∷ s) ne h fits = ground (arith, fits)

digits-ne-nil : (f n : ℕ) → text_eq (digits (suc f) n) [] ≡ false
unfolding digits
digits-ne-nil f n = elim (Bool-cases (ltb n 10)) [
  | inl small ↦ rw small refl
  | inr large ↦ rw large (append-ne-nil (digits f (n / 10)) (48 + n % 10))
]
  where
    append-ne-nil : (s : Text) (c : ℕ) → text_eq (s ++ c ∷ []) [] ≡ false
    append-ne-nil [] c = refl
    append-ne-nil (d ∷ s) c = refl

pub show_nat-ne-nil : (n : ℕ) → text_eq (show_nat n) [] ≡ false
unfolding show_nat
show_nat-ne-nil n = digits-ne-nil n n

pub atoi-show_nat : (n : ℕ) → leb n max_int ≡ true → atoi (show_nat n) ≡ in_range (pos n)
atoi-show_nat n fits =
    atoi-all_digits (show_nat n) (show_nat-ne-nil n) (show_nat-all_digits n)
      (rw (number-show_nat n) fits)
    ∙ ap (λ m. in_range (pos m)) (number-show_nat n)
