-- ===== src/Prelude/Codes/Laws.antt =====
-- Equality, prefixes and suffixes of lists of code points.
use bitbucket_cli.Prelude.{
  ℕ, suc, ◌+◌, ◌≡◌, ◌≢◌, ◌↔◌, refl, sym, ap, inl, inr, true, false, [], ◌∷◌, ◌++◌, leb, nat_eq,
  if◌then◌else◌, length, drop, length-append, Bool-cases, Bool-ext, subst, arith,
}
use bitbucket_cli.Prelude.Codes.{
  Text, text_eq, has_prefix, trim_suffix, trim_right, with_head, has_code,
}

pub text_eq_refl : (s : Text) → text_eq s s ≡ true
text_eq_refl [] = refl
text_eq_refl (c ∷ s) = ground (arith, text_eq_refl s)

pub eq_of_text_eq : (s t : Text) → text_eq s t ≡ true → s ≡ t
eq_of_text_eq [] [] e = refl
eq_of_text_eq [] (d ∷ t) e = ground (arith, e)
eq_of_text_eq (c ∷ s) [] e = ground (arith, e)
eq_of_text_eq (c ∷ s) (d ∷ t) e = ground (arith, e, eq_of_text_eq s t)

length-text_eq : (s t : Text) → length s ≢ length t → text_eq s t ≡ false
length-text_eq s t h = elim (Bool-cases (text_eq s t)) [
  | inl same ↦ absurd (h (ap length (eq_of_text_eq s t same)))
  | inr other ↦ other
]

pub trim_suffix-append : (s t : Text) → t ≢ [] → trim_suffix (s ++ t) t ≡ s
trim_suffix-append [] [] h = refl
trim_suffix-append [] (d ∷ t) h = ground (arith, text_eq_refl t)
trim_suffix-append (c ∷ s) t h = ground (
  arith,
  length-text_eq (c ∷ s ++ t) t (ground (arith, length-append s t)),
  trim_suffix-append s t h,
)

-- How often a character stands in a text.
abbrev pub occurrences : ℕ → Text → ℕ
occurrences x [] = 0
occurrences x (c ∷ s) = let rest = occurrences x s in if nat_eq c x then suc rest else rest

pub occurrences-append :
    (x : ℕ) (s t : Text) → occurrences x (s ++ t) ≡ occurrences x s + occurrences x t
occurrences-append x [] t = ground arith
occurrences-append x (c ∷ s) t = ground (arith, occurrences-append x s t)

pub occurrences-none : (x : ℕ) (s : Text) → has_code x s ≡ false → occurrences x s ≡ 0
occurrences-none x [] h = refl
occurrences-none x (c ∷ s) h = ground (arith, h, occurrences-none x s)

occurrences-prefix :
    (x : ℕ) (s t : Text) → has_prefix s t ≡ true → (leb (occurrences x t) (occurrences x s)) ≡ true
occurrences-prefix x s [] h = ground arith
occurrences-prefix x [] (d ∷ t) h = ground (arith, h)
occurrences-prefix x (c ∷ s) (d ∷ t) h = ground (arith, h, occurrences-prefix x s t)

-- A text with fewer occurrences of a character has no prefix with more.
pub not_prefix :
    (x : ℕ) (s t : Text) → leb (occurrences x t) (occurrences x s) ≡ false → has_prefix s t ≡ false
not_prefix x s t h = elim (Bool-cases (has_prefix s t)) [
  | inl e ↦ ground (arith, h, occurrences-prefix x s t e)
  | inr e ↦ e
]

pub trim_right-append :
    (x : ℕ) (s : Text) (d : ℕ) (t : Text)
    → trim_right x (d ∷ t) ≡ d ∷ t
    → trim_right x (s ++ d ∷ t) ≡ s ++ d ∷ t
trim_right-append x [] d t h = h
trim_right-append x (c ∷ []) d t h = ap (with_head x c) h
trim_right-append x (c ∷ c' ∷ s) d t h = ap (with_head x c) (trim_right-append x (c' ∷ s) d t h)

-- Equality up to the case of letters is equality of the lower case texts.
pub text_eq_iff : (s t : Text) → (text_eq s t ≡ true) ↔ (s ≡ t)
text_eq_iff s t = (eq_of_text_eq s t, λ e. subst (λ r. text_eq s r ≡ true) e (text_eq_refl s))

pub text_eq_sym : (s t : Text) → text_eq s t ≡ text_eq t s
text_eq_sym s t =
    Bool-ext (text_eq s t) (text_eq t s) (λ e. (text_eq_iff t s).1 (sym ((text_eq_iff s t).0 e)))
      (λ e. (text_eq_iff s t).1 (sym ((text_eq_iff t s).0 e)))

pub has_prefix-append : (s t : Text) → has_prefix (s ++ t) s ≡ true
has_prefix-append [] t = refl
has_prefix-append (c ∷ s) t = ground (arith, has_prefix-append s t)

pub drop-append : (s t : Text) → drop (length s) (s ++ t) ≡ t
drop-append [] t = refl
drop-append (c ∷ s) t = drop-append s t
