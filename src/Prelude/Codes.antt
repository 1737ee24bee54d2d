-- ===== src/Prelude/Codes.antt =====
-- Texts as lists of code points, and what the code uses of Go's `strings` on them. Letters are those
-- of ASCII.
mod OfString
pub mod Laws
pub mod Splits
unfoldable pub use OfString.{codes}
use bitbucket_cli.Prelude.{
  ℕ, zero, suc, ◌+◌, ◌-◌, Bool, true, false, ◌&&◌, ◌||◌, List, [], ◌∷◌, ◌++◌, map, leb, nat_eq,
  if◌then◌else◌, length, drop,
}

abbrev pub Text : Type 0
Text = List ℕ

abbrev pub text_eq : Text → Text → Bool
text_eq [] [] = true
text_eq [] (d ∷ t) = false
text_eq (c ∷ s) [] = false
text_eq (c ∷ s) (d ∷ t) = nat_eq c d && text_eq s t

-- `strings.HasPrefix`
abbrev pub has_prefix : Text → Text → Bool
has_prefix s [] = true
has_prefix [] (d ∷ t) = false
has_prefix (c ∷ s) (d ∷ t) = nat_eq c d && has_prefix s t

-- `strings.TrimPrefix`
abbrev pub trim_prefix : Text → Text → Text
trim_prefix s t = if has_prefix s t then drop (length t) s else s

-- `strings.TrimSuffix`
abbrev pub trim_suffix : Text → Text → Text
trim_suffix [] t = []
trim_suffix (c ∷ s) t = let rest = trim_suffix s t in if text_eq (c ∷ s) t then [] else c ∷ rest

-- `strings.Trim` with one character.
abbrev pub trim_left : ℕ → Text → Text
trim_left x [] = []
trim_left x (c ∷ s) = let rest = trim_left x s in if nat_eq c x then rest else c ∷ s

abbrev pub with_head : ℕ → ℕ → Text → Text
with_head x c [] = if nat_eq c x then [] else c ∷ []
with_head x c (d ∷ rest) = c ∷ d ∷ rest

abbrev pub trim_right : ℕ → Text → Text
trim_right x [] = []
trim_right x (c ∷ s) = with_head x c (trim_right x s)

abbrev pub trim : ℕ → Text → Text
trim x s = trim_right x (trim_left x s)

-- `strings.ContainsRune`
abbrev pub has_code : ℕ → Text → Bool
has_code x [] = false
has_code x (c ∷ s) = nat_eq c x || has_code x s

abbrev pub to_first : ℕ → List Text → List Text
to_first c [] = []
to_first c (part ∷ parts) = (c ∷ part) ∷ parts

-- `strings.SplitN` at one character, into at most n + 1 parts.
abbrev pub split_n : ℕ → ℕ → Text → List Text
split_n x zero s = s ∷ []
split_n x (suc n) [] = [] ∷ []
split_n x (suc n) (c ∷ s) =
    let after = split_n x n s in
    let within = split_n x (suc n) s in if nat_eq c x then [] ∷ after else to_first c within

-- `strings.ToLower`
abbrev pub lower_code : ℕ → ℕ
lower_code n = if leb 65 n && leb n 90 then n + 32 else n

abbrev pub to_lower : Text → Text
to_lower = map lower_code

-- `strings.EqualFold`
abbrev pub equal_fold : Text → Text → Bool
equal_fold s t = text_eq (to_lower s) (to_lower t)

-- `strings.TrimSpace(s) == ""`, for the white space of Latin-1.
abbrev pub is_space : ℕ → Bool
is_space n = nat_eq n 32 || leb 9 n && leb n 13 || nat_eq n 133 || nat_eq n 160

abbrev pub is_blank : Text → Bool
is_blank [] = true
is_blank (c ∷ s) = is_space c && is_blank s

-- `strings.TrimSpace`
abbrev pub skip_space : Text → Text
skip_space [] = []
skip_space (c ∷ s) = let rest = skip_space s in if is_space c then rest else c ∷ s

abbrev pub trim_space_right : Text → Text
trim_space_right [] = []
trim_space_right (c ∷ s) =
    let rest = trim_space_right s in if is_space c && is_blank s then [] else c ∷ rest

abbrev pub trim_space : Text → Text
trim_space s = trim_space_right (skip_space s)

-- `strings.ToUpper`
abbrev pub upper_code : ℕ → ℕ
upper_code n = if leb 97 n && leb n 122 then n - 32 else n

abbrev pub to_upper : Text → Text
to_upper = map upper_code

-- `/`
abbrev pub slash : ℕ
slash = 47

abbrev pub colon : ℕ
colon = 58
