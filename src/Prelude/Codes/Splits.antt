-- ===== src/Prelude/Codes/Splits.antt =====
-- Texts that are split at a character.
use bitbucket_cli.Prelude.{ℕ, zero, suc, ◌≡◌, ◌≢◌, refl, false, ◌||◌, [], ◌∷◌, ◌++◌, arith}
use bitbucket_cli.Prelude.Codes.{Text, has_code, split_n, trim_left}

-- The separator ends the first part, where the part does not hold it.
pub split_n-append :
    (x n : ℕ) (s t : Text)
    → has_code x s ≡ false
    → split_n x (suc n) (s ++ x ∷ t) ≡ s ∷ split_n x n t
split_n-append x n [] t h = ground arith
split_n-append x n (c ∷ s) t h = ground (arith, h, split_n-append x n s t)

pub split_n_whole : (x n : ℕ) (s : Text) → has_code x s ≡ false → split_n x n s ≡ s ∷ []
split_n_whole x zero s h = refl
split_n_whole x (suc n) [] h = refl
split_n_whole x (suc n) (c ∷ s) h = ground (arith, h, split_n_whole x (suc n) s)

pub has_code-append : (x : ℕ) (s t : Text) → has_code x (s ++ t) ≡ (has_code x s || has_code x t)
has_code-append x [] t = refl
has_code-append x (c ∷ s) t = ground (arith, has_code-append x s t)

pub trim_left-append :
    (x : ℕ) (s t : Text) → has_code x s ≡ false → s ≢ [] → trim_left x (s ++ t) ≡ s ++ t
trim_left-append x [] t h ne = absurd (ne refl)
trim_left-append x (c ∷ s) t h ne = ground (arith, h)
