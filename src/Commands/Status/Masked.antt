-- ===== src/Commands/Status/Masked.antt =====
-- pkg/cmd/auth/status/status.go: what a masked token shows.
use bitbucket_cli.Prelude.{◌≡◌, refl, ap, false, some, [], ◌∷◌, ◌++◌, nat_eq, length, take, arith}
use bitbucket_cli.Prelude.Codes.{Text, has_code, colon}
use bitbucket_cli.Commands.Status.{cut_colon, after_code, mask_rest, mask_parts, mask_token}

cut_colon-append :
    (email rest : Text)
    → has_code colon email ≡ false
    → cut_colon (email ++ colon ∷ rest) ≡ some (email, rest)
unfolding cut_colon after_code
cut_colon-append [] rest h = refl
cut_colon-append (c ∷ email) rest h =
    let other : nat_eq c colon ≡ false = ground (arith, h) in
    let later : has_code colon email ≡ false = ground (arith, h) in
    rw (other, cut_colon-append email rest later) refl

mask_rest-same :
    (s t : Text) → length s ≡ length t → take 4 s ≡ take 4 t → mask_rest s ≡ mask_rest t
unfolding mask_rest
mask_rest-same s t l h = rw (l, h) refl

-- What `maskToken` shows of a token of an email and a secret: two tokens with the same email whose
-- secrets have the same length and the same first four characters are shown alike.
pub mask_token-same :
    (email secret secret' : Text)
    → has_code colon email ≡ false
    → length secret ≡ length secret'
    → take 4 secret ≡ take 4 secret'
    → mask_token (email ++ colon ∷ secret) ≡ mask_token (email ++ colon ∷ secret')
unfolding mask_token mask_parts
mask_token-same email secret secret' plain l h =
    rw (cut_colon-append email secret plain, cut_colon-append email secret' plain)
      (ap (λ r. email ++ colon ∷ r) (mask_rest-same secret secret' l h))
