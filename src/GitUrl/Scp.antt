-- ===== src/GitUrl/Scp.antt =====
-- git/url.go: the syntax of scp, and the scheme of what is parsed.
use mathlib.Core.Option
use bitbucket_cli.Prelude.{
  ◌≡◌, refl, ap, ◌∙◌, true, false, [], ◌∷◌, ◌++◌, Option, some, arith, inl, inr, Bool-cases,
  Option-cases, subst,
}
use bitbucket_cli.Prelude.Codes.{Text, codes, text_eq, has_code, slash, colon}
use bitbucket_cli.Prelude.Codes.Splits.{has_code-append}
use bitbucket_cli.GitUrl.{
  GitUrl, is_possible_protocol, replace_colon, scp_to_url, plain_scheme, normalize, parse_git_url,
}

replace_colon-append :
    (s t : Text) → has_code colon s ≡ false → replace_colon (s ++ colon ∷ t) ≡ s ++ slash ∷ t
unfolding replace_colon
replace_colon-append [] t h = refl
replace_colon-append (c ∷ s) t h = ground (arith, h, replace_colon-append s t)

scp_to_url-scp :
    (user_host path : Text)
    → is_possible_protocol (user_host ++ colon ∷ path) ≡ false
    → has_code colon user_host ≡ false
    → has_code 92 user_host ≡ false
    → has_code 92 path ≡ false
    → scp_to_url (user_host ++ colon ∷ path) ≡ codes "ssh://" ++ (user_host ++ slash ∷ path)
unfolding scp_to_url
scp_to_url-scp user_host path no_protocol no_colon no_backslash no_backslash' =
    let whole = user_host ++ colon ∷ path in
    let has_colon : has_code colon whole ≡ true =
      has_code-append colon user_host (colon ∷ path) ∙ ground (arith, no_colon) in
    let plain : has_code 92 whole ≡ false =
      has_code-append 92 user_host (colon ∷ path) ∙ ground (arith, no_backslash, no_backslash') in
    rw no_protocol (
      rw has_colon
        (rw plain (ap (λ u. codes "ssh://" ++ u) (replace_colon-append user_host path no_colon))))

-- "git@host:path" is parsed as "ssh://git@host/path", where it does not begin with a protocol, the part
-- before the colon has no other colon, and neither part has a backslash.
pub parse_git_url-scp :
    (parse : Text → Option GitUrl) (user_host path : Text)
    → is_possible_protocol (user_host ++ colon ∷ path) ≡ false
    → has_code colon user_host ≡ false
    → has_code 92 user_host ≡ false
    → has_code 92 path ≡ false
    → parse_git_url parse (user_host ++ colon ∷ path)
      ≡ Option.map normalize (parse (codes "ssh://" ++ (user_host ++ slash ∷ path)))
unfolding parse_git_url
parse_git_url-scp parse user_host path no_protocol no_colon no_backslash no_backslash' =
    ap (λ u. Option.map normalize (parse u))
      (scp_to_url-scp user_host path no_protocol no_colon no_backslash no_backslash')

plain_scheme-plain :
    (scheme : Text)
    → (text_eq (plain_scheme scheme) (codes "git+https") ≡ false)
      × (text_eq (plain_scheme scheme) (codes "git+ssh") ≡ false)
unfolding plain_scheme codes
plain_scheme-plain scheme = elim (Bool-cases (text_eq scheme (codes "git+https"))) [
  | inl e ↦ rw e (refl, refl)
  | inr e ↦ elim (Bool-cases (text_eq scheme (codes "git+ssh"))) [
    | inl f ↦ rw e (rw f (refl, refl))
    | inr f ↦ rw e (rw f (e, f))
  ]
]

normalize-plain :
    (u : GitUrl)
    → (text_eq (normalize u).scheme (codes "git+https") ≡ false)
      × (text_eq (normalize u).scheme (codes "git+ssh") ≡ false)
unfolding normalize
normalize-plain u = elim (Bool-cases (text_eq (plain_scheme u.scheme) (codes "ssh"))) [
  | inl e ↦ rw e (plain_scheme-plain u.scheme)
  | inr e ↦ rw e (plain_scheme-plain u.scheme)
]

-- A URL that `ParseURL` returns has neither of the schemes "git+https" and "git+ssh".
pub parse_git_url-plain :
    (parse : Text → Option GitUrl) (raw_url : Text) (u : GitUrl)
    → parse_git_url parse raw_url ≡ some u
    → (text_eq u.scheme (codes "git+https") ≡ false) × (text_eq u.scheme (codes "git+ssh") ≡ false)
unfolding parse_git_url
parse_git_url-plain parse raw_url u e = elim (Option-cases (parse (scp_to_url raw_url))) [
  | inl absent ↦ ground (arith, e, absent)
  | inr (v, there) ↦
      let same : normalize v ≡ u = ground (arith, e, there) in
      subst
        (λ x.
          (text_eq x.scheme (codes "git+https") ≡ false)
          × (text_eq x.scheme (codes "git+ssh") ≡ false))
        same (normalize-plain v)
]
