-- ===== src/Selector/RoundTrip.antt =====
-- pkg/cmd/pr/shared and pkg/cmd/pipeline/shared: the page of a pull request or a pipeline names it.
use bitbucket_cli.Prelude.{ℕ, String, ◌≡◌, ◌≢◌, refl, false, true, some, [], ◌∷◌, ◌++◌, leb, arith}
use bitbucket_cli.Prelude.Codes.{Text, codes, has_code, slash}
use bitbucket_cli.Prelude.Codes.Laws.{has_prefix-append, drop-append}
use bitbucket_cli.Prelude.Decimal.{
  pos, all_digits, max_int, atoi, syntax_error, show_nat, show_nat-all_digits, show_nat-ne-nil,
  atoi-show_nat,
}
use bitbucket_cli.Prelude.Result.{ok}
use bitbucket_cli.Repo.{Repo, new_with_host, https_prefix}
use bitbucket_cli.Selector.{
  until_slash, segment, leading_digits, numbered, after_protocol, match_url, parse_arg, pr_path,
  pipeline_path, parse_pr_arg, parse_pipeline_arg,
}

pub until_slash-append :
    (s t : Text) → has_code slash s ≡ false → until_slash (s ++ slash ∷ t) ≡ some (s, t)
unfolding until_slash
until_slash-append [] t h = refl
until_slash-append (c ∷ s) t h = ground (arith, until_slash-append s t)

pub segment-append :
    (s t : Text) → has_code slash s ≡ false → s ≢ [] → segment (s ++ slash ∷ t) ≡ some (s, t)
unfolding segment
segment-append [] t h ne = absurd (ne refl)
segment-append (c ∷ s) t h ne = rw (segment, until_slash-append (c ∷ s) t h) refl

leading_digits-append :
    (s t : Text) → all_digits s ≡ true → leading_digits t ≡ [] → leading_digits (s ++ t) ≡ s
leading_digits-append [] t h e = e
leading_digits-append (c ∷ s) t h e = ground (arith, leading_digits-append s t)

numbered-append :
    (path : Text) (n : ℕ) (rest : Text)
    → leading_digits rest ≡ []
    → numbered path (path ++ (show_nat n ++ rest)) ≡ some (show_nat n)
unfolding numbered
numbered-append path n rest e = rw (
  has_prefix-append path (show_nat n ++ rest),
  drop-append path (show_nat n ++ rest),
  leading_digits-append (show_nat n) rest (show_nat-all_digits n) e,
  show_nat-ne-nil n,
)

after_https : (s : Text) → after_protocol (https_prefix ++ s) ≡ some s
unfolding after_protocol
after_https s = rw (has_prefix-append https_prefix s, drop-append https_prefix s)

-- The parts of a page's address that hold no slash and are not empty.
pub record IsPart (s : Text) : Type 0 where
  pub no_slash : has_code slash s ≡ false
  pub ne_nil : s ≢ []

-- The page of the number `n` of a repository, with whatever follows.
abbrev pub page : Text → Repo → ℕ → Text → Text
page path r n rest =
    https_prefix
    ++ (r.hostname
        ++ slash ∷ (r.workspace ++ slash ∷ (r.slug ++ slash ∷ (path ++ (show_nat n ++ rest)))))

match_url-page :
    (path : Text) (r : Repo) (n : ℕ) (rest : Text)
    → IsPart r.hostname
    → IsPart r.workspace
    → IsPart r.slug
    → leading_digits rest ≡ []
    → match_url path (page path r n rest)
      ≡ some (record {
        host = r.hostname;
        workspace = r.workspace;
        slug = r.slug;
        digits = show_nat n;
      })
unfolding match_url
match_url-page path r n rest h w s e = rw (
  after_https _,
  segment-append r.hostname _ h.no_slash h.ne_nil,
  segment-append r.workspace _ w.no_slash w.ne_nil,
  segment-append r.slug _ s.no_slash s.ne_nil,
  numbered-append path n rest e,
)

atoi-page :
    (path : Text) (r : Repo) (n : ℕ) (rest : Text) → atoi (page path r n rest) ≡ syntax_error
unfolding atoi codes
atoi-page path r n rest = refl

parse_arg-page :
    (path : Text) (format : String) (r : Repo) (n : ℕ) (rest : Text)
    → IsPart r.hostname
    → IsPart r.workspace
    → IsPart r.slug
    → leading_digits rest ≡ []
    → leb n max_int ≡ true
    → parse_arg path format (page path r n rest)
      ≡ ok (pos n, some (new_with_host r.workspace r.slug r.hostname))
unfolding parse_arg
parse_arg-page path format r n rest h w s e fits =
    rw (atoi-page path r n rest, match_url-page path r n rest h w s e, atoi-show_nat n fits)

-- `ParsePRArg` reads the number and the repository back from the page of a pull request, and
-- `ParsePipelineArg` from that of a pipeline, with whatever follows that does not begin with a digit:
-- where the number is an `int`, and the host, the workspace and the slug are not empty and have no
-- slash.
pub parse_args-page :
    (r : Repo) (n : ℕ) (rest : Text)
    → IsPart r.hostname
    → IsPart r.workspace
    → IsPart r.slug
    → leading_digits rest ≡ []
    → leb n max_int ≡ true
    → (parse_pr_arg (page pr_path r n rest)
        ≡ ok (pos n, some (new_with_host r.workspace r.slug r.hostname)))
      × (parse_pipeline_arg (page pipeline_path r n rest)
          ≡ ok (pos n, some (new_with_host r.workspace r.slug r.hostname)))
unfolding parse_pr_arg parse_pipeline_arg
parse_args-page r n rest h w s e fits = (
  parse_arg-page pr_path "invalid pull request argument: %s" r n rest h w s e fits,
  parse_arg-page pipeline_path "invalid pipeline argument: %s" r n rest h w s e fits,
)
