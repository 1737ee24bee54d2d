-- ===== src/Repo/Same.antt =====
-- internal/bbrepo/repo.go: when two repositories are the same.
use bitbucket_cli.Prelude.{◌≡◌, ◌↔◌, refl, sym, ◌∙◌, true, arith}
use bitbucket_cli.Prelude.Codes.{to_lower}
use bitbucket_cli.Prelude.Codes.Laws.{text_eq_iff}
use bitbucket_cli.Repo.{Repo, normalize_hostname, is_same}

-- What two spellings of a repository have in common.
pub record SameKey (a b : Repo) : Type 0 where
  pub workspace : to_lower a.workspace ≡ to_lower b.workspace
  pub slug : to_lower a.slug ≡ to_lower b.slug
  pub hostname : normalize_hostname a.hostname ≡ normalize_hostname b.hostname

-- `IsSame` answers true just when workspace and slug are equal in lower case and the hosts are equal
-- once normalised.
pub is_same_iff : (a b : Repo) → (is_same a b ≡ true) ↔ SameKey a b
unfolding is_same
is_same_iff a b = (
  λ e. record {
    workspace = (text_eq_iff (to_lower a.workspace) (to_lower b.workspace)).0 (ground (arith, e));
    slug = (text_eq_iff (to_lower a.slug) (to_lower b.slug)).0 (ground (arith, e));
    hostname =
        (text_eq_iff (normalize_hostname a.hostname) (normalize_hostname b.hostname)).0
          (ground (arith, e));
  },
  λ k. ground (
    arith,
    (text_eq_iff (to_lower a.workspace) (to_lower b.workspace)).1 k.workspace,
    (text_eq_iff (to_lower a.slug) (to_lower b.slug)).1 k.slug,
    (text_eq_iff (normalize_hostname a.hostname) (normalize_hostname b.hostname)).1 k.hostname,
  ),
)

-- `IsSame` is an equivalence: every repository is the same as itself, and the sameness of two goes
-- both ways and carries over to a third.
pub is_same_equivalence :
    (a b c : Repo)
    → (is_same a a ≡ true)
      × (is_same a b ≡ true → is_same b a ≡ true)
      × (is_same a b ≡ true → is_same b c ≡ true → is_same a c ≡ true)
is_same_equivalence a b c = (
  (is_same_iff a a).1 (record { workspace = refl; slug = refl; hostname = refl }),
  λ e.
      let k = (is_same_iff a b).0 e in
      (is_same_iff b a).1
        (record { workspace = sym k.workspace; slug = sym k.slug; hostname = sym k.hostname }),
  λ e f.
      let k = (is_same_iff a b).0 e in
      let l = (is_same_iff b c).0 f in
      (is_same_iff a c).1 (record {
        workspace = k.workspace ∙ l.workspace;
        slug = k.slug ∙ l.slug;
        hostname = k.hostname ∙ l.hostname;
      }),
)
