-- ===== src/Commands/Status/Wanted.antt =====
-- pkg/cmd/auth/status/status.go: the hosts and the tokens that a run must verify, written out.
use bitbucket_cli.Prelude.{
  ℕ, arith, ◌∙◌, Bool, ◌||◌, ◌==◌, map, map-append, map-map, filter, if◌then◌else◌, eq_iff, String,
  ◌≡◌, ◌≢◌, refl, ap, false, true, ◌&&◌, not, Option, none, some, List, [], ◌∷◌, ◌++◌, nat_eq,
  Bool-cases, inl, inr, contains, ◌!=◌,
}
use bitbucket_cli.Prelude.Codes.{Text, codes, equal_fold, has_code, colon}
use bitbucket_cli.Prelude.Texts.{has_suffix}
use bitbucket_cli.External.{Platform}
use bitbucket_cli.World.{World}
use bitbucket_cli.Auth.{AuthConfig, active_token, active_user, users_for_host, token_for_user}
use bitbucket_cli.Api.{Request}
use bitbucket_cli.PullRequest.Fetched.{nat_eq-true}
use bitbucket_cli.Commands.Status.{
  Account, StatusLib, StatusOptions, cut_colon, after_code, has_infix, user_or_blank,
  token_or_blank, active_account, other_account, host_accounts, chosen, accounts_of, is_none_of,
}

-- The hosts that the options choose: of the known ones, those that are not GitHub's, and only the one
-- of the option where it has one.
abbrev pub chosen_hosts : StatusOptions → List String → List String
chosen_hosts opts known =
    filter (λ h. opts.hostname == "" || opts.hostname == h)
      (filter (λ h. not (has_infix (codes h) (codes "github.com"))) known)

module _ {P : Platform} (c : AuthConfig) (w : World P) where
  -- The user of the active account, where its token is not from the environment.
  abbrev pub active_name : String → String
  active_name hostname =
      if not (has_suffix (active_token c w hostname).1 "_TOKEN")
      then user_or_blank (active_user w hostname)
      else ""

  -- The hosts and tokens that must be verified: for each host that of its active account and, unless
  -- only those are asked for, that of every other user, which is empty where there is none.
  abbrev pub wanted_at : Bool → String → List (String × Text)
  wanted_at only_active hostname =
      (hostname, codes (active_token c w hostname).0)
      ∷ (if only_active
          then []
          else map (λ user. (hostname, codes (token_or_blank (token_for_user w hostname user)).0))
              (filter (λ user. user != active_name hostname) (users_for_host w hostname)))

  abbrev pub wanted : Bool → List String → List (String × Text)
  wanted only_active [] = []
  wanted only_active (h ∷ rest) = wanted_at only_active h ++ wanted only_active rest

abbrev pub verified_of : Account → String × Text
verified_of a = (a.hostname, a.token)

abbrev pub accounts_in : List (String × List Account) → List Account
accounts_in [] = []
accounts_in ((host, accounts) ∷ rest) = accounts ++ accounts_in rest

-- The request that verifies a token, written out.
abbrev pub user_asked : StatusLib → String → Text → Text → Request
user_asked lib hostname email secret = record {
  method = "GET";
  url =
      (if equal_fold (codes hostname) (codes "bitbucket.org")
        then codes "https://api.bitbucket.org/2.0/"
        else codes "https://api." ++ codes hostname ++ codes "/2.0/")
      ++ codes "user";
  headers = ("Authorization", lib.basic_auth email secret) ∷ ("Accept", "application/json") ∷ [];
  body = none;
}

-- What is cut at the first colon.
abbrev pub IsCut : Text → Option (Text × Text) → Type 0
IsCut t none = Unit
IsCut t (some (email, secret)) = (t ≡ email ++ colon ∷ secret) × (has_code colon email ≡ false)

after_code-IsCut :
    (c : ℕ) (s : Text) (o : Option (Text × Text))
    → nat_eq c colon ≡ false
    → IsCut s o
    → IsCut (c ∷ s) (after_code c o)
unfolding after_code
after_code-IsCut c s none e h = tt
after_code-IsCut c s (some (email, secret)) e (p, q) = (ap (λ t. c ∷ t) p, ground (arith, e, q))

pub cut_colon-IsCut : (t : Text) → IsCut t (cut_colon t)
unfolding cut_colon
cut_colon-IsCut [] = tt
cut_colon-IsCut (c ∷ s) = elim (Bool-cases (nat_eq c colon)) [
  | inl e ↦ rw e (ap (λ d. d ∷ s) (nat_eq-true c colon e), refl)
  | inr e ↦ rw e (after_code-IsCut c s (cut_colon s) e (cut_colon-IsCut s))
]

filter-member :
    (hostname : String) (l : List String) → contains l hostname ≡ true → chosen hostname l ≢ []
filter-member hostname [] h = absurd (cc)
filter-member hostname (x ∷ l) h = elim (Bool-cases (hostname == "" || hostname == x)) [
  | inl e ↦ rw e (λ q. ground (arith, q))
  | inr e ↦
      rw e (filter-member hostname l (ground (arith, h, e, eq_iff x hostname, eq_iff hostname x)))
]

-- Where the checks of the run pass, some host is chosen.
pub chosen-ne-nil :
    (hostname : String) (l : List String)
    → is_none_of l ≡ false
    → (hostname != "" && not (contains l hostname)) ≡ false
    → chosen hostname l ≢ []
chosen-ne-nil hostname [] h k = absurd (cc)
chosen-ne-nil hostname (x ∷ l) h k = elim (Bool-cases (hostname == "")) [
  | inl e ↦ rw e (λ q. ground (arith, q))
  | inr e ↦ filter-member hostname (x ∷ l) (ground (arith, k, e))
]

module _ {P : Platform} (c : AuthConfig) (w : World P) where
  wanted_at-accounts :
      (only_active : Bool) (hostname : String)
      → map verified_of (host_accounts c w only_active hostname)
        ≡ wanted_at c w only_active hostname
  unfolding host_accounts active_account other_account
  wanted_at-accounts true hostname = refl
  wanted_at-accounts false hostname =
      ap (λ l. (hostname, codes (active_token c w hostname).0) ∷ l)
        (map-map verified_of (other_account w hostname)
          (filter (λ user. user != active_name c w hostname) (users_for_host w hostname)))

  pub wanted-accounts :
      (opts : StatusOptions) (hosts : List String)
      → map verified_of (accounts_in (accounts_of c w opts hosts)) ≡ wanted c w opts.active hosts
  wanted-accounts opts [] = refl
  wanted-accounts opts (h ∷ rest) =
      map-append verified_of (host_accounts c w opts.active h)
        (accounts_in (accounts_of c w opts rest))
      ∙ ap (λ l. l ++ map verified_of (accounts_in (accounts_of c w opts rest)))
          (wanted_at-accounts opts.active h)
      ∙ ap (λ l. wanted_at c w opts.active h ++ l) (wanted-accounts opts rest)
