-- ===== src/Commands/GitHelper/Written.antt =====
-- pkg/cmd/auth/setupgit/setupgit.go: the keys, the git commands and the hosts of a run, written out.
use mathlib.Core.List.{Memᴰ, append_assoc}
use bitbucket_cli.Prelude.{
  Bool, true, false, ◌≢◌, ◌⊎◌, ◌≡◌, refl, ap, sym, not, ◌&&◌, ◌||◌, arith, List, [], ◌∷◌, ◌++◌,
  Bool-cases, inl, inr, if◌then◌else◌,
}
use bitbucket_cli.Prelude.Codes.{
  Text, codes, text_eq, equal_fold, has_prefix, has_code, trim_suffix, slash,
}
use bitbucket_cli.Prelude.Codes.Laws.{trim_suffix-append}
use bitbucket_cli.Github.{GhAuth, github_host_prefix, gist_host, is_garage}
use bitbucket_cli.Commands.GitHelper.{key_for, helper_keys, SetupGitOptions, has_host}

-- The keys of a host, written out: its own and, where their host begins so, that of its gists.
abbrev helper_key : Text → Text
helper_key hostname =
    codes "credential."
    ++ ((if equal_fold hostname (codes "github.localhost")
          then codes "http://"
          else codes "https://")
        ++ hostname)
    ++ codes ".helper"

abbrev gists_of : GhAuth → Text → Text
gists_of auth hostname =
    if equal_fold hostname (codes "garage.github.com")
      || auth.is_enterprise hostname
      || equal_fold hostname (codes "github.localhost")
    then hostname ++ codes "/gist"
    else codes "gist." ++ hostname

abbrev pub keys_of : GhAuth → Text → List Text
keys_of auth hostname =
    helper_key hostname
    ∷ (if has_prefix (gists_of auth hostname) (codes "gist.")
        then helper_key (gists_of auth hostname) ∷ []
        else [])

-- The two commands for each key: the first leaves one blank value, the second adds the program.
abbrev pub quoted : Text → Text
quoted s = if has_code 32 s || has_code 36 s || has_code 92 s then 39 ∷ s ++ 39 ∷ [] else s

abbrev pub key_commands : Text → List Text → List (List Text)
key_commands self [] = []
key_commands self (key ∷ keys) =
    (codes "config" ∷ codes "--global" ∷ codes "--replace-all" ∷ key ∷ [] ∷ [])
    ∷ (codes "config"
        ∷ codes "--global"
        ∷ codes "--add"
        ∷ key
        ∷ (codes "!" ++ quoted self ++ codes " auth git-credential")
        ∷ [])
    ∷ key_commands self keys

abbrev pub host_commands : GhAuth → Text → List Text → List (List Text)
host_commands auth self [] = []
host_commands auth self (hostname ∷ rest) =
    key_commands self (keys_of auth hostname) ++ host_commands auth self rest

trim_slash : (s : Text) → trim_suffix (s ++ slash ∷ []) (slash ∷ []) ≡ s
trim_slash s = trim_suffix-append s (slash ∷ []) (ground arith)

slash_apart : (s : Text) → s ++ codes "/gist/" ≡ (s ++ codes "/gist") ++ slash ∷ []
unfolding codes
slash_apart s = sym (append_assoc s (47 ∷ 103 ∷ 105 ∷ 115 ∷ 116 ∷ []) (slash ∷ []))

key_for-written : (hostname : Text) → key_for hostname ≡ helper_key hostname
unfolding key_for github_host_prefix
key_for-written hostname =
    ap (λ t. codes "credential." ++ t ++ codes ".helper")
      (trim_slash (
        (if equal_fold hostname (codes "github.localhost")
          then codes "http://"
          else codes "https://")
        ++ hostname))

gist_host-written :
    (auth : GhAuth) (hostname : Text)
    → trim_suffix (gist_host auth hostname) (slash ∷ []) ≡ gists_of auth hostname
unfolding gist_host is_garage
gist_host-written auth hostname =
    elim (Bool-cases (
      is_garage hostname
      || auth.is_enterprise hostname
      || equal_fold hostname (codes "github.localhost"))) [
        | inl e ↦ rw (e, slash_apart hostname) (trim_slash (hostname ++ codes "/gist"))
        | inr e ↦ rw e (trim_slash (codes "gist." ++ hostname))
      ]

pub helper_keys-written :
    (auth : GhAuth) (hostname : Text) → helper_keys auth hostname ≡ keys_of auth hostname
unfolding helper_keys
helper_keys-written auth hostname =
    rw
      (
        gist_host-written auth hostname,
        key_for-written hostname,
        key_for-written (gists_of auth hostname),
      )
      refl

-- The hosts that the options ask for: the one of the flag, or else all.
abbrev pub chosen_hosts : Text → List Text → List Text
chosen_hosts hostname hosts = if text_eq hostname [] then hosts else hostname ∷ []

-- Without a host of the option there is one that is logged in; a host of the option is one of those, up
-- to the case of letters, or was forced.
abbrev pub Permitted : SetupGitOptions → List Text → Type 0
Permitted opts hosts =
    ((opts.hostname ≡ []) × (hosts ≢ []))
    ⊎ ((opts.force ≡ true)
        ⊎ ((known : Text) × Memᴰ known hosts × (equal_fold known opts.hostname ≡ true)))

has_host-Memᴰ :
    (needle : Text) (hosts : List Text)
    → has_host needle hosts ≡ true
    → (known : Text) × Memᴰ known hosts × (equal_fold known needle ≡ true)
unfolding has_host
has_host-Memᴰ needle [] h = absurd (cc)
has_host-Memᴰ needle (s ∷ rest) h = elim (Bool-cases (equal_fold s needle)) [
  | inl e ↦ (s, Memᴰ.head refl, e)
  | inr e ↦
      let (known, m, same) = has_host-Memᴰ needle rest (rw e at h) in (known, Memᴰ.tail m, same)
]

pub forced_or_known :
    (force : Bool) (needle : Text) (hosts : List Text)
    → (not force && not (has_host needle hosts)) ≡ false
    → (force ≡ true) ⊎ ((known : Text) × Memᴰ known hosts × (equal_fold known needle ≡ true))
forced_or_known true needle hosts h = inl refl
forced_or_known false needle hosts h = inr (has_host-Memᴰ needle hosts (ground (arith, h)))
