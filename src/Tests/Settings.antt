-- ===== src/Tests/Settings.antt =====
-- Settings, aliases, migrations and sets of texts.
use bitbucket_cli.Prelude.{
  String, ◌≡◌, ◌≢◌, ◌↔◌, refl, subst, true, false, [], ◌∷◌, some, arith, eq_iff, contains, All,
  ◌==◌,
}
use bitbucket_cli.Prelude.Result.{ok, err, errorf}
use bitbucket_cli.External.Sample.{sample_platform}
use bitbucket_cli.World.{World}
use bitbucket_cli.Config.{migrate}
use bitbucket_cli.Config.Keys.{hosts_key}
use bitbucket_cli.Config.Options.{options}
use bitbucket_cli.Config.Defaults.{options_read, ReadsSetting}
use bitbucket_cli.Migration.{multi_account, ViewerQuery}
use bitbucket_cli.Migration.Hosts.{PlainHost, MigratedHost, multi_account_done}
use bitbucket_cli.Migration.Secrets.{multi_account-token_from_keyring}
use bitbucket_cli.Auth.{token_from_keyring, token_from_keyring_for_user}
use bitbucket_cli.Aliases.{add_alias}
use bitbucket_cli.StringSet.{StringSet, new_string_set, add_values, contains_value, equal}
use bitbucket_cli.StringSet.Invariant.{new_string_set-IsValid, add_values-IsValid}
use bitbucket_cli.StringSet.Equality.{equal_iff}
use bitbucket_cli.Tests.{start, host, runs}

differ : {s t : String} → (s == t) ≡ false → s ≢ t
differ {s} {t} e same = ground (arith, e, (eq_iff s t).1 same)

options_read_example : All (ReadsSetting start) options
options_read_example = options_read start

-- A configuration of before the migration.
abbrev old : World sample_platform
old = record {
  file =
      sample_platform.config.set
        (sample_platform.config.set [] ("hosts" ∷ host ∷ "user" ∷ []) "alice")
        ("hosts" ∷ host ∷ "oauth_token" ∷ []) "ta";
  disk = [];
  ring = [];
}

abbrev nobody : ViewerQuery
nobody = λ hostname token. err (errorf "no network" [])

abbrev migrated : World sample_platform
migrated = (migrate (multi_account nobody) old).1

old_hosts : sample_platform.config.keys old.file (hosts_key ∷ []) ≡ some (host ∷ [])
unfolding runs
old_hosts = refl

old_PlainHost : PlainHost sample_platform old.file host
unfolding runs
old_PlainHost = record {
  user = "alice";
  token = "ta";
  user_set = refl;
  token_set = refl;
  named = refl;
  not_blank = refl;
}

all_plain : (h : String) → contains (host ∷ []) h ≡ true → PlainHost sample_platform old.file h
all_plain h e =
    let same : host ≡ h = (eq_iff host h).0 (ground (arith, e)) in
    subst (PlainHost sample_platform old.file) same old_PlainHost

multi_account_done_example :
    (f' : sample_platform.config.File) × ((multi_account nobody).run old
      ≡ (ok tt, record old { file = f' }))
    × ((h : String) → contains (host ∷ []) h ≡ true → MigratedHost sample_platform old.file f' h)
multi_account_done_example =
    multi_account_done sample_platform nobody (host ∷ []) old old_hosts all_plain

-- A host's token that the keyring holds under the service of the migration.
abbrev old_secret : World sample_platform
old_secret = record {
  file = sample_platform.config.set [] ("hosts" ∷ host ∷ "user" ∷ []) "alice";
  disk = [];
  ring = ("gh:bitbucket.org", "", "ta") ∷ [];
}

multi_account-token_from_keyring_example :
    (token_from_keyring ((multi_account nobody).run old_secret).1 host
      ≡ token_from_keyring old_secret host)
    × (token_from_keyring_for_user ((multi_account nobody).run old_secret).1 host "alice"
        ≡ token_from_keyring_for_user old_secret host "alice")
multi_account-token_from_keyring_example =
    multi_account-token_from_keyring nobody old_secret host "alice"

abbrev with_alias : World sample_platform
with_alias = (add_alias "co" "pr checkout" start).1

abbrev two : StringSet
two = add_values new_string_set ("a" ∷ "b" ∷ [])

abbrev other_order : StringSet
other_order = add_values new_string_set ("b" ∷ "a" ∷ "b" ∷ [])

equal_iff_example :
    (equal two other_order ≡ true)
    ↔ ((x : String) → contains_value two x ≡ contains_value other_order x)
equal_iff_example =
    equal_iff two other_order
      (add_values-IsValid new_string_set ("a" ∷ "b" ∷ []) new_string_set-IsValid)
      (add_values-IsValid new_string_set ("b" ∷ "a" ∷ "b" ∷ []) new_string_set-IsValid)
