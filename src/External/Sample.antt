-- ===== src/External/Sample.antt =====
-- A platform that satisfies the laws: the file is a list of paths with their values, the keyring a
-- list of entries.
pub mod Files
pub mod Rings
use bitbucket_cli.Prelude.{String, Option, none, some, List, [], ◌∷◌, value_or, if◌then◌else◌}
use bitbucket_cli.Prelude.Result.{Error}
use bitbucket_cli.External.{ConfigLib, KeyringLib, Platform}
use Files.{sample_config, lookup, children}
use Rings.{sample_keyring}

-- No variable of the environment holds a token, as in go-gh the source is then "oauth_token".
abbrev pub sample_platform : Platform
sample_platform = record {
  config = sample_config;
  keyring = sample_keyring;
  write_error = λ disk file. none;
  token_from_env_or_config =
      λ file host. (value_or (lookup file ("hosts" ∷ host ∷ "oauth_token" ∷ [])) "", "oauth_token");
  known_hosts = λ file. children ("hosts" ∷ []) file;
  default_host = λ file. ("bitbucket.org", "default");
}

-- The same with a disk that refuses every write.
abbrev pub full_platform : Platform
full_platform = record {
  config = sample_config;
  keyring = sample_keyring;
  write_error = λ disk file. some (Error.errorf "disk full" []);
  token_from_env_or_config =
      λ file host. (value_or (lookup file ("hosts" ∷ host ∷ "oauth_token" ∷ [])) "", "oauth_token");
  known_hosts = λ file. children ("hosts" ∷ []) file;
  default_host = λ file. ("bitbucket.org", "default");
}
