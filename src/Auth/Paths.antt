-- ===== src/Auth/Paths.antt =====
-- Where the accounts of a host and their tokens stand (internal/config/config.go).
use Prim.Native.String
use bitbucket_cli.Prelude.{String, List, [], ◌∷◌}
use bitbucket_cli.Config.Keys.{hosts_key, user_key, users_key, oauth_token_key, git_protocol_key}

abbrev pub host_path : String → List String
host_path hostname = hosts_key ∷ hostname ∷ []

abbrev pub user_path : String → List String
user_path hostname = hosts_key ∷ hostname ∷ user_key ∷ []

abbrev pub token_path : String → List String
token_path hostname = hosts_key ∷ hostname ∷ oauth_token_key ∷ []

abbrev pub protocol_path : String → List String
protocol_path hostname = hosts_key ∷ hostname ∷ git_protocol_key ∷ []

abbrev pub users_path : String → List String
users_path hostname = hosts_key ∷ hostname ∷ users_key ∷ []

abbrev pub account_path : String → String → List String
account_path hostname user = hosts_key ∷ hostname ∷ users_key ∷ user ∷ []

abbrev pub account_token_path : String → String → List String
account_token_path hostname user = hosts_key ∷ hostname ∷ users_key ∷ user ∷ oauth_token_key ∷ []

-- `keyringServiceName`
unfoldable pub service : String → String
service hostname = String.◌++◌ "bb:" hostname
