-- ===== src/Config/Keys.antt =====
-- The names of the settings (internal/config/config.go).
use bitbucket_cli.Prelude.{String}

abbrev pub accessible_colors_key : String
accessible_colors_key = "accessible_colors"

abbrev pub accessible_prompter_key : String
accessible_prompter_key = "accessible_prompter"

abbrev pub aliases_key : String
aliases_key = "aliases"

abbrev pub browser_key : String
browser_key = "browser"

abbrev pub color_labels_key : String
color_labels_key = "color_labels"

abbrev pub editor_key : String
editor_key = "editor"

abbrev pub git_protocol_key : String
git_protocol_key = "git_protocol"

abbrev pub hosts_key : String
hosts_key = "hosts"

abbrev pub http_unix_socket_key : String
http_unix_socket_key = "http_unix_socket"

abbrev pub oauth_token_key : String
oauth_token_key = "oauth_token"

abbrev pub pager_key : String
pager_key = "pager"

abbrev pub prompt_key : String
prompt_key = "prompt"

abbrev pub prefer_editor_prompt_key : String
prefer_editor_prompt_key = "prefer_editor_prompt"

abbrev pub spinner_key : String
spinner_key = "spinner"

abbrev pub user_key : String
user_key = "user"

abbrev pub users_key : String
users_key = "users"

abbrev pub version_key : String
version_key = "version"
