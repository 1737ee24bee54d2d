-- ===== src/Config/Options.antt =====
-- internal/config/config.go: the table of the options, and what `internal/gh` declares of them.
use mathlib.Core.Option
use bitbucket_cli.Prelude.{String, Option, List, [], ◌∷◌}
use bitbucket_cli.Config.Keys.{
  accessible_colors_key, accessible_prompter_key, browser_key, color_labels_key, editor_key,
  git_protocol_key, http_unix_socket_key, pager_key, prefer_editor_prompt_key, prompt_key,
  spinner_key,
}

pub data ConfigSource : Type 0 where
  default_provided user_provided : ConfigSource

pub record ConfigEntry : Type 0 where
  pub value : String
  pub source : ConfigSource

-- The readers of the interface `gh.Config`; `none` is a panic.
pub record Readers : Type 0 where
  pub git_protocol : String → Option ConfigEntry
  pub editor : String → Option ConfigEntry
  pub prompt : String → Option ConfigEntry
  pub prefer_editor_prompt : String → Option ConfigEntry
  pub pager : String → Option ConfigEntry
  pub http_unix_socket : String → Option ConfigEntry
  pub browser : String → Option ConfigEntry
  pub color_labels : String → Option ConfigEntry
  pub accessible_colors : String → Option ConfigEntry
  pub accessible_prompter : String → Option ConfigEntry
  pub spinner : String → Option ConfigEntry

pub record ConfigOption : Type 0 where
  pub key : String
  pub description : String
  pub default_value : String
  pub allowed_values : List String
  pub current_value : Readers → String → Option String

abbrev pub value_of : Option ConfigEntry → Option String
value_of = Option.map (λ e. e.value)

abbrev pub git_protocol_option : ConfigOption
git_protocol_option = record {
  key = git_protocol_key;
  description = "the protocol to use for git clone and push operations";
  default_value = "https";
  allowed_values = "https" ∷ "ssh" ∷ [];
  current_value = λ c hostname. value_of (c.git_protocol hostname);
}

abbrev pub editor_option : ConfigOption
editor_option = record {
  key = editor_key;
  description = "the text editor program to use for authoring text";
  default_value = "";
  allowed_values = [];
  current_value = λ c hostname. value_of (c.editor hostname);
}

abbrev pub prompt_option : ConfigOption
prompt_option = record {
  key = prompt_key;
  description = "toggle interactive prompting in the terminal";
  default_value = "enabled";
  allowed_values = "enabled" ∷ "disabled" ∷ [];
  current_value = λ c hostname. value_of (c.prompt hostname);
}

abbrev pub prefer_editor_prompt_option : ConfigOption
prefer_editor_prompt_option = record {
  key = prefer_editor_prompt_key;
  description = "toggle preference for editor-based interactive prompting in the terminal";
  default_value = "disabled";
  allowed_values = "enabled" ∷ "disabled" ∷ [];
  current_value = λ c hostname. value_of (c.prefer_editor_prompt hostname);
}

abbrev pub pager_option : ConfigOption
pager_option = record {
  key = pager_key;
  description = "the terminal pager program to send standard output to";
  default_value = "";
  allowed_values = [];
  current_value = λ c hostname. value_of (c.pager hostname);
}

abbrev pub http_unix_socket_option : ConfigOption
http_unix_socket_option = record {
  key = http_unix_socket_key;
  description = "the path to a Unix socket through which to make an HTTP connection";
  default_value = "";
  allowed_values = [];
  current_value = λ c hostname. value_of (c.http_unix_socket hostname);
}

abbrev pub browser_option : ConfigOption
browser_option = record {
  key = browser_key;
  description = "the web browser to use for opening URLs";
  default_value = "";
  allowed_values = [];
  current_value = λ c hostname. value_of (c.browser hostname);
}

abbrev pub color_labels_option : ConfigOption
color_labels_option = record {
  key = color_labels_key;
  description =
      "whether to display labels using their RGB hex color codes in terminals that support truecolor";
  default_value = "disabled";
  allowed_values = "enabled" ∷ "disabled" ∷ [];
  current_value = λ c hostname. value_of (c.color_labels hostname);
}

abbrev pub accessible_colors_option : ConfigOption
accessible_colors_option = record {
  key = accessible_colors_key;
  description = "whether customizable, 4-bit accessible colors should be used";
  default_value = "disabled";
  allowed_values = "enabled" ∷ "disabled" ∷ [];
  current_value = λ c hostname. value_of (c.accessible_colors hostname);
}

abbrev pub accessible_prompter_option : ConfigOption
accessible_prompter_option = record {
  key = accessible_prompter_key;
  description = "whether an accessible prompter should be used";
  default_value = "disabled";
  allowed_values = "enabled" ∷ "disabled" ∷ [];
  current_value = λ c hostname. value_of (c.accessible_prompter hostname);
}

abbrev pub spinner_option : ConfigOption
spinner_option = record {
  key = spinner_key;
  description = "whether to use a animated spinner as a progress indicator";
  default_value = "enabled";
  allowed_values = "enabled" ∷ "disabled" ∷ [];
  current_value = λ c hostname. value_of (c.spinner hostname);
}

abbrev pub options : List ConfigOption
options =
    git_protocol_option ∷ editor_option ∷ prompt_option ∷ prefer_editor_prompt_option ∷ pager_option
    ∷ http_unix_socket_option ∷ browser_option ∷ color_labels_option ∷ accessible_colors_option
    ∷ accessible_prompter_option ∷ spinner_option ∷ []
