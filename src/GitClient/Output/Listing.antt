-- ===== src/GitClient/Output/Listing.antt =====
-- git/client.go: parseRemotes, on the lines of `git remote -v`.
pub mod Matching
pub mod RoundTrip
use bitbucket_cli.Prelude.{
  ℕ, Bool, true, false, ◌&&◌, ◌||◌, not, Option, none, some, List, [], ◌∷◌, ◌++◌, nat_eq,
  if◌then◌else◌,
}
use bitbucket_cli.Prelude.Codes.{Text, codes, text_eq, has_prefix, trim_space}
use bitbucket_cli.GitUrl.{GitUrl, parse_git_url}
use bitbucket_cli.GitClient.Output.{ListedRemote}

-- `\s`
abbrev pub is_re_space : ℕ → Bool
is_re_space c = nat_eq c 32 || nat_eq c 9 || nat_eq c 10 || nat_eq c 12 || nat_eq c 13

abbrev pub grown : {B : Type 0} → ℕ → Option (Text × B) → Option B → Option (Text × B)
grown c (some (part, b)) here = some (c ∷ part, b)
grown c none none = none
grown c none (some b) = some (c ∷ [], b)

-- `(.+)` before the rest of an expression: the longest text after which the rest matches.
unfoldable pub some_chars : {B : Type 0} → (Text → Option B) → Text → Option (Text × B)
some_chars k [] = none
some_chars k (c ∷ s) =
    let longer = grown c (some_chars k s) (k s) in if nat_eq c 10 then none else longer

abbrev pub or_else : {B : Type 0} → Option B → Option B → Option B
or_else none later = later
or_else (some b) later = some b

-- `\s+` before the rest.
unfoldable pub some_spaces : {B : Type 0} → (Text → Option B) → Text → Option B
some_spaces k [] = none
some_spaces k (c ∷ s) =
    let matched = or_else (some_spaces k s) (k s) in if is_re_space c then matched else none

pub data UrlType : Type 0 where
  push fetch : UrlType

-- `\((push|fetch)\)`
unfoldable pub url_type : Text → Option UrlType
url_type s =
    if has_prefix s (codes "(push)")
    then some push
    else if has_prefix s (codes "(fetch)")
    then some fetch
    else none

-- `remoteRE` on a line: the name, the URL and its type.
unfoldable pub match_remote : Text → Option (Text × (Text × UrlType))
match_remote = some_chars (some_spaces (some_chars (some_spaces url_type)))

unfoldable pub set_url : UrlType → GitUrl → ListedRemote → ListedRemote
set_url push u r = record r { push_url = some u }
set_url fetch u r = record r { fetch_url = some u }

abbrev pub new_remote : Text → ListedRemote
new_remote name = record { name = name; resolved = []; fetch_url = none; push_url = none }

-- The URL goes to the last remote where it has the name, or else to a new one.
unfoldable pub add_url : Text → UrlType → GitUrl → List ListedRemote → List ListedRemote
add_url name type u [] = set_url type u (new_remote name) ∷ []
add_url name type u (r ∷ []) =
    if text_eq name r.name then set_url type u r ∷ [] else r ∷ set_url type u (new_remote name) ∷ []
add_url name type u (r ∷ q ∷ rest) = r ∷ add_url name type u (q ∷ rest)

add_parsed : Text → UrlType → Option GitUrl → List ListedRemote → List ListedRemote
add_parsed name type none remotes = remotes
add_parsed name type (some u) remotes = add_url name type u remotes

add_line :
    (Text → Option GitUrl)
    → Option (Text × (Text × UrlType))
    → List ListedRemote
    → List ListedRemote
unfolding add_parsed
add_line parse_url none remotes = remotes
add_line parse_url (some (name, (url, type))) remotes =
    add_parsed (trim_space name) type (parse_git_url parse_url (trim_space url)) remotes

unfoldable pub add_lines :
    (Text → Option GitUrl) → List Text → List ListedRemote → List ListedRemote
unfolding add_line
add_lines parse_url [] remotes = remotes
add_lines parse_url (line ∷ rest) remotes =
    add_lines parse_url rest (add_line parse_url (match_remote line) remotes)

-- `parseRemotes`
unfoldable pub parse_remotes : (Text → Option GitUrl) → List Text → List ListedRemote
parse_remotes parse_url lines = add_lines parse_url lines []
