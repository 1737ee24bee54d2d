-- ===== src/GitClient/Output.antt =====
-- git/client.go and git/objects.go: what the client reads of git's output.
pub mod TrackingRef
pub mod Listing
use bitbucket_cli.Prelude.{
  ℕ, zero, suc, ◌+◌, Bool, true, false, ◌&&◌, ◌||◌, not, Option, none, some, List, [], ◌∷◌, ◌++◌,
  ltb, nat_eq, if◌then◌else◌, contains, length,
}
use bitbucket_cli.Prelude.Codes.{
  Text, codes, text_eq, has_prefix, trim_prefix, trim_suffix, trim_space, has_code, split_n,
  is_space, to_first, slash, colon,
}
use bitbucket_cli.Prelude.Result.{Error, panic, text_error, Result, ok, err}
use bitbucket_cli.GitUrl.{GitUrl, parse_git_url}

-- `strings.Split` at a character.
abbrev pub split_at : ℕ → Text → List Text
split_at x [] = [] ∷ []
split_at x (c ∷ s) = let rest = split_at x s in if nat_eq c x then [] ∷ rest else to_first c rest

-- `outputLines`
unfoldable pub output_lines : Text → List Text
output_lines out = split_at 10 (trim_suffix out (10 ∷ []))

-- `firstLine`
unfoldable pub first_line : Text → Text
first_line [] = []
first_line (c ∷ s) = let rest = first_line s in if nat_eq c 10 then [] else c ∷ rest

-- `Ref`, `Commit` and `BranchConfig` of git/objects.go
pub record Ref : Type 0 where
  pub hash : Text
  pub name : Text

pub record Commit : Type 0 where
  pub sha : Text
  pub title : Text
  pub body : Text

pub record BranchConfig : Type 0 where
  pub remote_name : Text
  pub remote_url : Option GitUrl
  pub merge_ref : Text
  pub push_remote_name : Text
  pub push_remote_url : Option GitUrl
  pub merge_base : Text

abbrev pub no_branch_config : BranchConfig
no_branch_config = record {
  remote_name = [];
  remote_url = none;
  merge_ref = [];
  push_remote_name = [];
  push_remote_url = none;
  merge_base = [];
}

-- `Remote`
pub record ListedRemote : Type 0 where
  pub name : Text
  pub resolved : Text
  pub fetch_url : Option GitUrl
  pub push_url : Option GitUrl

-- The lines of `show-ref`, of those with two parts.
add_ref : List Text → List Ref → List Ref
add_ref (hash ∷ name ∷ []) rest = record { hash = hash; name = name } ∷ rest
add_ref parts rest = rest

unfoldable pub parse_refs : List Text → List Ref
unfolding add_ref
parse_refs [] = []
parse_refs (line ∷ rest) = add_ref (split_n 32 1 line) (parse_refs rest)

-- The lines that are not empty, of `UncommittedChangeCount`.
unfoldable pub count_lines : List Text → ℕ
count_lines [] = 0
count_lines (line ∷ rest) = let n = count_lines rest in if text_eq line [] then n else suc n

-- `LastCommit`: the hash before the first comma and the title after it. Go panics where there is none.
split_comma : List Text → Result Commit
split_comma (sha ∷ title ∷ []) = ok (record { sha = sha; title = trim_space title; body = [] })
split_comma parts = err (panic "slice bounds out of range")

unfoldable pub parse_commit : Text → Result Commit
unfolding split_comma
parse_commit out = split_comma (split_n 44 1 out)

-- `isFilesystemPath`
unfoldable pub is_filesystem_path : Text → Bool
is_filesystem_path p =
    text_eq p (codes ".") || has_prefix p (codes "./") || has_prefix p (codes "/")

name_or_path : Text → Option GitUrl × Text
name_or_path value = if is_filesystem_path value then (none, []) else (none, value)

url_or_nothing : Option GitUrl → Option GitUrl × Text
url_or_nothing u = (u, [])

-- `parseRemoteURLOrName`
unfoldable pub parse_remote_url_or_name : (Text → Option GitUrl) → Text → Option GitUrl × Text
unfolding name_or_path url_or_nothing
parse_remote_url_or_name parse_url value =
    if has_code colon value
    then url_or_nothing (parse_git_url parse_url value)
    else name_or_path value

abbrev pub last_of : List Text → Text
last_of [] = []
last_of (x ∷ []) = x
last_of (x ∷ y ∷ rest) = last_of (y ∷ rest)

-- One line of `git config --get-regexp`: the switch over the last part of the key.
unfoldable pub set_branch_key : (Text → Option GitUrl) → Text → Text → BranchConfig → BranchConfig
set_branch_key parse_url key value cfg =
    let (url, name) = parse_remote_url_or_name parse_url value in
    if text_eq key (codes "remote")
    then record cfg { remote_url = url; remote_name = name }
    else if text_eq key (codes "pushremote")
    then record cfg { push_remote_url = url; push_remote_name = name }
    else if text_eq key (codes "merge")
    then record cfg { merge_ref = value }
    else if text_eq key (codes "gh-merge-base")
    then record cfg { merge_base = value }
    else cfg

branch_line : (Text → Option GitUrl) → List Text → BranchConfig → BranchConfig
branch_line parse_url (key ∷ value ∷ []) cfg =
    set_branch_key parse_url (last_of (split_at 46 key)) value cfg
branch_line parse_url parts cfg = cfg

branch_lines : (Text → Option GitUrl) → List Text → BranchConfig → BranchConfig
unfolding branch_line
branch_lines parse_url [] cfg = cfg
branch_lines parse_url (line ∷ rest) cfg =
    branch_lines parse_url rest (branch_line parse_url (split_n 32 1 line) cfg)

-- `parseBranchConfig`
unfoldable pub parse_branch_config : (Text → Option GitUrl) → List Text → BranchConfig
unfolding branch_lines
parse_branch_config parse_url lines = branch_lines parse_url lines no_branch_config

-- `PushDefault`, of the six values of git.
pub data PushDefault : Type 0 where
  nothing current upstream tracking simple matching : PushDefault

unfoldable pub push_default_text : PushDefault → Text
push_default_text nothing = codes "nothing"
push_default_text current = codes "current"
push_default_text upstream = codes "upstream"
push_default_text tracking = codes "tracking"
push_default_text simple = codes "simple"
push_default_text matching = codes "matching"

-- `ParsePushDefault`
unfoldable pub parse_push_default : Text → Result PushDefault
parse_push_default s =
    if text_eq s (codes "nothing")
    then ok nothing
    else if text_eq s (codes "current")
    then ok current
    else if text_eq s (codes "upstream")
    then ok upstream
    else if text_eq s (codes "tracking")
    then ok tracking
    else if text_eq s (codes "simple")
    then ok simple
    else if text_eq s (codes "matching")
    then ok matching
    else err (text_error "unknown push.default value: %s" (s ∷ []))

pub record RemoteTrackingRef : Type 0 where
  pub remote : Text
  pub branch : Text

abbrev pub refs_prefix : Text
refs_prefix = codes "refs/remotes/"

-- `RemoteTrackingRef.String`
unfoldable pub tracking_ref_text : RemoteTrackingRef → Text
tracking_ref_text r = refs_prefix ++ (r.remote ++ slash ∷ r.branch)

abbrev pub bad_ref : Text → Error
bad_ref s =
    text_error "remote tracking branch must have format refs/remotes/<remote>/<branch> but was: %s"
      (s ∷ [])

abbrev pub ref_parts : Text → List Text → Result RemoteTrackingRef
ref_parts s (remote ∷ branch ∷ []) = ok (record { remote = remote; branch = branch })
ref_parts s parts = err (bad_ref s)

-- `ParseRemoteTrackingRef`
unfoldable pub parse_remote_tracking_ref : Text → Result RemoteTrackingRef
parse_remote_tracking_ref s =
    if has_prefix s refs_prefix
    then ref_parts s (split_n slash 1 (trim_prefix s refs_prefix))
    else err (bad_ref s)

-- `parseCloneArgs`: the other arguments, and the target, which is empty where none is given.
unfoldable pub parse_clone_args : List Text → List Text × Text
parse_clone_args [] = ([], [])
parse_clone_args (a ∷ rest) = if has_prefix a (codes "-") then (a ∷ rest, []) else (rest, a)

-- `escapeGlob`: a backslash before each of `*?[]{}`.
abbrev pub is_glob : ℕ → Bool
is_glob c = nat_eq c 42 || nat_eq c 63 || nat_eq c 91 || nat_eq c 93 || nat_eq c 123 || nat_eq c 125

unfoldable pub escape_glob : Text → Text
escape_glob [] = []
escape_glob (c ∷ s) = let rest = escape_glob s in if is_glob c then 92 ∷ c ∷ rest else c ∷ rest

-- `populateResolvedRemotes`: the value of `remote.NAME.gh-resolved` goes to the first remote of the name.
unfoldable pub set_resolved : Text → Text → List ListedRemote → List ListedRemote
set_resolved name value [] = []
set_resolved name value (r ∷ rest) =
    let later = set_resolved name value rest in
    if text_eq r.name name then record r { resolved = value } ∷ rest else r ∷ later

name_part : List Text → Option Text
name_part (a ∷ name ∷ rest) = some name
name_part parts = none

set_named : Option Text → Text → List ListedRemote → List ListedRemote
set_named none value remotes = remotes
set_named (some name) value remotes = set_resolved name value remotes

resolved_line : List Text → List ListedRemote → List ListedRemote
unfolding name_part set_named
resolved_line (key ∷ value ∷ []) remotes = set_named (name_part (split_n 46 2 key)) value remotes
resolved_line parts remotes = remotes

unfoldable pub populate_resolved : List Text → List ListedRemote → List ListedRemote
unfolding resolved_line
populate_resolved [] remotes = remotes
populate_resolved (line ∷ rest) remotes =
    populate_resolved rest (resolved_line (split_n 32 1 line) remotes)
