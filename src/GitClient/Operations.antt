-- ===== src/GitClient/Operations.antt =====
-- git/client.go: the operations of the client. Each makes the arguments of a git command, runs it and
-- reads its output. The modifiers of commands, which redirect their streams, are left out.
use bitbucket_cli.Prelude.{
  ℕ, Bool, true, false, ◌||◌, Option, none, some, List, [], ◌∷◌, ◌++◌, nat_eq, if◌then◌else◌,
}
use bitbucket_cli.Prelude.Codes.{Text, codes, text_eq, has_prefix, trim_prefix, slash}
use bitbucket_cli.Prelude.Result.{Error, errorf, wrap, git_error, Result, ok, err}
use bitbucket_cli.Action.{Action, pure, lift, attempt, annotate, ◌>>=◌, ◌>>◌}
use bitbucket_cli.GitUrl.{GitUrl, parse_git_url}
use bitbucket_cli.GitClient.{GitLib, Git, ask, or_error, run, execute}
use bitbucket_cli.GitClient.Output.{
  Ref, Commit, BranchConfig, no_branch_config, ListedRemote, PushDefault, simple, RemoteTrackingRef,
  split_at, output_lines, first_line, parse_refs, count_lines, parse_commit, parse_branch_config,
  parse_push_default, parse_remote_tracking_ref, escape_glob, populate_resolved,
}
use bitbucket_cli.GitClient.Output.Listing.{parse_remotes}
use bitbucket_cli.GitClient.Credentials.{is_code, exit_code, has_exit_code}

-- `regexp.QuoteMeta`
abbrev pub is_meta : ℕ → Bool
is_meta c =
    nat_eq c 92
    || nat_eq c 46
    || nat_eq c 43
    || nat_eq c 42
    || nat_eq c 63
    || nat_eq c 40
    || nat_eq c 41
    || nat_eq c 124
    || nat_eq c 91
    || nat_eq c 93
    || nat_eq c 123
    || nat_eq c 125
    || nat_eq c 94
    || nat_eq c 36

abbrev pub quote_meta : Text → Text
quote_meta [] = []
quote_meta (c ∷ s) = let rest = quote_meta s in if is_meta c then 92 ∷ c ∷ rest else c ∷ rest

-- `path.Base`
abbrev pub keep_slash : ℕ → Text → Text
keep_slash c [] = if nat_eq c slash then [] else c ∷ []
keep_slash c (d ∷ rest) = c ∷ d ∷ rest

abbrev pub trim_slashes : Text → Text
trim_slashes [] = []
trim_slashes (c ∷ s) = keep_slash c (trim_slashes s)

abbrev pub after_last_slash : Text → Text → Text
after_last_slash best [] = best
after_last_slash best (c ∷ s) = after_last_slash (if nat_eq c slash then s else best) s

abbrev pub path_base : Text → Text
path_base [] = codes "."
path_base (c ∷ s) =
    let trimmed = trim_slashes (c ∷ s) in
    if text_eq trimmed [] then codes "/" else after_last_slash trimmed trimmed

-- The error of `git config`, ignored where it is exit code 1 or is not a GitError.
abbrev pub ignored : Option Error → Result (Unit {0})
ignored none = ok tt
ignored (some e) = elim (exit_code e) [
  | none ↦ ok tt
  | some code ↦ if is_code 1 code then ok tt else err e
]

-- `CurrentBranch` and `Config` change the GitError that they return.
abbrev pub no_branch_error : Error → Error
no_branch_error (git_error code [] cause) =
    git_error code (codes "not on any branch") (errorf "git: not on any branch" [])
no_branch_error e = e

abbrev pub unknown_key_error : Text → Error → Error
unknown_key_error name (git_error code stderr cause) =
    git_error code (if is_code 1 code then codes "unknown config key " ++ name else stderr) cause
unknown_key_error name e = e

-- What `PushDefault`, `RemotePushDefault` and `ReadBranchConfig` make of an error: exit code 1 means
-- that the key is not set. `ReadBranchConfig` ignores any error that is not a GitError too.
abbrev pub or_default : {A : Type 0} → A → Result A → Result A
or_default a (ok b) = ok b
or_default a (err e) = if has_exit_code 1 e then ok a else err e

abbrev pub config_or_none : (Text → BranchConfig) → Result Text → Result BranchConfig
config_or_none parse (ok out) = ok (parse out)
config_or_none parse (err e) = elim (exit_code e) [
  | none ↦ ok no_branch_config
  | some code ↦ if is_code 1 code then ok no_branch_config else err e
]

abbrev pub is_ok : {A : Type 0} → Result A → Bool
is_ok (ok a) = true
is_ok (err e) = false

-- `IsLocalGitRepo`: exit code 128 is no error.
abbrev pub is_repo : Result Text → Result Bool
is_repo (ok dir) = ok true
is_repo (err e) = if has_exit_code 128 e then ok false else err e

abbrev pub drop_last : Text → Text
drop_last [] = []
drop_last (c ∷ []) = []
drop_last (c ∷ d ∷ s) = c ∷ drop_last (d ∷ s)

abbrev pub out_or : {A : Type 0} → A → (Text → A) → Result Text → A
out_or a f (ok out) = f out
out_or a f (err e) = a

abbrev pub remote_key : Text → Text
remote_key name = codes "remote." ++ name ++ codes ".gh-resolved"

abbrev pub tracking_flags : List Text → List Text
tracking_flags [] = []
tracking_flags (branch ∷ rest) = codes "-t" ∷ branch ∷ tracking_flags rest

abbrev pub or_parsed : Result Text → Result PushDefault
or_parsed (ok value) = parse_push_default value
or_parsed (err e) = if has_exit_code 1 e then ok simple else err e

-- The error of `url.Parse` is kept as a text alone.
abbrev pub remote_of : Text → Option GitUrl → Result ListedRemote
remote_of name none = err (errorf "parse %q" [])
remote_of name (some u) =
    ok (record { name = name; resolved = []; fetch_url = some u; push_url = some u })

module _ {L : GitLib} where
  -- `Remotes`; `sort` is `sort.Sort` of a RemoteSet.
  unfoldable pub remotes :
      (List ListedRemote → List ListedRemote) → Action (Git L) (List ListedRemote)
  remotes sort = do
    listing ← run (codes "remote" ∷ codes "-v" ∷ [])
    config ← ask (codes "config" ∷ codes "--get-regexp" ∷ codes "^remote\\..*\\.gh-resolved$" ∷ [])
    lift (λ s. ignored config.1)
    pure (
        sort (
          populate_resolved (output_lines config.0)
            (parse_remotes L.parse_url (output_lines listing))))

  unfoldable pub update_remote_url : Text → Text → Action (Git L) (Unit {0})
  update_remote_url name url = execute (codes "remote" ∷ codes "set-url" ∷ name ∷ url ∷ [])

  unfoldable pub set_remote_resolution : Text → Text → Action (Git L) (Unit {0})
  set_remote_resolution name resolution =
      execute (codes "config" ∷ codes "--add" ∷ remote_key name ∷ resolution ∷ [])

  unfoldable pub unset_remote_resolution : Text → Action (Git L) (Unit {0})
  unset_remote_resolution name = execute (codes "config" ∷ codes "--unset" ∷ remote_key name ∷ [])

  unfoldable pub current_branch : Action (Git L) Text
  current_branch = do
    out ←
        annotate no_branch_error (run (codes "symbolic-ref" ∷ codes "--quiet" ∷ codes "HEAD" ∷ []))
    pure (trim_prefix (first_line out) (codes "refs/heads/"))

  -- `ShowRefs`: the refs of the output come back beside the error.
  unfoldable pub show_refs : List Text → Action (Git L) (List Ref × Option Error)
  show_refs refs = do
    answer ← ask (codes "show-ref" ∷ codes "--verify" ∷ codes "--" ∷ refs)
    pure (parse_refs (output_lines answer.0), answer.1)

  -- `Config`
  unfoldable pub config : Text → Action (Git L) Text
  config name = do
    out ← annotate (unknown_key_error name) (run (codes "config" ∷ name ∷ []))
    pure (first_line out)

  unfoldable pub uncommitted_change_count : Action (Git L) ℕ
  uncommitted_change_count = do
    out ← run (codes "status" ∷ codes "--porcelain" ∷ [])
    pure (count_lines (split_at 10 out))

  unfoldable pub lookup_commit : Text → Text → Action (Git L) Text
  lookup_commit sha format = run (
      codes "-c"
      ∷ codes "log.ShowSignature=false"
      ∷ codes "show"
      ∷ codes "-s"
      ∷ (codes "--pretty=format:" ++ format)
      ∷ sha
      ∷ [])

  unfoldable pub last_commit : Action (Git L) Commit
  last_commit = do out ← lookup_commit (codes "HEAD") (codes "%H,%s"); lift (λ s. parse_commit out)

  unfoldable pub commit_body : Text → Action (Git L) Text
  commit_body sha = lookup_commit sha (codes "%b")

  -- `ReadBranchConfig`
  unfoldable pub read_branch_config : Text → Action (Git L) BranchConfig
  read_branch_config branch = do
    answer ← ask (
        codes "config"
        ∷ codes "--get-regexp"
        ∷ (codes "^"
            ++ quote_meta (codes "branch." ++ branch ++ codes ".")
            ++ codes "(remote|merge|pushremote|gh-merge-base)$")
        ∷ [])
    lift (λ s.
        config_or_none (λ o. parse_branch_config L.parse_url (output_lines o)) (or_error answer))

  unfoldable pub set_branch_config : Text → Text → Text → Action (Git L) (Unit {0})
  set_branch_config branch name value =
      execute (codes "config" ∷ (codes "branch." ++ branch ++ codes "." ++ name) ∷ value ∷ [])

  -- `PushDefault` and `RemotePushDefault`
  unfoldable pub push_default : Action (Git L) PushDefault
  push_default = do value ← attempt (config (codes "push.default")); lift (λ s. or_parsed value)

  unfoldable pub remote_push_default : Action (Git L) Text
  remote_push_default = do
    value ← attempt (config (codes "remote.pushDefault"))
    lift (λ s. or_default [] value)

  unfoldable pub rev_parse : List Text → Action (Git L) Text
  rev_parse arguments = run (codes "rev-parse" ∷ arguments)

  -- `PushRevision`
  unfoldable pub push_revision : Text → Action (Git L) RemoteTrackingRef
  push_revision branch = do
    out ← rev_parse (codes "--symbolic-full-name" ∷ (branch ++ codes "@{push}") ∷ [])
    annotate (wrap "could not parse push revision: %v" [])
        (lift (λ s. parse_remote_tracking_ref (first_line out)))

  unfoldable pub delete_local_tag : Text → Action (Git L) (Unit {0})
  delete_local_tag tag = execute (codes "tag" ∷ codes "-d" ∷ tag ∷ [])

  unfoldable pub delete_local_branch : Text → Action (Git L) (Unit {0})
  delete_local_branch branch = execute (codes "branch" ∷ codes "-D" ∷ branch ∷ [])

  unfoldable pub checkout_branch : Text → Action (Git L) (Unit {0})
  checkout_branch branch = execute (codes "checkout" ∷ branch ∷ [])

  unfoldable pub checkout_new_branch : Text → Text → Action (Git L) (Unit {0})
  checkout_new_branch remote branch =
      execute
        (codes "checkout" ∷ codes "-b" ∷ branch ∷ codes "--track" ∷ (remote ++ slash ∷ branch) ∷ [])

  unfoldable pub has_local_branch : Text → Action (Git L) Bool
  has_local_branch branch = do
    found ← attempt (rev_parse (codes "--verify" ∷ (codes "refs/heads/" ++ branch) ∷ []))
    pure (is_ok found)

  unfoldable pub tracking_branch_names : Text → Action (Git L) (List Text)
  tracking_branch_names prefix = do
    out ← attempt (
        run (
          codes "branch"
          ∷ codes "-r"
          ∷ codes "--format"
          ∷ codes "%(refname:strip=3)"
          ∷ (if text_eq prefix []
              then []
              else codes "--list" ∷ (codes "*/" ++ escape_glob prefix ++ codes "*") ∷ [])))
    pure (out_or [] (split_at 10) out)

  unfoldable pub toplevel_dir : Action (Git L) Text
  toplevel_dir = do out ← rev_parse (codes "--show-toplevel" ∷ []); pure (first_line out)

  unfoldable pub git_dir : Action (Git L) Text
  git_dir = do out ← rev_parse (codes "--git-dir" ∷ []); pure (first_line out)

  -- `PathFromRoot`: the path without the slash at its end.
  unfoldable pub path_from_root : Action (Git L) Text
  path_from_root = do
    out ← attempt (rev_parse (codes "--show-prefix" ∷ []))
    pure (out_or [] (λ o. drop_last (first_line o)) out)

  unfoldable pub is_local_git_repo : Action (Git L) Bool
  is_local_git_repo = do dir ← attempt git_dir; lift (λ s. is_repo dir)

  unfoldable pub set_remote_branches : Text → Text → Action (Git L) (Unit {0})
  set_remote_branches remote refspec =
      execute (codes "remote" ∷ codes "set-branches" ∷ remote ∷ refspec ∷ [])

  -- `AddRemote`: the URL is parsed after git has added the remote.
  unfoldable pub add_remote : Text → Text → List Text → Action (Git L) ListedRemote
  add_remote name url branches = do
    execute (codes "remote" ∷ codes "add" ∷ (tracking_flags branches ++ name ∷ url ∷ []))
    lift (λ s.
        remote_of name (
          if has_prefix url (codes "https")
          then L.parse_url url
          else parse_git_url L.parse_url url))
