-- ===== src/Commands/AliasSet.antt =====
-- pkg/cmd/alias/set/set.go and pkg/cmd/alias/shared/validations.go: `bb alias set`. The search for a
-- command in cobra's tree and `shlex.Split` are parameters.
pub mod Outcome
use Prim.Native.String
use bitbucket_cli.Prelude.{
  String, Bool, true, false, ◌==◌, ◌&&◌, ◌||◌, not, List, [], ◌∷◌, Option, none, some,
  if◌then◌else◌, length, nat_eq, is_some,
}
use bitbucket_cli.Prelude.Texts.{has_prefix}
use bitbucket_cli.Prelude.Result.{Error, Result, ok, err, errorf, wrap}
use bitbucket_cli.External.{Platform}
use bitbucket_cli.Action.{Action, pure, raise, lift, annotate, ◌>>=◌, ◌>>◌}
use bitbucket_cli.World.{World, write}
use bitbucket_cli.Aliases.{alias_path, get_alias, add_alias}
use bitbucket_cli.Commands.{Console, on_world, print}

-- What `Find` returns for a command line, where it finds a command.
pub record FoundCommand : Type 0 where
  pub is_root : Bool
  pub runnable : Bool
  pub args : List String

one_left : Option FoundCommand → Bool
one_left none = false
one_left (some c) = not c.runnable && nat_eq (length c.args) 1

not_root : Option FoundCommand → Bool
not_root none = true
not_root (some c) = not c.is_root

module _ (split : String → Option (List String))
    (find_command : List String → Option FoundCommand) where
  words_valid : (Option FoundCommand → Bool) → Option (List String) → Bool
  words_valid accepts none = false
  words_valid accepts (some []) = false
  words_valid accepts (some (word ∷ words)) = accepts (find_command (word ∷ words))

  -- `ValidAliasNameFunc`
  unfoldable pub valid_alias_name : String → Bool
  unfolding one_left words_valid
  valid_alias_name args = words_valid one_left (split args)

  -- `ValidAliasExpansionFunc`
  unfoldable pub valid_alias_expansion : String → Bool
  unfolding not_root words_valid
  valid_alias_expansion expansion =
      if has_prefix expansion "!" then true else words_valid not_root (split expansion)

-- `config` is the error of `opts.Config`, if there is one; `stdin` what reading it returns.
pub record SetOptions : Type 0 where
  pub config : Option Error
  pub stdin : Result String
  pub is_terminal : Bool
  pub name : String
  pub expansion : String
  pub is_shell : Bool
  pub overwrite_existing : Bool
  pub name_is_valid : String → Bool
  pub expansion_is_valid : String → Bool

fails_with : Option Error → Result (Unit {0})
fails_with none = ok tt
fails_with (some e) = err e

-- `getExpansion`
read_in : Result String → Result String
read_in (ok text) = ok text
read_in (err e) = err (wrap "failed to read from STDIN: %w" [] e)

unfoldable pub get_expansion : SetOptions → Result String
unfolding read_in
get_expansion opts = if opts.expansion == "-" then read_in opts.stdin else ok opts.expansion

unfoldable pub shell_expansion : SetOptions → String → String
shell_expansion opts expansion =
    if opts.is_shell && not (has_prefix expansion "!") then String.◌++◌ "!" expansion else expansion

is_alias : Result String → Bool
is_alias (ok expansion) = true
is_alias (err e) = false

-- The checks of the name, and of the expansion.
unfoldable pub check_alias : SetOptions → Bool → String → Result (Unit {0})
check_alias opts existing expansion =
    if not (opts.name_is_valid opts.name) && not existing
    then err
        (errorf "%s Could not create alias %s: already a gh command or extension" (opts.name ∷ []))
    else if not (opts.name_is_valid opts.name) && not opts.overwrite_existing
    then err (
        errorf
          "%s Could not create alias %s: name already taken, use the --clobber flag to overwrite it"
          (opts.name ∷ []))
    else if not (opts.expansion_is_valid expansion)
    then err (
        errorf
          "%s Could not create alias %s: expansion does not correspond to a gh command, extension, or alias"
          (opts.name ∷ []))
    else ok tt

success_format : SetOptions → Bool → String
success_format opts existing =
    if existing && opts.overwrite_existing then "%s Changed alias %s" else "%s Added alias %s"

module _ {P : Platform} where
  announce : SetOptions → String → List String → Action (Console P) (Unit {0})
  announce opts format arguments = if opts.is_terminal then print format arguments else pure tt

  -- `setRun`
  unfoldable pub alias_set_run : SetOptions → Action (Console P) (Unit {0})
  unfolding announce success_format fails_with is_alias
  alias_set_run opts = do
    lift (λ s. fails_with opts.config)
    given ← annotate (wrap "did not understand expansion: %w" []) (lift (λ s. get_expansion opts))
    announce opts "- Creating alias for %s: %s\n" (opts.name ∷ shell_expansion opts given ∷ [])
    existing ← lift (λ s. ok (is_alias (get_alias s.world opts.name)))
    lift (λ s. check_alias opts existing (shell_expansion opts given))
    on_world (add_alias opts.name (shell_expansion opts given))
    on_world write
    announce opts (success_format opts existing) (opts.name ∷ [])
