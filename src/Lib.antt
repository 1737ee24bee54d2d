-- ===== src/Lib.antt =====
-- Verification library of bb, the command line client for Bitbucket.
--
-- The program keeps its settings and its accounts in one configuration file and the tokens of the
-- accounts in that file or in the keyring of the operating system; its commands read both, change
-- them and find out which repository they are about from the git remotes of a clone. The library
-- models these parts, each in a module with child modules for what is proved of it:
--
--   StringSet    bb/pkg/set/string_set.go, a set of texts in the order of insertion
--   External     go-gh's configuration and host lookups and go-keyring, as records of operations
--                with the laws that their documentation gives; External.Sample is an instance
--   Action       Go's methods that change state and may fail: what was changed before an error
--                stays changed. Action.Frame proves by rules what an action leaves alone
--   Keyring      bb/internal/keyring/keyring.go: Set, Get and Delete with their time limit
--   World        the configuration in memory (`cfg`), what the disk holds of it, and the keyring
--   Config       bb/internal/config/config.go: get, GetOrDefault, Set, Migrate, the table Options
--   Auth         bb/internal/config/config.go: AuthConfig; Auth.Tokens has what it reads, Auth the
--                operations Login, SwitchUser, Logout and activateUser with a helper for each step
--                Auth.Session runs them one after another, each in a process of its own
--   Aliases      bb/internal/config/config.go: AliasConfig
--   Migration    bb/internal/config/migration/multi_account.go
--   Commands     bb/pkg/cmd/auth: switchRun, logoutRun, AuthTokenWriteable, and helperRun of
--                gitcredential; a command works on the World and prints messages
--                Commands.AliasSet is setRun of bb/pkg/cmd/alias/set/set.go with the checks of
--                bb/pkg/cmd/alias/shared/validations.go
--                Commands.Status and Commands.Token are statusRun and tokenRun of bb/pkg/cmd/auth
--                Commands.GitHelper is setupGitRun of bb/pkg/cmd/auth/setupgit/setupgit.go with
--                bb/pkg/cmd/auth/shared/gitcredentials/helper_config.go, on the git client
--   Repo         bb/internal/bbrepo/repo.go and bb/internal/bbinstance/host.go
--   Github       bb/internal/ghrepo/repo.go and bb/internal/ghinstance/host.go
--   Optional     bb/pkg/option/option.go
--   Remotes      bb/context/remote.go and bb/context/context.go; Remotes.Resolver is
--                bb/pkg/cmd/factory/remote_resolver.go, which uses Auth and StringSet
--   GitUrl       bb/git/url.go
--   CommandLine  bb/pkg/cmdutil/args.go, bb/pkg/cmdutil/flags.go, bb/pkg/cmd/root/alias.go
--   Api          bb/api/client.go: REST requests, the errors of answers and the page that comes next
--   Selector     ParsePRArg of bb/pkg/cmd/pr/shared/shared.go and ParsePipelineArg of
--                bb/pkg/cmd/pipeline/shared/shared.go
--   PullRequest  bb/pkg/cmd/pr/shared/shared.go and bb/pkg/cmd/pr/list/http.go; PullRequest.Merge,
--                Close, Review and Checks are mergeRun, closeRun, reviewRun and checksRun of
--                bb/pkg/cmd/pr, which work on a Session of Api: the server, the requests sent to it, what was printed
--   Pipeline     bb/pkg/cmd/pipeline/shared/shared.go and cancelRun of
--                bb/pkg/cmd/pipeline/cancel/cancel.go
--   RepoList     bb/pkg/cmd/repo/list/http.go
--   Slices       FormatSlice of bb/internal/text/text.go
--   GitClient    bb/git/client.go and bb/git/command.go: the client that runs git, with the log of
--                the processes that it starts; GitClient.Output has what it reads of git's output,
--                GitClient.Operations and GitClient.Network its operations
--   Prelude      shared helpers; Prelude.Codes has Go's `strings` on lists of code points
--   Tests        runs on small inputs
--
-- Names are the source's in small letters with underscores (SwitchUser is switch_user). A key of the
-- configuration is a path of texts. An error keeps its format and its arguments, or is a constructor
-- where the code compares it. The texts of settings and accounts are native texts, those that are
-- split and trimmed (repositories, remotes, URLs, flags) are lists of code points; `codes` goes from
-- the first to the second. Letters are folded within ASCII, as names of hosts and repositories are.
-- A loop is recursion on the list that it runs over, but for those whose rounds the lists do not
-- give: the loops over the pages of an answer (fetch_pages, list_pages), which end with the page
-- that has no next one, and the loop of FormatSlice (format_loop), which may write a value in a
-- second round. They run on fuel and give `none` where it runs out. The first two need more fuel
-- than there are pages, the last more than twice the number of values.
--
-- The disk is written at once, though go-gh's Write writes hosts.yml and config.yml one after the other.
--
-- Not modelled: goroutines behind the keyring's time limit (a call given up changes nothing); the
-- icons and colours of messages; cobra's commands; the modifiers of git commands and Commits, which
-- needs a regular expression over several lines; the terminal and the commands on it. `url.Parse`,
-- `filepath.Glob`, `sort.Sort`, net/http, encoding/json, the git executable, the prompter and the
-- GraphQL query are parameters.
pub mod Action
pub mod Aliases
pub mod Api
pub mod Auth
pub mod CommandLine
pub mod Commands
pub mod Config
pub mod External
pub mod GitClient
pub mod GitUrl
pub mod Github
pub mod Keyring
pub mod Migration
pub mod Optional
pub mod Pipeline
pub mod Prelude
pub mod PullRequest
pub mod Remotes
pub mod Repo
pub mod RepoList
pub mod Selector
pub mod Slices
pub mod StringSet
pub mod Tests
pub mod World
