-- ===== src/Tests/Helper.antt =====
-- Runs of the expansion of aliases, of `bb auth setup-git` and of the summary of checks.
use bitbucket_cli.Prelude.{
  ◌≤◌, ◌<◌, ◌⊎◌, length, drop, arith, ◌≡◌, refl, ◌↔◌, false, Option, some, List, [], ◌∷◌, ◌++◌,
  if◌then◌else◌,
}
use bitbucket_cli.Prelude.Codes.{Text, codes, has_code}
use bitbucket_cli.Prelude.Result.{ok}
use bitbucket_cli.CommandLine.{fine, bad, not_enough_arguments}
use bitbucket_cli.CommandLine.Expansion.{expand_alias, is_lingering, dollar}
use bitbucket_cli.CommandLine.Expansion.Arguments.{expand_alias-arguments}
use bitbucket_cli.CommandLine.Expansion.Pieces.{Piece, plain, place, expansion_of, filled, used}
use bitbucket_cli.CommandLine.Expansion.Placeholders.{expand_alias-places}
use bitbucket_cli.Github.{GhAuth, gist_host}
use bitbucket_cli.GitClient.{
  Git, execute, run, ask, command, find_git, resolve_git_path, run_process, output_and_error,
}
use bitbucket_cli.Commands.GitHelper.{SetupGitOptions, setup_git_run, helper_keys, configure_ours}
use bitbucket_cli.Commands.GitHelper.Written.{Permitted, host_commands, chosen_hosts}
use bitbucket_cli.Commands.GitHelper.Settings.{Started, setup_git_run_done}
use bitbucket_cli.PullRequest.Checks.{
  BuildStatus, tally, summary, all_passed, stopped, failed_state, successful, in_progress,
}
use bitbucket_cli.PullRequest.Checks.Tally.{number_in, no_counts, summary-tally}
use bitbucket_cli.Tests.Lists.{sample_git, in_work}

-- Words at spaces.
abbrev words : Text → Option (List Text)
words s = some (s ∷ [])

-- "a$2b$1" with the arguments "c", "d" and "e".
abbrev pieces : List Piece
pieces = plain (97 ∷ []) ∷ place 1 ∷ plain (98 ∷ []) ∷ place 0 ∷ []

abbrev three : List Text
three = (99 ∷ []) ∷ (100 ∷ []) ∷ (101 ∷ []) ∷ []

expand_alias-places_example :
    ((used pieces ≤ length three)
      × (expand_alias words (expansion_of pieces) three
          ≡ fine ((filled three pieces ∷ []) ++ drop (used pieces) three)))
    ⊎ ((length three < used pieces)
        × (t : Text) × (expand_alias words (expansion_of pieces) three
            ≡ bad (not_enough_arguments t)))
expand_alias-places_example =
    expand_alias-places words pieces three (filled three pieces ∷ []) (refl, (refl, tt))
      (ground arith) (refl, (refl, (refl, tt))) refl

none_lingering : is_lingering (36 ∷ 97 ∷ []) ≡ false
unfolding is_lingering
none_lingering = refl

-- "$a" with the argument "b", which is lost.
expand_alias-arguments_example :
    expand_alias words (36 ∷ 97 ∷ []) ((98 ∷ []) ∷ [])
    ≡ fine
        (((36 ∷ 97 ∷ []) ∷ []) ++ (if has_code dollar (36 ∷ 97 ∷ []) then [] else (98 ∷ []) ∷ []))
expand_alias-arguments_example =
    expand_alias-arguments words (36 ∷ 97 ∷ []) ((98 ∷ []) ∷ []) ((36 ∷ 97 ∷ []) ∷ [])
      none_lingering refl

abbrev auth : GhAuth
auth = record { normalize = λ h. h; is_enterprise = λ h. false }

abbrev setup_options : SetupGitOptions
setup_options = record {
  hosts = ok (codes "bitbucket.org" ∷ []);
  hostname = [];
  force = false;
  self = codes "/usr/bin/bb";
}

abbrev configured : Git sample_git
configured = (setup_git_run auth setup_options in_work).1

sets_up : setup_git_run auth setup_options in_work ≡ (ok tt, configured)
unfolding setup_git_run configure_ours helper_keys execute run ask command find_git resolve_git_path
    output_and_error run_process codes gist_host
sets_up = refl

setup_git_run_done_example :
    (hosts : List Text) × (setup_options.hosts ≡ ok hosts)
    × Permitted setup_options hosts
    × Started (host_commands auth (codes "/usr/bin/bb") (chosen_hosts [] hosts)) in_work configured
setup_git_run_done_example = setup_git_run_done auth setup_options in_work configured sets_up

abbrev build : Text → BuildStatus
build state = record {
  key = [];
  state = state;
  name = [];
  description = [];
  url = [];
  created_on = [];
  updated_on = [];
}

abbrev builds : List BuildStatus
builds = build stopped ∷ build failed_state ∷ []

summary-tally_example :
    (tally builds no_counts ≡ record {
      passed = number_in successful builds;
      failed = number_in failed_state builds;
      pending = number_in in_progress builds;
    })
    × (((summary (tally builds no_counts) 2).format ≡ all_passed)
        ↔ ((number_in failed_state builds ≡ 0) × (number_in in_progress builds ≡ 0)))
summary-tally_example = summary-tally builds 2
