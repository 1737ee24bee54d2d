-- ===== src/GitClient/Everywhere.antt =====
-- git/client.go: every operation of the client, one after another.
use bitbucket_cli.Prelude.{List, [], ◌∷◌}
use bitbucket_cli.Prelude.Codes.{Text}
use bitbucket_cli.Prelude.Result.{Result, ok}
use bitbucket_cli.Action.{Action, pure, attempt, ◌>>◌}
use bitbucket_cli.Action.Frame.{Frames, frame_rules}
use bitbucket_cli.GitClient.{GitLib, Git}
use bitbucket_cli.GitClient.Output.{ListedRemote}
use bitbucket_cli.GitClient.Operations
use bitbucket_cli.GitClient.Network
use bitbucket_cli.GitClient.Placed.{Placed, placed_relation, placed_rules}

-- The calls that a command may make of the client.
pub data Call : Type 0 where
  remotes : (List ListedRemote → List ListedRemote) → Call
  update_remote_url set_remote_resolution checkout_new_branch set_remote_branches :
      Text → Text → Call
  fetch pull push lookup_commit : Text → Text → Call
  unset_remote_resolution config commit_body read_branch_config push_revision : Text → Call
  delete_local_tag delete_local_branch checkout_branch has_local_branch : Text → Call
  tracking_branch_names : Text → Call
  show_refs rev_parse : List Text → Call
  set_branch_config : Text → Text → Text → Call
  current_branch uncommitted_change_count last_commit push_default remote_push_default : Call
  toplevel_dir git_dir path_from_root is_local_git_repo : Call
  add_remote : Text → Text → List Text → Call
  clone : Text → List Text → Call

module _ {L : GitLib} where
  unit : {A : Type 0} → Action (Git L) A → Action (Git L) (Result (Unit {0}))
  unit m = do attempt m; pure (ok tt)

  -- A call, whatever its result.
  perform : Call → Action (Git L) (Result (Unit {0}))
  perform (remotes sort) = unit (Operations.remotes sort)
  perform (update_remote_url name url) = unit (Operations.update_remote_url name url)
  perform (set_remote_resolution name r) = unit (Operations.set_remote_resolution name r)
  perform (checkout_new_branch remote b) = unit (Operations.checkout_new_branch remote b)
  perform (set_remote_branches remote r) = unit (Operations.set_remote_branches remote r)
  perform (fetch remote refspec) = unit (Network.fetch remote refspec)
  perform (pull remote branch) = unit (Network.pull remote branch)
  perform (push remote ref) = unit (Network.push remote ref)
  perform (lookup_commit sha format) = unit (Operations.lookup_commit sha format)
  perform (unset_remote_resolution name) = unit (Operations.unset_remote_resolution name)
  perform (config name) = unit (Operations.config name)
  perform (commit_body sha) = unit (Operations.commit_body sha)
  perform (read_branch_config branch) = unit (Operations.read_branch_config branch)
  perform (push_revision branch) = unit (Operations.push_revision branch)
  perform (delete_local_tag tag) = unit (Operations.delete_local_tag tag)
  perform (delete_local_branch branch) = unit (Operations.delete_local_branch branch)
  perform (checkout_branch branch) = unit (Operations.checkout_branch branch)
  perform (has_local_branch branch) = unit (Operations.has_local_branch branch)
  perform (tracking_branch_names prefix) = unit (Operations.tracking_branch_names prefix)
  perform (show_refs refs) = unit (Operations.show_refs refs)
  perform (rev_parse arguments) = unit (Operations.rev_parse arguments)
  perform (set_branch_config b name value) = unit (Operations.set_branch_config b name value)
  perform current_branch = unit Operations.current_branch
  perform uncommitted_change_count = unit Operations.uncommitted_change_count
  perform last_commit = unit Operations.last_commit
  perform push_default = unit Operations.push_default
  perform remote_push_default = unit Operations.remote_push_default
  perform toplevel_dir = unit Operations.toplevel_dir
  perform git_dir = unit Operations.git_dir
  perform path_from_root = unit Operations.path_from_root
  perform is_local_git_repo = unit Operations.is_local_git_repo
  perform (add_remote name url branches) = unit (Operations.add_remote name url branches)
  perform (clone url arguments) = unit (Network.clone url arguments)

  pub perform_all : List Call → Action (Git L) (Unit {0})
  unfolding perform
  perform_all [] = pure tt
  perform_all (call ∷ rest) = do perform call; perform_all rest

  unit-Placed :
      {A : Type 0} (m : Action (Git L) A)
      → Frames (placed_relation L) m
      → Frames (placed_relation L) (unit m)
  unfolding unit
  unit-Placed m h = search (frame_rules, h)

  perform-Placed : (call : Call) → Frames (placed_relation L) (perform call)
  unfolding perform Network.clone Network.fetch Network.pull Network.push Operations.add_remote
      Operations.checkout_branch Operations.checkout_new_branch Operations.commit_body
      Operations.config Operations.current_branch Operations.delete_local_branch
      Operations.delete_local_tag Operations.git_dir Operations.has_local_branch
      Operations.is_local_git_repo Operations.last_commit Operations.lookup_commit
      Operations.path_from_root Operations.push_default Operations.push_revision
      Operations.read_branch_config Operations.remote_push_default Operations.remotes
      Operations.rev_parse Operations.set_branch_config Operations.set_remote_branches
      Operations.set_remote_resolution Operations.show_refs Operations.toplevel_dir
      Operations.tracking_branch_names Operations.uncommitted_change_count
      Operations.unset_remote_resolution Operations.update_remote_url
  perform-Placed (remotes sort) = unit-Placed _ (search placed_rules)
  perform-Placed call = unit-Placed _ (search placed_rules)

  all_placed : (calls : List Call) → Frames (placed_relation L) (perform_all calls)
  unfolding perform_all
  all_placed [] = search frame_rules
  all_placed (call ∷ rest) = search (frame_rules, perform-Placed call, all_placed rest)

  -- Whatever operations of the client follow one another, and whatever each returns, every process
  -- that they start runs git with "-C" and the directory of the client before its other arguments,
  -- where that directory is not empty; and the directory of the client stays the same.
  pub perform_all-Placed : (calls : List Call) (s : Git L) → Placed s (perform_all calls s).1
  perform_all-Placed calls s = (all_placed calls).at s
