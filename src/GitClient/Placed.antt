-- ===== src/GitClient/Placed.antt =====
-- git/client.go: where the processes of the client run.
use mathlib.Core.List.{append_assoc, append-nil}
use bitbucket_cli.Prelude.{
  ◌≡◌, refl, ap, sym, subst, ◌∙◌, List, [], ◌∷◌, ◌++◌, if◌then◌else◌, All, All-append, Bool-cases,
  inl, inr,
}
use bitbucket_cli.Prelude.Codes.{Text, codes, text_eq}
use bitbucket_cli.Prelude.Result.{Result, ok, err}
use bitbucket_cli.Action.{Action, pure, ◌>>=◌, follow}
use bitbucket_cli.Action.Frame
use bitbucket_cli.Action.Frame.{
  Relation, Frames, Frames-pure, Frames-raise, Frames-lift, Frames-attempt, Frames-annotate,
  Frames-if, Frames-bind, frame_rules,
}
use bitbucket_cli.GitClient.{
  GitLib, Git, Client, Command, command, ask, run, execute, in_repo_dir, output_and_error,
  run_command, run_process, find_git, keep_path, resolve_git_path,
}
use bitbucket_cli.GitClient.Credentials.{
  CredentialPattern, find_gh, helper_arguments, authenticated_command,
}
use bitbucket_cli.GitClient.Network.{run_authenticated}

-- The process runs in a directory, where that is not empty.
abbrev pub RunsIn : Text → Command → Type 0
RunsIn dir cmd =
    (rest : List Text) × (cmd.arguments
      ≡ (if text_eq dir [] then rest else codes "-C" ∷ dir ∷ rest))

-- All processes that were started in between run in the directory of the client, which stays.
pub record Placed {L : GitLib} (s t : Git L) : Type 0 where
  pub started : List Command
  pub in_order : t.ran ≡ s.ran ++ started
  pub placed : All (RunsIn s.client.repo_dir) started
  pub dir_kept : t.client.repo_dir ≡ s.client.repo_dir

abbrev pub placed_relation : (L : GitLib) → Relation (Git L)
placed_relation L = record {
  Rel = Placed;
  same =
      λ s. record { started = []; in_order = sym (append-nil s.ran); placed = tt; dir_kept = refl };
  chain = λ s t u p q. record {
    started = p.started ++ q.started;
    in_order =
        q.in_order ∙ ap (λ l. l ++ q.started) p.in_order ∙ append_assoc s.ran p.started q.started;
    placed =
        All-append (RunsIn s.client.repo_dir) p.started q.started p.placed
          (subst (λ d. All (RunsIn d) q.started) p.dir_kept q.placed);
    dir_kept = q.dir_kept ∙ p.dir_kept;
  };
}

RunsIn-placed :
    (c : Client) (path : Text) (arguments : List Text)
    → RunsIn c.repo_dir (record { path = path; arguments = in_repo_dir c arguments })
unfolding in_repo_dir
RunsIn-placed c path arguments = (arguments, refl)

abbrev placed_command : Client → List Text → Text → Command
placed_command c arguments path = record { path = path; arguments = in_repo_dir c arguments }

helper_of : (L : GitLib) → CredentialPattern → Text → Result (List Text)
helper_of L p gh = helper_arguments p (codes "!" ++ L.quote gh ++ codes " auth git-credential")

-- A lookup of git or of bb changes neither the processes nor the directory.
pub record Kept {L : GitLib} (s t : Git L) : Type 0 where
  pub ran : t.ran ≡ s.ran
  pub dir : t.client.repo_dir ≡ s.client.repo_dir

module _ {L : GitLib} where
  Kept-Placed : (s t : Git L) → Kept s t → Placed s t
  Kept-Placed s t k = record {
    started = [];
    in_order = k.ran ∙ sym (append-nil s.ran);
    placed = tt;
    dir_kept = k.dir;
  }

  keep_path-Kept : (r : Result Text) (s : Git L) → Kept s (keep_path r s).1
  unfolding keep_path
  keep_path-Kept (ok path) s = record { ran = refl; dir = refl }
  keep_path-Kept (err e) s = record { ran = refl; dir = refl }

  pub find_git-Kept : (s : Git L) → Kept s (find_git s).1
  unfolding find_git
  find_git-Kept s = elim (Bool-cases (text_eq s.client.git_path [])) [
    | inl e ↦ rw e (keep_path-Kept (resolve_git_path L s.files) s)
    | inr e ↦ rw e (record { ran = refl; dir = refl })
  ]

  find_gh-Kept : (s : Git L) → Kept s (find_gh s).1
  unfolding find_gh
  find_gh-Kept s = elim (Bool-cases (text_eq s.client.gh_path [])) [
    | inl e ↦ rw e (record { ran = refl; dir = refl })
    | inr e ↦ rw e (record { ran = refl; dir = refl })
  ]

  -- A process that is started in the directory.
  started_one :
      (s u t : Git L) (cmd : Command)
      → Kept s u
      → t.ran ≡ u.ran ++ cmd ∷ []
      → t.client.repo_dir ≡ u.client.repo_dir
      → RunsIn s.client.repo_dir cmd
      → Placed s t
  started_one s u t cmd k ran dir runs = record {
    started = cmd ∷ [];
    in_order = ran ∙ ap (λ l. l ++ cmd ∷ []) k.ran;
    placed = (runs, tt);
    dir_kept = dir ∙ k.dir;
  }

  -- What is done with a command once git is found.
  abbrev made : Client → List Text → Result Text → Git L → Result Command × Git L
  made c arguments r u = follow {B = Command} r (λ path. pure (placed_command c arguments path)) u

  with_command :
      {A : Type 0}
      → (Command → Action (Git L) A)
      → Client
      → List Text
      → Result Text
      → Git L
      → Result A × Git L
  with_command act c arguments r u = follow (made c arguments r u).0 act (made c arguments r u).1

  with_command-Placed :
      {A : Type 0} (act : Command → Action (Git L) A) (arguments : List Text) (s : Git L)
      (r : Result Text) (u : Git L)
      → Kept s u
      → ((cmd : Command) (v : Git L)
          → ((act cmd v).1.ran ≡ v.ran ++ cmd ∷ [])
            × ((act cmd v).1.client.repo_dir ≡ v.client.repo_dir))
      → Placed s (with_command act s.client arguments r u).1
  unfolding with_command
  with_command-Placed act arguments s (err e) u k starts = Kept-Placed s u k
  with_command-Placed act arguments s (ok path) u k starts =
      let cmd = placed_command s.client arguments path in
      started_one s u (act cmd u).1 cmd k (starts cmd u).0 (starts cmd u).1
        (RunsIn-placed s.client path arguments)

  output_starts :
      (cmd : Command) (v : Git L)
      → ((output_and_error cmd v).1.ran ≡ v.ran ++ cmd ∷ [])
        × ((output_and_error cmd v).1.client.repo_dir ≡ v.client.repo_dir)
  unfolding output_and_error run_process
  output_starts cmd v = (refl, refl)

  run_starts :
      (cmd : Command) (v : Git L)
      → ((run_command cmd v).1.ran ≡ v.ran ++ cmd ∷ [])
        × ((run_command cmd v).1.client.repo_dir ≡ v.client.repo_dir)
  unfolding run_command run_process
  run_starts cmd v = (refl, refl)

  pub ask-Placed : (arguments : List Text) → Frames (placed_relation L) (ask {L = L} arguments)
  unfolding ask command with_command
  ask-Placed arguments = record {
    at = λ s.
        with_command-Placed output_and_error arguments s (find_git s).0 (find_git s).1
          (find_git-Kept s) output_starts;
  }

  command_run-Placed :
      (arguments : List Text)
      → Frames (placed_relation L) (command {L = L} arguments >>= run_command)
  unfolding command with_command
  command_run-Placed arguments = record {
    at = λ s.
        with_command-Placed run_command arguments s (find_git s).0 (find_git s).1 (find_git-Kept s)
          run_starts;
  }

  after_Kept : (s u t : Git L) → Kept s u → Placed u t → Placed s t
  after_Kept s u t k p = (placed_relation L).chain s u t (Kept-Placed s u k) p

  -- What is done once the settings of the credential helper are made.
  helped : List Text → Result (List Text) → Git L → Result (Unit {0}) × Git L
  helped arguments r u =
      follow (follow {B = Command} r (λ helpers. command (helpers ++ arguments)) u).0 run_command
        (follow {B = Command} r (λ helpers. command (helpers ++ arguments)) u).1

  helped-Placed :
      (arguments : List Text) (r : Result (List Text)) (u : Git L)
      → Placed u (helped arguments r u).1
  unfolding helped
  helped-Placed arguments (ok helpers) u = (command_run-Placed (helpers ++ arguments)).at u
  helped-Placed arguments (err e) u = (placed_relation L).same u

  authenticated-helped :
      (p : CredentialPattern) (arguments : List Text) (s : Git L)
      → (gh : Text) × (run_authenticated p arguments s
          ≡ helped arguments (helper_of L p gh) (find_gh s).1)
  unfolding run_authenticated authenticated_command helped helper_of find_gh
  authenticated-helped p arguments s = elim (Bool-cases (text_eq s.client.gh_path [])) [
    | inl e ↦ (codes "gh", rw e refl)
    | inr e ↦ (s.client.gh_path, rw e refl)
  ]

  pub run_authenticated-Placed :
      (p : CredentialPattern) (arguments : List Text)
      → Frames (placed_relation L) (run_authenticated {L = L} p arguments)
  run_authenticated-Placed p arguments = record {
    at = λ s.
        let (gh, e) = authenticated-helped p arguments s in
        subst (λ v. Placed s v.1) (sym e)
          (after_Kept s (find_gh s).1 _ (find_gh-Kept s)
            (helped-Placed arguments (helper_of L p gh) (find_gh s).1));
  }

  pub run-Placed : (arguments : List Text) → Frames (placed_relation L) (run {L = L} arguments)
  unfolding run
  run-Placed arguments = search (frame_rules, ask-Placed arguments)

  pub execute-Placed :
      (arguments : List Text) → Frames (placed_relation L) (execute {L = L} arguments)
  unfolding execute
  execute-Placed arguments = search (frame_rules, run-Placed arguments)

pub ruleset placed_rules = (
  Frames-pure, Frames-raise, Frames-lift, Frames-attempt, Frames-annotate, Frames-if, Frames-bind,
  ask-Placed, run-Placed, execute-Placed, run_authenticated-Placed,
)
