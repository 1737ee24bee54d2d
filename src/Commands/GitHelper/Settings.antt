-- ===== src/Commands/GitHelper/Settings.antt =====
-- pkg/cmd/auth/setupgit/setupgit.go and pkg/cmd/auth/shared/gitcredentials/helper_config.go: which git
-- commands a run has started.
use mathlib.Core.List.{append_assoc, append-nil}
use bitbucket_cli.Prelude.{
  ◌≢◌, ◌≡◌, refl, ap, sym, subst, ◌∙◌, not, ◌&&◌, arith, Option, List, [], ◌∷◌, ◌++◌, map,
  map-append, Bool-cases, inl, inr, if◌then◌else◌,
}
use bitbucket_cli.Prelude.Codes.{Text, codes, text_eq}
use bitbucket_cli.Prelude.Codes.Laws.{eq_of_text_eq}
use bitbucket_cli.Prelude.Result.{Error, Result, ok, err}
use bitbucket_cli.Action.{Action, lift}
use bitbucket_cli.Action.Inversion.{bind_ok, annotate_ok, guard_ok}
use bitbucket_cli.Github.{GhAuth}
use bitbucket_cli.GitClient.{
  GitLib, Git, Client, Command, in_repo_dir, find_git, command, ask, run, execute, run_process,
  output_and_error,
}
use bitbucket_cli.GitClient.Placed.{Kept, find_git-Kept}
use bitbucket_cli.Commands.GitHelper.{
  shell_quote, helper_keys, clear_arguments, add_arguments, configure_keys, configure_ours,
  SetupGitOptions, set_up, set_up_all, set_up_known, setup_git_run, has_host, not_logged_in,
}
use bitbucket_cli.Commands.GitHelper.Written.{
  keys_of, key_commands, host_commands, helper_keys-written, chosen_hosts, Permitted,
  forced_or_known,
}

-- The arguments of a process, written out: those of git, after the directory of the client.
abbrev pub placed : Client → List Text → List Text
placed c arguments =
    if text_eq c.repo_dir [] then arguments else codes "-C" ∷ c.repo_dir ∷ arguments

-- The arguments of the processes that were started.
abbrev pub arguments_of : {L : GitLib} → Git L → List (List Text)
arguments_of s = map (λ c. c.arguments) s.ran

-- Just these commands were started in between, in the directory of the client.
pub record Started {L : GitLib} (commands : List (List Text)) (s t : Git L) : Type 0 where
  pub in_order : arguments_of t ≡ arguments_of s ++ map (placed s.client) commands
  pub dir_kept : t.client.repo_dir ≡ s.client.repo_dir

same_placing : (c d : Client) → c.repo_dir ≡ d.repo_dir → placed c ≡ placed d
same_placing c d h i arguments =
    if text_eq (h i) [] then arguments else codes "-C" ∷ h i ∷ arguments

abbrev arguments_or : Result Command → List Text
arguments_or (ok cmd) = cmd.arguments
arguments_or (err e) = []

module _ {L : GitLib} where
  Started-none : (s : Git L) → Started [] s s
  Started-none s = record { in_order = sym (append-nil (arguments_of s)); dir_kept = refl }

  Started-both :
      {a b : List (List Text)} {s t u : Git L}
      → Started a s t
      → Started b t u
      → Started (a ++ b) s u
  Started-both {a = a} {b = b} {s = s} {t = t} h k = record {
    in_order =
        k.in_order
        ∙ ap (λ l. l ++ map (placed t.client) b) h.in_order
        ∙ append_assoc (arguments_of s) (map (placed s.client) a) (map (placed t.client) b)
        ∙ ap (λ l. arguments_of s ++ l)
            (ap (λ f. map (placed s.client) a ++ map f b)
                (same_placing t.client s.client h.dir_kept)
              ∙ sym (map-append (placed s.client) a b));
    dir_kept = k.dir_kept ∙ h.dir_kept;
  }

  command_ok :
      (arguments : List Text) (s : Git L) {cmd : Command} {t : Git L}
      → command arguments s ≡ (ok cmd, t)
      → (cmd.arguments ≡ placed s.client arguments) × Kept s t
  unfolding command in_repo_dir
  command_ok arguments s h =
      let (path, e, k) = bind_ok find_git _ s h in
      (sym (ap (λ p. arguments_or p.0) k), subst (Kept s) (ap (λ p. p.1) k) (find_git-Kept s))

  Started-one :
      (arguments : List Text) (s u t : Git L) (cmd : Command)
      → cmd.arguments ≡ placed s.client arguments
      → Kept s u
      → t.ran ≡ u.ran ++ cmd ∷ []
      → t.client.repo_dir ≡ u.client.repo_dir
      → Started (arguments ∷ []) s t
  Started-one arguments s u t cmd same k ran dir = record {
    in_order =
        ap (map (λ c. c.arguments)) ran
        ∙ map-append (λ c. c.arguments) u.ran (cmd ∷ [])
        ∙ ap (λ l. map (λ c. c.arguments) l ++ cmd.arguments ∷ []) k.ran
        ∙ ap (λ a. arguments_of s ++ a ∷ []) same;
    dir_kept = dir ∙ k.dir;
  }

  ask_ok :
      (arguments : List Text) (s : Git L) {answer : Text × Option Error} {t : Git L}
      → ask arguments s ≡ (ok answer, t)
      → Started (arguments ∷ []) s t
  unfolding ask output_and_error run_process
  ask_ok arguments s {t = t} h =
      let (cmd, e, k) = bind_ok (command arguments) output_and_error s h in
      let (same, kept) = command_ok arguments s e in
      Started-one arguments s (command arguments s).1 t cmd same kept (sym (ap (λ p. p.1.ran) k))
        (sym (ap (λ p. p.1.client.repo_dir) k))

  execute_ok :
      (arguments : List Text) (s : Git L) {t : Git L}
      → execute arguments s ≡ (ok tt, t)
      → Started (arguments ∷ []) s t
  unfolding execute run
  execute_ok arguments s h =
      let (out, e, k) = bind_ok (run arguments) _ s h in
      let (answer, e', k') = bind_ok (ask arguments) _ s e in
      subst (Started (arguments ∷ []) s) (ap (λ p. p.1) k' ∙ ap (λ p. p.1) k)
        (ask_ok arguments s e')

some_known :
    {L : GitLib} (auth : GhAuth) (self : Text) (hosts : List Text) (s : Git L) {t : Git L}
    → set_up_known {L = L} auth self hosts s ≡ (ok tt, t)
    → hosts ≢ []
unfolding set_up_known
some_known auth self [] s h = absurd (cc)
some_known auth self (hostname ∷ rest) s h = λ e. ground (arith, e)

module _ {L : GitLib} (auth : GhAuth) where
  keys_ok :
      (self : Text) (keys : List Text) (s : Git L) {t : Git L}
      → configure_keys {L = L} auth self keys s ≡ (ok tt, t)
      → Started (key_commands self keys) s t
  unfolding configure_keys shell_quote
  keys_ok self [] s h = subst (Started [] s) (ap (λ p. p.1) h) (Started-none s)
  keys_ok self (key ∷ keys) s h =
      let (_, e, k) = bind_ok (execute (clear_arguments key)) _ s h in
      let (_, e', k') = bind_ok (execute (add_arguments self key)) _ _ k in
      Started-both (execute_ok (clear_arguments key) s e)
        (Started-both (execute_ok (add_arguments self key) _ e') (keys_ok self keys _ k'))

  set_up_ok :
      (self hostname : Text) (s : Git L) {t : Git L}
      → set_up {L = L} auth self hostname s ≡ (ok tt, t)
      → Started (key_commands self (keys_of auth hostname)) s t
  unfolding set_up configure_ours
  set_up_ok self hostname s {t = t} h =
      subst (λ keys. Started (key_commands self keys) s t) (helper_keys-written auth hostname)
        (keys_ok self (helper_keys auth hostname) s
          (annotate_ok _ (configure_ours auth self hostname) s h))

  hosts_ok :
      (self : Text) (hosts : List Text) (s : Git L) {t : Git L}
      → set_up_all {L = L} auth self hosts s ≡ (ok tt, t)
      → Started (host_commands auth self hosts) s t
  unfolding set_up_all
  hosts_ok self [] s h = subst (Started [] s) (ap (λ p. p.1) h) (Started-none s)
  hosts_ok self (hostname ∷ rest) s h =
      let (_, e, k) = bind_ok (set_up auth self hostname) _ s h in
      Started-both (set_up_ok self hostname s e) (hosts_ok self rest _ k)

  known_ok :
      (self : Text) (hosts : List Text) (s : Git L) {t : Git L}
      → set_up_known {L = L} auth self hosts s ≡ (ok tt, t)
      → Started (host_commands auth self hosts) s t
  unfolding set_up_known
  known_ok self [] s h = absurd (cc)
  known_ok self (hostname ∷ rest) s h = hosts_ok self (hostname ∷ rest) s h

  -- A run of `bb auth setup-git` that succeeds has started, one after another and in the directory of
  -- the client, two git commands for each key of each chosen host and no other command: `config --global
  -- --replace-all KEY ''`, and `config --global --add KEY '!SELF auth git-credential'` with the path of
  -- the program, quoted where it needs that. The keys of a host are `credential.https://HOST.helper` and
  -- that of its gists, `credential.https://gist.HOST.helper`, unless go-gh calls the host an enterprise
  -- one or it is garage.github.com or github.localhost: then its gists have a key only where the host
  -- itself begins with `gist.`. The key of github.localhost has `http://`. A host that was
  -- chosen by the option is logged in, up to the case of letters, or was forced, and without the option
  -- some host is logged in.
  pub setup_git_run_done :
      (opts : SetupGitOptions) (s t : Git L)
      → setup_git_run {L = L} auth opts s ≡ (ok tt, t)
      → (hosts : List Text) × (opts.hosts ≡ ok hosts)
        × Permitted opts hosts
        × Started (host_commands auth opts.self (chosen_hosts opts.hostname hosts)) s t
  unfolding setup_git_run
  setup_git_run_done opts s t h =
      let (hosts, e, k) = bind_ok (lift (λ s. opts.hosts)) _ s h in
      elim (Bool-cases (text_eq opts.hostname [])) [
        | inl all ↦
            let known = rw all at k in
            (
              hosts,
              ap (λ p. p.0) e,
              inl (eq_of_text_eq opts.hostname [] all, some_known auth opts.self hosts s known),
              rw all (known_ok opts.self hosts s known),
            )
        | inr one ↦
            let (permitted, k') =
              guard_ok (not opts.force && not (has_host opts.hostname hosts))
                (not_logged_in opts.hostname) (set_up auth opts.self opts.hostname) s
                (rw one at k) in
            (
              hosts,
              ap (λ p. p.0) e,
              inr (forced_or_known opts.force opts.hostname hosts permitted),
              rw one (
                  subst (λ c. Started c s t) (sym (append-nil _))
                    (set_up_ok opts.self opts.hostname s k')),
            )
      ]
