-- ===== src/PullRequest/Checks.antt =====
-- pkg/cmd/pr/checks/checks.go: `bb pr checks`. The browser, the table printer and the clock are
-- parameters; a description is cut by code points, which are its bytes in ASCII.
pub mod Tally
use bitbucket_cli.Prelude.{
  ℕ, zero, suc, String, Bool, Option, none, some, List, [], ◌∷◌, ◌++◌, ltb, length, take, is_some,
  value_or, if◌then◌else◌,
}
use bitbucket_cli.Prelude.Codes.{Text, codes, text_eq}
use bitbucket_cli.Prelude.Decimal.{show_nat, show_int}
use bitbucket_cli.Prelude.Result.{Error, Result, ok, err}
use bitbucket_cli.Action.{Action, pure, lift, ◌>>=◌, ◌>>◌}
use bitbucket_cli.Repo.{Repo}
use bitbucket_cli.Api.{HttpLib, Session, Line, present, print_out, print_err, get}
use bitbucket_cli.PullRequest.{
  PullRequest, Page, empty_page, html_url, repository_path, fetch_pull_request,
}
use bitbucket_cli.PullRequest.Target.{Target, find_target}

pub record BuildStatus : Type 0 where
  pub key : Text
  pub state : Text
  pub name : Text
  pub description : Text
  pub url : Text
  pub created_on : Text
  pub updated_on : Text

abbrev pub successful : Text
successful = codes "SUCCESSFUL"

abbrev pub failed_state : Text
failed_state = codes "FAILED"

abbrev pub in_progress : Text
in_progress = codes "INPROGRESS"

abbrev pub stopped : Text
stopped = codes "STOPPED"

-- The counters of `printStatuses`.
pub record Counts : Type 0 where
  pub passed : ℕ
  pub failed : ℕ
  pub pending : ℕ

-- The switch over the state: the word for it, and the counter that goes up.
unfoldable pub status_word : Text → Text
status_word state =
    if text_eq state successful
    then codes "pass"
    else if text_eq state failed_state
    then codes "fail"
    else if text_eq state in_progress
    then codes "pending"
    else if text_eq state stopped
    then codes "stopped"
    else state

unfoldable pub counted : Text → Counts → Counts
counted state c =
    if text_eq state successful
    then record c { passed = suc c.passed }
    else if text_eq state failed_state
    then record c { failed = suc c.failed }
    else if text_eq state in_progress
    then record c { pending = suc c.pending }
    else c

-- The counters after the loop.
unfoldable pub tally : List BuildStatus → Counts → Counts
tally [] c = c
tally (s ∷ rest) c = tally rest (counted s.state c)

-- The fields of a row; `ago` is the time since a time of RFC 3339, where the text is one.
unfoldable pub status_row : (Text → Option Text) → BuildStatus → List Text
unfolding status_word
status_row ago s =
    status_word s.state
    ∷ (if text_eq s.name [] then s.key else s.name)
    ∷ (if ltb 40 (length s.description)
        then take 37 s.description ++ codes "..."
        else s.description)
    ∷ value_or (ago s.updated_on) (codes "-")
    ∷ []

unfoldable pub status_rows : (Text → Option Text) → List BuildStatus → List (List Text)
unfolding status_row
status_rows ago [] = []
status_rows ago (s ∷ rest) = status_row ago s ∷ status_rows ago rest

abbrev pub all_passed : String
all_passed = "%s All checks passed\n"

-- The line below the table.
unfoldable pub summary : Counts → ℕ → Line
summary c total =
    if ltb 0 c.failed
    then record {
      format = "%s %d/%d checks passing\n";
      arguments = show_nat c.passed ∷ show_nat total ∷ [];
    }
    else if ltb 0 c.pending
    then record {
      format = "%s %d/%d checks passing, %d pending\n";
      arguments = show_nat c.passed ∷ show_nat total ∷ show_nat c.pending ∷ [];
    }
    else record { format = all_passed; arguments = [] }

-- What the command calls: the table printer with its header, `text.DisplayURL` and the browser.
pub record Screen : Type 0 where
  pub render : List Text → List (List Text) → Result (List Line)
  pub display_url : Text → Text
  pub browse : Text → Option Error
  pub ago : Text → Option Text
  pub is_tty : Bool

module _ {H : HttpLib} where
  -- `fetchBuildStatuses`
  unfoldable pub fetch_build_statuses :
      (Text → Result (Page BuildStatus)) → Repo → Text → Action (Session H) (List BuildStatus)
  fetch_build_statuses decode repo hash = do
    found ←
        get repo.hostname
          (repository_path repo (codes "commit/" ++ hash ++ codes "/statuses?pagelen=100")) decode
    pure (value_or found empty_page).values

  abbrev print_lines : List Line → Action (Session H) (Unit {0})
  print_lines lines s = (ok tt, record s { out = s.out ++ lines })

  -- `printStatuses`
  unfoldable pub print_statuses : Screen → List BuildStatus → Action (Session H) (Unit {0})
  print_statuses screen statuses = do
    table ← lift (λ s.
        screen.render (codes "STATUS" ∷ codes "NAME" ∷ codes "DESCRIPTION" ∷ codes "UPDATED" ∷ [])
          (status_rows screen.ago statuses))
    print_lines table
    print_out "\n" []
    print_lines (
        summary (tally statuses (record { passed = 0; failed = 0; pending = 0 })) (length statuses)
        ∷ [])

  -- `checksRun`
  unfoldable pub checks_run :
      (Text → Result PullRequest)
      → (Text → Result (Page BuildStatus))
      → Screen
      → Bool
      → Target
      → Action (Session H) (Unit {0})
  checks_run decode decode_statuses screen web opts = do
    target ← lift (λ s. find_target opts)
    pr ← fetch_pull_request decode target.1 target.0
    statuses ← fetch_build_statuses decode_statuses target.1 pr.source.hash
    if web
        then (do
          if screen.is_tty
              then print_err "Opening %s in your browser.\n" (screen.display_url (html_url pr) ∷ [])
              else pure tt
          lift (λ s. present (screen.browse (html_url pr))))
        else if ltb 0 (length statuses)
        then print_statuses screen statuses
        else if screen.is_tty
        then print_out "No CI checks found for PR #%d\n" (show_int target.0 ∷ [])
        else pure tt
