-- ===== src/Pipeline.antt =====
-- pkg/cmd/pipeline/shared/shared.go and pkg/cmd/pipeline/cancel/cancel.go: pipelines, and
-- `bb pipeline cancel`. A hash is cut by code points, which are its bytes.
pub mod Cancelled
use bitbucket_cli.Prelude.{
  ℕ, Bool, true, false, ◌||◌, not, Option, none, some, List, [], ◌∷◌, ◌++◌, ltb, length, take,
  value_or, if◌then◌else◌,
}
use bitbucket_cli.Prelude.Codes.{Text, codes, text_eq}
use bitbucket_cli.Prelude.Decimal.{ℤ, show_int}
use bitbucket_cli.Prelude.Result.{Result, ok, err, text_error}
use bitbucket_cli.Prelude.Result
use bitbucket_cli.Action.{Action, pure, raise, lift, ◌>>=◌, ◌>>◌}
use bitbucket_cli.Repo.{Repo}
use bitbucket_cli.Selector.{parse_pipeline_arg}
use bitbucket_cli.Api.{HttpLib, Session, get, send_json, print_out}
use bitbucket_cli.PullRequest.{Page, empty_page, repository_path}
use bitbucket_cli.PullRequest.Target.{Target, or_base}

-- `State`: the names of the state, of its result and of its stage.
pub record State : Type 0 where
  pub name : Text
  pub result : Option Text
  pub stage : Option Text

-- `Target`: the name of the branch or tag, and the hash of the commit.
pub record BuildTarget : Type 0 where
  pub ref_name : Text
  pub commit : Option Text

-- `Pipeline`, with the fields that the two files read.
pub record Pipeline : Type 0 where
  pub uuid : Text
  pub target : Option BuildTarget
  pub state : Option State
  pub html : Text

abbrev result_text : Text → Text
result_text name =
    if text_eq name (codes "SUCCESSFUL")
    then codes "Successful"
    else if text_eq name (codes "FAILED")
    then codes "Failed"
    else if text_eq name (codes "ERROR")
    then codes "Error"
    else if text_eq name (codes "STOPPED")
    then codes "Stopped"
    else if text_eq name (codes "EXPIRED")
    then codes "Expired"
    else codes "Completed"

stage_text : Option Text → Text
stage_text none = codes "Running"
stage_text (some stage) = codes "Running (" ++ stage ++ codes ")"

completed_text : Option Text → Text
completed_text none = codes "Completed"
completed_text (some name) = result_text name

-- `StatusString`
state_text : Option State → Text
unfolding stage_text completed_text
state_text none = codes "Unknown"
state_text (some state) =
    if text_eq state.name (codes "PENDING")
    then codes "Pending"
    else if text_eq state.name (codes "IN_PROGRESS")
    then stage_text state.stage
    else if text_eq state.name (codes "COMPLETED")
    then completed_text state.result
    else if text_eq state.name (codes "HALTED")
    then codes "Halted"
    else if text_eq state.name (codes "PAUSED")
    then codes "Paused"
    else state.name

unfoldable pub status_string : Pipeline → Text
unfolding state_text
status_string p = state_text p.state

-- `IsRunning`
unfoldable pub is_running_state : Option State → Bool
is_running_state none = false
is_running_state (some state) =
    text_eq state.name (codes "IN_PROGRESS")
    || text_eq state.name (codes "PENDING")
    || text_eq state.name (codes "PAUSED")

unfoldable pub is_running : Pipeline → Bool
unfolding is_running_state
is_running p = is_running_state p.state

-- `RefName` and `CommitHash`
ref_of : Option BuildTarget → Text
ref_of none = []
ref_of (some target) = target.ref_name

unfoldable pub ref_name : Pipeline → Text
unfolding ref_of
ref_name p = ref_of p.target

short_hash : Option Text → Text
short_hash none = []
short_hash (some hash) = if ltb 7 (length hash) then take 7 hash else hash

hash_of : Option BuildTarget → Text
unfolding short_hash
hash_of none = []
hash_of (some target) = short_hash target.commit

unfoldable pub commit_hash : Pipeline → Text
unfolding hash_of
commit_hash p = hash_of p.target

-- The start of cancelRun: the number and the repository.
unfoldable pub find_pipeline : Target → Result (ℤ × Repo)
find_pipeline opts = Result.◌>>=◌ opts.http_client (λ _.
    Result.◌>>=◌ (parse_pipeline_arg opts.selector_arg)
      (λ named. Result.◌>>=◌ (or_base opts.base_repo named.1) (λ repo. ok (named.0, repo))))

unfoldable pub first_pipeline : ℤ → List Pipeline → Result Pipeline
first_pipeline number [] = err (text_error "pipeline #%d not found" (show_int number ∷ []))
first_pipeline number (p ∷ rest) = ok p

unfoldable pub number_path : Repo → ℤ → Text
number_path repo number =
    repository_path repo (codes "pipelines?q=build_number=" ++ show_int number)

unfoldable pub stop_path : Repo → Text → Text
stop_path repo uuid = repository_path repo (codes "pipelines/" ++ uuid ++ codes "/stopPipeline")

module _ {H : HttpLib} where
  -- `fetchPipeline`
  unfoldable pub fetch_pipeline :
      (Text → Result (Page Pipeline)) → Repo → ℤ → Action (Session H) Pipeline
  unfolding first_pipeline
  fetch_pipeline decode repo number = do
    found ← get repo.hostname (number_path repo number) decode
    lift (λ s. first_pipeline number (value_or found empty_page).values)

  -- `stopPipeline`, which decodes nothing.
  unfoldable pub stop_pipeline : Repo → Text → Action (Session H) (Unit {0})
  stop_pipeline repo uuid = do
    send_json {A = Unit {0}} "POST" repo.hostname (stop_path repo uuid) none none
    pure tt

  -- `cancelRun`
  unfoldable pub cancel_run :
      (Text → Result (Page Pipeline)) → Bool → Target → Action (Session H) (Unit {0})
  cancel_run decode is_tty opts = do
    target ← lift (λ s. find_pipeline opts)
    p ← fetch_pipeline decode target.1 target.0
    if not (is_running p)
        then raise (
            text_error "pipeline #%d is not running (status: %s)"
              (show_int target.0 ∷ status_string p ∷ []))
        else (do
          stop_pipeline target.1 p.uuid
          if is_tty
              then print_out "%s Cancelled pipeline #%d\n" (show_int target.0 ∷ [])
              else pure tt)
