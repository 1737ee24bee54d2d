-- ===== src/GitClient/Output/TrackingRef.antt =====
-- git/client.go: remote tracking refs and the values of push.default are read back from their text.
use bitbucket_cli.Prelude.{◌≡◌, false, ◌∷◌, ◌++◌}
use bitbucket_cli.Prelude.Codes.{has_code, slash}
use bitbucket_cli.Prelude.Codes.Laws.{has_prefix-append, drop-append}
use bitbucket_cli.Prelude.Codes.Splits.{split_n-append}
use bitbucket_cli.Prelude.Result.{ok}
use bitbucket_cli.GitClient.Output.{
  RemoteTrackingRef, refs_prefix, tracking_ref_text, parse_remote_tracking_ref,
}

-- `ParseRemoteTrackingRef` reads a ref back from its text, where the remote has no slash; the branch
-- may have some.
pub parse_remote_tracking_ref-tracking_ref_text :
    (r : RemoteTrackingRef)
    → has_code slash r.remote ≡ false
    → parse_remote_tracking_ref (tracking_ref_text r) ≡ ok r
unfolding parse_remote_tracking_ref tracking_ref_text
parse_remote_tracking_ref-tracking_ref_text r h = rw (
  has_prefix-append refs_prefix (r.remote ++ slash ∷ r.branch),
  drop-append refs_prefix (r.remote ++ slash ∷ r.branch),
  split_n-append slash 0 r.remote r.branch h,
)
