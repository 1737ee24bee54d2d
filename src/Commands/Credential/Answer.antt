-- ===== src/Commands/Credential/Answer.antt =====
-- pkg/cmd/auth/gitcredential/helper.go: when the helper answers, and with what.
use Prim.Native.String
use bitbucket_cli.Prelude.{
  String, ◌≡◌, ◌≢◌, ◌⊎◌, refl, sym, ◌∙◌, ap, List, [], ◌∷◌, true, ◌==◌, ◌&&◌, ◌||◌, arith, eq_iff,
  inl, inr, Bool-cases, text_cases, if◌then◌else◌, is_some,
}
use bitbucket_cli.Prelude.Texts.{has_prefix, trim_prefix}
use bitbucket_cli.Prelude.Codes.{codes, equal_fold}
use bitbucket_cli.Prelude.Result
use bitbucket_cli.Prelude.Result.{Result, ok, err, errorf, silent, Result-cases}
use bitbucket_cli.External.{Platform}
use bitbucket_cli.World.{World, value_at}
use bitbucket_cli.Auth.Paths.{user_path}
use bitbucket_cli.Auth.{AuthConfig, active_token}
use bitbucket_cli.Commands.Credential.{
  Wants, CredentialOptions, want, read_wants, respond, token_user, answer, find_token, find_user,
  credentials, helper_run,
}

answer_parts :
    (wants : Wants) (user token : String) (out : List String)
    → answer wants user token ≡ ok out
    → (user ≢ "")
      × (token ≢ "")
      × (want wants "username" ≢ ""
          → user ≢ token_user
          → equal_fold (codes (want wants "username")) (codes user) ≡ true)
      × (out
          ≡ "protocol=https"
            ∷ String.◌++◌ "host=" (want wants "host")
            ∷ String.◌++◌ "username=" user
            ∷ String.◌++◌ "password=" token
            ∷ [])
unfolding answer
answer_parts wants user token out e = (
  ground (arith, e, eq_iff user ""),
  ground (arith, e, eq_iff token ""),
  λ asked named. ground (arith, e, eq_iff (want wants "username") "", eq_iff user token_user),
  ground (arith, e),
)

module _ {P : Platform} where
  -- What the four lines of an answer are made of.
  pub record Answers (c : AuthConfig) (w : World P) (wants : Wants) (out : List String)
      : Type 0 where
    pub lookup_host : String
    pub user : String
    pub right_host :
        (lookup_host ≡ want wants "host") ⊎ (lookup_host ≡ trim_prefix (want wants "host") "gist.")
    pub has_token : (active_token c w lookup_host).0 ≢ ""
    pub has_user : user ≢ ""
    pub right_user : (user ≡ token_user) ⊎ (user ≡ value_at w (user_path lookup_host))
    pub wanted_user :
        want wants "username" ≢ ""
        → user ≢ token_user
        → equal_fold (codes (want wants "username")) (codes user) ≡ true
    pub printed :
        out
        ≡ "protocol=https"
          ∷ String.◌++◌ "host=" (want wants "host")
          ∷ String.◌++◌ "username=" user
          ∷ String.◌++◌ "password=" (active_token c w lookup_host).0
          ∷ []

  record Finds (c : AuthConfig) (w : World P) (host : String) : Type 0 where
    lookup_host : String
    source : String
    right_host : (lookup_host ≡ host) ⊎ (lookup_host ≡ trim_prefix host "gist.")
    found : find_token c w host ≡ (lookup_host, (active_token c w lookup_host).0, source)

  finds : (c : AuthConfig) (w : World P) (host : String) → Finds c w host
  unfolding find_token
  finds c w host = elim (Bool-cases ((active_token c w host).0 == "" && has_prefix host "gist.")) [
    | inl gist ↦ record {
      lookup_host = trim_prefix host "gist.";
      source = (active_token c w (trim_prefix host "gist.")).1;
      right_host = inr refl;
      found = rw gist refl;
    }
    | inr plain ↦ record {
      lookup_host = host;
      source = (active_token c w host).1;
      right_host = inl refl;
      found = rw plain refl;
    }
  ]

  find_user-cases :
      (w : World P) (host source : String)
      → (find_user w host source ≡ token_user)
        ⊎ (find_user w host source ≡ value_at w (user_path host))
  unfolding find_user
  find_user-cases w host source = ground arith

  credentials-Answers :
      (c : AuthConfig) (w : World P) (wants : Wants) (out : List String)
      → credentials c w wants ≡ ok out
      → Answers c w wants out
  unfolding credentials
  credentials-Answers c w wants out e =
      let f = finds c w (want wants "host") in
      let user = find_user w f.lookup_host f.source in
      let token = (active_token c w f.lookup_host).0 in
      let answered : answer wants user token ≡ ok out =
        sym (ap (λ (r : String × String × String). answer wants (find_user w r.0 r.2) r.1) f.found)
        ∙ e in
      let (has_user, has_token, wanted, printed) = answer_parts wants user token out answered in
      record {
        lookup_host = f.lookup_host;
        user = user;
        right_host = f.right_host;
        has_token = has_token;
        has_user = has_user;
        right_user = find_user-cases w f.lookup_host f.source;
        wanted_user = wanted;
        printed = printed;
      }

  respond-Answers :
      (opts : CredentialOptions) (w : World P) (wants : Wants) (out : List String)
      → respond opts w wants ≡ ok out
      → (c : AuthConfig) × (opts.config ≡ ok c)
        × (want wants "protocol" ≡ "https")
        × Answers c w wants out
  unfolding respond
  respond-Answers opts w wants out e = elim (Bool-cases (is_some opts.scan_error)) [
    | inl broken ↦ ground (arith, e, broken)
    | inr whole ↦ elim (text_cases (want wants "protocol") "https") [
      | inr (other, differs) ↦ ground (arith, e, whole, differs)
      | inl secure ↦ elim (Result-cases opts.config) [
        | inr (x, failed) ↦ ground (arith, e, whole, secure, failed)
        | inl (c, configured) ↦ (
          c,
          configured,
          secure,
          credentials-Answers c w wants out (ground (arith, e, whole, secure, configured)),
        )
      ]
    ]
  ]

  helper_run_get :
      (opts : CredentialOptions) (w : World P)
      → opts.operation ≡ "get"
      → helper_run opts w ≡ Result.◌>>=◌ (read_wants opts.parse_url [] opts.lines) (respond opts w)
  unfolding helper_run
  helper_run_get opts w get = rw get refl

  -- Where git asks for credentials and gets lines back, the request was for https, and the lines are
  -- the host asked for, a user and a token: the active token, not blank, of that host, or of that
  -- host without "gist."; the user is the host's active account or "x-access-token", and a user that
  -- git asked for is the account, up to the case of letters, or the user is "x-access-token".
  pub helper_run-Answers :
      (opts : CredentialOptions) (w : World P) (out : List String)
      → opts.operation ≡ "get"
      → helper_run opts w ≡ ok out
      → (c : AuthConfig) × (wants : Wants) × (opts.config ≡ ok c)
        × (read_wants opts.parse_url [] opts.lines ≡ ok wants)
        × (want wants "protocol" ≡ "https")
        × Answers c w wants out
  helper_run-Answers opts w out get e =
      let read_on = sym (helper_run_get opts w get) ∙ e in
      elim (Result-cases (read_wants opts.parse_url [] opts.lines)) [
        | inr (x, failed) ↦ ground (arith, read_on, failed)
        | inl (wants, read) ↦
            let (c, configured, secure, answers) =
              respond-Answers opts w wants out (ground (arith, read_on, read)) in
            (c, wants, configured, read, secure, answers)
      ]

  -- The operations "store" and "erase" print nothing and succeed, and any other but "get" is an error.
  pub helper_run-other :
      (opts : CredentialOptions) (w : World P)
      → opts.operation ≢ "get"
      → helper_run opts w ≡ (
          if opts.operation == "store" || opts.operation == "erase"
          then ok []
          else err
              (errorf "gh auth git-credential: %q operation not supported" (opts.operation ∷ [])))
  unfolding helper_run
  helper_run-other opts w other = ground (arith, eq_iff opts.operation "get")
