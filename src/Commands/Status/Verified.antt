-- ===== src/Commands/Status/Verified.antt =====
-- pkg/cmd/auth/status/status.go: what a run that succeeds has verified.
use bitbucket_cli.Prelude.{
  map, map-append, and_true, String, ◌≡◌, ◌≢◌, refl, ap, sym, subst, false, true, ◌&&◌, not, Option,
  none, some, List, [], ◌∷◌, ◌++◌, nat_eq, Bool-cases, inl, inr, contains, ◌!=◌,
}
use bitbucket_cli.Prelude.Codes.{Text, text_eq, has_code, colon}
use bitbucket_cli.Prelude.Result.{Result, ok, err, ok_inj}
use bitbucket_cli.Action.{lift}
use bitbucket_cli.Action.Inversion.{bind_ok, guard_ok}
use bitbucket_cli.External.{Platform}
use bitbucket_cli.World.{World}
use bitbucket_cli.Auth.{AuthConfig, hosts}
use bitbucket_cli.Repo.{rest_prefix, is_cloud}
use bitbucket_cli.Api.{HttpLib, Response, Session, do_request}
use bitbucket_cli.Api.Requests.{of_not, Answered, do_request_ok}
use bitbucket_cli.PullRequest.Fetched.{nat_eq-true}
use bitbucket_cli.Commands.Status.{
  Entry, Account, StatusLib, StatusOptions, cut_colon, user_request, verify_parts, verify_token,
  state_of, entry_of, is_success, all_verified, hosts_verified, build_entries, build_hosts,
  bitbucket_hosts, chosen, accounts_of, no_hosts, show_entries, status_run, is_none_of,
}
use bitbucket_cli.Commands.Status.Wanted.{
  chosen_hosts, wanted, verified_of, accounts_in, user_asked, IsCut, cut_colon-IsCut, chosen-ne-nil,
  wanted-accounts,
}

success_of :
    (lib : StatusLib) (r : Result (Unit {0})) → is_success (state_of lib r) ≡ true → r ≡ ok tt
unfolding state_of
success_of lib (ok x) h = refl
success_of lib (err e) h = elim (Bool-cases (lib.is_timeout e)) [
  | inl q ↦ absurd (cc (rw q at h))
  | inr q ↦ absurd (cc (rw q at h))
]

module _ {H : HttpLib} (lib : StatusLib) where
  -- The token of an account is an email and a secret, and the server answered them by 200.
  pub record Verified (hostname : String) (token : Text) (s t : Session H) : Type 0 where
    pub email : Text
    pub secret : Text
    pub parts : token ≡ email ++ colon ∷ secret
    pub no_colon : has_code colon email ≡ false
    pub response : Response
    pub answered : Answered (user_asked lib hostname email secret) s t response
    pub status : response.status ≡ 200

  parts_ok :
      (hostname : String) (o : Option (Text × Text)) (s : Session H) {t : Session H}
      → verify_parts lib hostname o s ≡ (ok tt, t)
      → (p : Text × Text) × (o ≡ some p)
        × (r : Response) × Answered (user_request lib hostname p.0 p.1) s t r
        × (r.status ≡ 200)
  unfolding verify_parts
  parts_ok hostname none s h = absurd (cc)
  parts_ok hostname (some (email, secret)) s {t = t} h =
      let request = user_request lib hostname email secret in
      let (r, e, k) = bind_ok (do_request request) _ s h in
      let (good, k') = guard_ok (not (nat_eq r.status 200)) _ _ _ k in
      (
        (email, secret),
        refl,
        r,
        subst (λ u. Answered request s u r) (ap (λ p. p.1) k') (do_request_ok request s e),
        nat_eq-true r.status 200 (of_not (nat_eq r.status 200) good),
      )

  token_ok :
      (a : Account) (s : Session H) {t : Session H}
      → verify_token lib a.hostname a.token s ≡ (ok tt, t)
      → Verified a.hostname a.token s t
  unfolding verify_token rest_prefix is_cloud
  token_ok a s h =
      let (_, k) = guard_ok (text_eq a.token []) _ _ s h in
      let (p, e, r, answered, status) = parts_ok a.hostname (cut_colon a.token) s k in
      record {
        email = p.0;
        secret = p.1;
        parts = (subst (IsCut a.token) e (cut_colon-IsCut a.token)).0;
        no_colon = (subst (IsCut a.token) e (cut_colon-IsCut a.token)).1;
        response = r;
        answered = answered;
        status = status;
      }

  -- The accounts were verified one after another.
  pub data AllVerified : List (String × Text) → Session H → Session H → Type 0 where
    none_left : {s : Session H} → AllVerified [] s s
    then_next :
        {hostname : String} {token : Text} {rest : List (String × Text)} {s t u : Session H}
        → Verified hostname token s t
        → AllVerified rest t u
        → AllVerified ((hostname, token) ∷ rest) s u

  AllVerified-append :
      {a b : List (String × Text)} {s t u : Session H}
      → AllVerified a s t
      → AllVerified b t u
      → AllVerified (a ++ b) s u
  AllVerified-append none_left q = q
  AllVerified-append (then_next v p) q = then_next v (AllVerified-append p q)

  entries_ok :
      (accounts : List Account) (s : Session H) {t : Session H} {entries : List Entry}
      → build_entries lib accounts s ≡ (ok entries, t)
      → all_verified entries ≡ true
      → AllVerified (map verified_of accounts) s t
  unfolding build_entries entry_of
  entries_ok [] s h good = subst (AllVerified [] s) (ap (λ p. p.1) h) none_left
  entries_ok (a ∷ rest) s {t = t} h good =
      let verifying = verify_token lib a.hostname a.token s in
      let (later, e, k) = bind_ok (build_entries lib rest) _ verifying.1 h in
      let all = subst (λ l. all_verified l ≡ true) (sym (ok_inj (ap (λ p. p.0) k))) good in
      let (first, others) =
        and_true (is_success (state_of lib verifying.0)) (all_verified later) all in
      then_next (token_ok a s (ap (λ r. (r, verifying.1)) (success_of lib verifying.0 first))) (
        subst (AllVerified (map verified_of rest) verifying.1) (ap (λ p. p.1) k)
          (entries_ok rest verifying.1 e others))

  groups_ok :
      (groups : List (String × List Account)) (s : Session H) {t : Session H}
      {found : List (String × List Entry)}
      → build_hosts lib groups s ≡ (ok found, t)
      → hosts_verified found ≡ true
      → AllVerified (map verified_of (accounts_in groups)) s t
  unfolding build_hosts
  groups_ok [] s h good = subst (AllVerified [] s) (ap (λ p. p.1) h) none_left
  groups_ok ((host, accounts) ∷ rest) s {t = t} h good =
      let (entries, e, k) = bind_ok (build_entries lib accounts) _ s h in
      let (later, e', k') = bind_ok (build_hosts lib rest) _ (build_entries lib accounts s).1 k in
      let all = subst (λ l. hosts_verified l ≡ true) (sym (ok_inj (ap (λ p. p.0) k'))) good in
      let (first, others) = and_true (all_verified entries) (hosts_verified later) all in
      rw (map-append verified_of accounts (accounts_in rest)) (
        AllVerified-append (entries_ok accounts s e first) (
          subst (AllVerified (map verified_of (accounts_in rest)) (build_entries lib accounts s).1)
            (ap (λ p. p.1) k') (groups_ok rest (build_entries lib accounts s).1 e' others)))

  no_hosts_fails :
      (opts : StatusOptions) (format : String) (arguments : List Text) (s : Session H)
      {t : Session H}
      → opts.json ≡ false
      → no_hosts lib opts format arguments s ≢ (ok tt, t)
  unfolding no_hosts
  no_hosts_fails opts format arguments s plain h = cc (rw plain at h)

  show_ok :
      (opts : StatusOptions) (found : List (String × List Entry)) (s : Session H) {t : Session H}
      → opts.json ≡ false
      → show_entries lib opts found s ≡ (ok tt, t)
      → (hosts_verified found ≡ true) × (t.sent ≡ s.sent) × (t.err_out ≡ s.err_out)
  unfolding show_entries
  show_ok opts found s plain h = elim (Bool-cases (hosts_verified found)) [
    | inl e ↦
        let k = rw (plain, e) at h in (e, sym (ap (λ p. p.1.sent) k), sym (ap (λ p. p.1.err_out) k))
    | inr e ↦ absurd (cc (rw (plain, e) at h))
  ]

  -- A run of `bb auth status` that succeeds without `--json` has chosen some host and verified, one after another, the
  -- active token of each chosen host and, without `--active`, the token of each other user of the host,
  -- where a host of github.com is none that can be chosen: each token is an email and a secret, which
  -- one GET of `user` gave to the server and which it answered by 200. Nothing else was sent, and
  -- nothing written to standard error after that.
  pub status_run_done :
      {P : Platform} (opts : StatusOptions) (w : World P) (s t : Session H)
      → opts.json ≡ false
      → status_run lib opts w s ≡ (ok tt, t)
      → (c : AuthConfig) × (opts.config ≡ ok c)
        × (chosen_hosts opts (hosts c w) ≢ [])
        × (u : Session H) × AllVerified (wanted c w opts.active (chosen_hosts opts (hosts c w))) s u
        × (t.sent ≡ u.sent)
        × (t.err_out ≡ u.err_out)
  unfolding status_run
  status_run_done opts w s t plain h =
      let (c, e, k) = bind_ok (lift (λ s. opts.config)) _ s h in
      let known = bitbucket_hosts (hosts c w) in
      elim (Bool-cases (is_none_of known)) [
        | inl q ↦ absurd (no_hosts_fails opts _ _ s plain (rw q at k))
        | inr q ↦ elim (Bool-cases (opts.hostname != "" && not (contains known opts.hostname))) [
          | inl q' ↦ absurd (no_hosts_fails opts _ _ s plain (rw (q, q') at k))
          | inr q' ↦
              let groups = accounts_of c w opts (chosen opts.hostname known) in
              let (found, e', k') = bind_ok (build_hosts lib groups) _ s (rw (q, q') at k) in
              let (good, sent, err_out) = show_ok opts found _ plain k' in
              (
                c,
                ap (λ p. p.0) e,
                chosen-ne-nil opts.hostname known q q',
                (build_hosts lib groups s).1,
                subst (λ l. AllVerified l s (build_hosts lib groups s).1)
                    (wanted-accounts c w opts (chosen opts.hostname known))
                    (groups_ok groups s e' good),
                sent,
                err_out,
              )
        ]
      ]
