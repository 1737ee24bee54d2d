-- ===== src/Remotes/Resolver/Found.antt =====
-- pkg/cmd/factory/remote_resolver.go: the remotes that the resolver returns.
use bitbucket_cli.Prelude.{
  String, Bool, true, ◌==◌, ◌!=◌, ◌&&◌, ◌||◌, not, ◌≡◌, ◌≢◌, ◌⊎◌, contains, map, eq_refl, false,
  All-weaken, sym, ◌∙◌, List, [], ◌∷◌, none, some, All, inl, inr, Bool-cases, arith, subst, eq_iff,
  Option-cases,
}
use bitbucket_cli.Prelude.Codes.{Text, codes, equal_fold}
use bitbucket_cli.Prelude.Result.{Result, ok, err, Result-cases}
use bitbucket_cli.External.{Platform}
use bitbucket_cli.World.{World}
use bitbucket_cli.Auth.{AuthConfig, hosts, default_host, has_env_token}
use bitbucket_cli.Remotes.{GitRemote, Remote, any_host, filter_by_hosts, translate_remotes}
use bitbucket_cli.Remotes.Base.{AsGood, as_good}
use bitbucket_cli.StringSet.{new_string_set, contains_value, add_values, to_slice}
use bitbucket_cli.StringSet.Invariant.{
  new_string_set-IsValid, add_values-IsValid, contains_value-add_values,
}
use bitbucket_cli.Remotes.Order.{
  IsSorted, filter_by_hosts-IsSorted, filter_by_hosts-All, filter_by_hosts-any_host,
}
use bitbucket_cli.Remotes.Resolver.{
  Sources, Resolver, new_resolver, allowed_hosts, narrow, keep, known_remotes, with_config,
  with_remotes, resolve, is_host_env, is_empty,
}

-- A host that a remote may have: one that is logged in, the default one or bitbucket.org.
abbrev pub IsKnown : List String → String → Text → Type 0
IsKnown authed default_host_name remote_host =
    (host : String) × (equal_fold remote_host (codes host) ≡ true)
    × ((contains authed host ≡ true) ⊎ ((host ≡ default_host_name) ⊎ (host ≡ "bitbucket.org")))

-- Each name is as good as those that follow.
abbrev pub InOrder : List Remote → Type 0
InOrder [] = Unit
InOrder (a ∷ rest) = All (AsGood a) rest × InOrder rest

-- What holds of a list of remotes that a configuration allows.
pub record Allowed (authed : List String) (default_host_name src : String) (l : List Remote)
    : Type 0 where
  pub in_order : InOrder l
  pub known : All (λ r. IsKnown authed default_host_name r.repo.hostname) l
  pub narrowed :
      (src ≡ "default")
      ⊎ (All (λ r. equal_fold r.repo.hostname (codes default_host_name) ≡ true) l
          ⊎ All (λ r. equal_fold r.repo.hostname (codes default_host_name) ≡ false) l)

InOrder-IsSorted : (l : List Remote) → IsSorted l → InOrder l
InOrder-IsSorted [] h = tt
InOrder-IsSorted (a ∷ rest) (first, h) =
    (All-weaken rest (as_good a) first, InOrder-IsSorted rest h)

host_found :
    (hosts : List String) (h : Text)
    → any_host (map codes hosts) h ≡ true
    → (host : String) × (equal_fold h (codes host) ≡ true) × (contains hosts host ≡ true)
host_found [] h e = absurd (cc)
host_found (x ∷ hosts) h e = elim (Bool-cases (equal_fold h (codes x))) [
  | inl q ↦ (x, q, ground (arith, eq_refl x))
  | inr q ↦ let (host, same, m) = host_found hosts h (rw q at e) in (host, same, ground (arith, m))
]

contains_value-allowed :
    (authed more : List String) (host : String)
    → contains_value (add_values (add_values new_string_set authed) more) host
      ≡ (contains authed host || contains more host)
unfolding contains_value new_string_set
contains_value-allowed authed more host = ground (
  arith,
  contains_value-add_values (add_values new_string_set authed) more host,
  contains_value-add_values new_string_set authed host,
)

member_known :
    (authed : List String) (default_host_name host : String)
    → (contains authed host || contains (default_host_name ∷ "bitbucket.org" ∷ []) host) ≡ true
    → (contains authed host ≡ true) ⊎ ((host ≡ default_host_name) ⊎ (host ≡ "bitbucket.org"))
member_known authed default_host_name host h = elim (Bool-cases (contains authed host)) [
  | inl e ↦ inl e
  | inr e ↦ elim (Bool-cases (default_host_name == host)) [
    | inl q ↦ inr (inl (sym ((eq_iff default_host_name host).0 q)))
    | inr q ↦ inr (inr (sym ((eq_iff "bitbucket.org" host).0 (ground (arith, h, e, q)))))
  ]
]

allowed_hosts-IsKnown :
    (authed : List String) (default_host_name : String) (h : Text)
    → any_host (allowed_hosts authed default_host_name) h ≡ true
    → IsKnown authed default_host_name h
unfolding allowed_hosts to_slice contains_value
allowed_hosts-IsKnown authed default_host_name h e =
    let more = default_host_name ∷ "bitbucket.org" ∷ [] in
    let valid =
      add_values-IsValid (add_values new_string_set authed) more
        (add_values-IsValid new_string_set authed new_string_set-IsValid) in
    let (host, same, m) = host_found _ h e in
    (
      host,
      same,
      member_known authed default_host_name host
          (sym (contains_value-allowed authed more host) ∙ (valid.same host ∙ m)),
    )

one_host : (host h : Text) → any_host (host ∷ []) h ≡ equal_fold h host
one_host host h = ground arith

none_filtered :
    (l : List Remote) (host : Text)
    → is_empty (filter_by_hosts l (host ∷ [])) ≡ true
    → All (λ r. equal_fold r.repo.hostname host ≡ false) l
unfolding filter_by_hosts
none_filtered [] host e = tt
none_filtered (r ∷ l) host e = elim (Bool-cases (equal_fold r.repo.hostname host)) [
  | inl q ↦ absurd (cc (rw q at e))
  | inr q ↦ (q, none_filtered l host (rw q at e))
]

is_default : (src : String) → (src != "default") ≡ false → src ≡ "default"
is_default src h = (eq_iff src "default").0 (ground (arith, h))

narrow-Allowed :
    (authed : List String) (default_host_name src : String) (l : List Remote)
    → IsSorted l
    → All (λ r. any_host (allowed_hosts authed default_host_name) r.repo.hostname ≡ true) l
    → Allowed authed default_host_name src (narrow default_host_name src l)
unfolding narrow
narrow-Allowed authed default_host_name src l order known =
    let host = codes default_host_name in
    let filtered = filter_by_hosts l (host ∷ []) in
    let is_known = λ (r : Remote). allowed_hosts-IsKnown authed default_host_name r.repo.hostname in
    elim (Bool-cases (src != "default" && (is_host_env src || not (is_empty filtered)))) [
      | inl e ↦ rw e (record {
        in_order = InOrder-IsSorted _ (filter_by_hosts-IsSorted l (host ∷ []) order);
        known = All-weaken filtered is_known (filter_by_hosts-All _ l (host ∷ []) known);
        narrowed = inr (
            inl (
              All-weaken filtered (λ r q. sym (one_host host r.repo.hostname) ∙ q)
                (filter_by_hosts-any_host l (host ∷ []))));
      })
      | inr e ↦ rw e (record {
        in_order = InOrder-IsSorted l order;
        known = All-weaken l is_known known;
        narrowed = elim (Bool-cases (src != "default")) [
          | inl other ↦ inr (inr (none_filtered l host (ground (arith, e, other))))
          | inr same ↦ inl (is_default src same)
        ];
      })
    ]

module _ {P : Platform} (sources : Sources) (w : World P) where
  known_remotes-Allowed :
      (c : AuthConfig) (git_remotes : List GitRemote)
      → Allowed
          (hosts c w)
          (default_host c w).0
          (default_host c w).1
          (known_remotes sources w c git_remotes)
  unfolding known_remotes
  known_remotes-Allowed c git_remotes =
      let sorted = sources.sorting.sort (translate_remotes sources.translate git_remotes) in
      let allowed = allowed_hosts (hosts c w) (default_host c w).0 in
      narrow-Allowed (hosts c w) (default_host c w).0 (default_host c w).1
        (filter_by_hosts sorted allowed)
        (filter_by_hosts-IsSorted sorted allowed (sources.sorting.sorted _))
        (filter_by_hosts-any_host sorted allowed)

  keep_ok :
      (src : String) (env : Bool) (l l' : List Remote) (s s' : Resolver)
      → keep src env l s ≡ (ok l', s')
      → (l' ≢ []) × (l ≡ l') × (s'.cached_remotes ≡ some l') × (s'.remotes_error ≡ s.remotes_error)
  unfolding keep
  keep_ok src env [] l' s s' e = ground (arith, e)
  keep_ok src env (r ∷ rest) l' s s' e =
      (ground (arith, e), ground (arith, e), ground (arith, e), ground (arith, e))

  -- What a call that succeeds has done: it found the remotes kept, or it made them and kept them.
  record Makes (l : List Remote) (s s' : Resolver) : Type 0 where
    c : AuthConfig
    git_remotes : List GitRemote
    configured : sources.config ≡ ok c
    some_left : l ≢ []
    known : known_remotes sources w c git_remotes ≡ l
    kept : s'.cached_remotes ≡ some l
    no_error : s'.remotes_error ≡ s.remotes_error

  with_config-Makes :
      (git_remotes : List GitRemote) (l : List Remote) (s s' : Resolver)
      → with_config sources w git_remotes sources.config s ≡ (ok l, s')
      → Makes l s s'
  unfolding with_config
  with_config-Makes git_remotes l s s' e = elim (Result-cases sources.config) [
    | inr (x, failed) ↦ ground (arith, e, failed)
    | inl (c, configured) ↦ elim (Bool-cases (is_empty (hosts c w))) [
      | inl none_known ↦ ground (arith, e, configured, none_known)
      | inr some_known ↦
          let keeps : keep (default_host c w).1 (has_env_token c w)
                (known_remotes sources w c git_remotes) s
              ≡ (ok l, s') =
            ground (arith, e, configured, some_known) in
          let (some_left, known, kept, no_error) =
            keep_ok (default_host c w).1 (has_env_token c w) (known_remotes sources w c git_remotes)
              l s s' keeps in
          record {
            c = c;
            git_remotes = git_remotes;
            configured = configured;
            some_left = some_left;
            known = known;
            kept = kept;
            no_error = no_error;
          }
    ]
  ]

  with_remotes-Makes :
      (r : Result (List GitRemote)) (l : List Remote) (s s' : Resolver)
      → with_remotes sources w r s ≡ (ok l, s')
      → Makes l s s'
  unfolding with_remotes
  with_remotes-Makes (err x) l s s' e = ground (arith, e)
  with_remotes-Makes (ok []) l s s' e = ground (arith, e)
  with_remotes-Makes (ok (r ∷ rest)) l s s' e = with_config-Makes (r ∷ rest) l s s' e

  -- The first call of the resolver, where it succeeds, returns some remotes, the best names first, each
  -- of a host that is logged in, the default one or bitbucket.org. Where the default host has another
  -- source than "default", either all of them are of that host or none is.
  pub resolve-Allowed :
      (l : List Remote) (s' : Resolver)
      → resolve sources w new_resolver ≡ (ok l, s')
      → (c : AuthConfig) × (sources.config ≡ ok c)
        × (l ≢ [])
        × Allowed (hosts c w) (default_host c w).0 (default_host c w).1 l
  unfolding resolve
  resolve-Allowed l s' e =
      let m = with_remotes-Makes sources.read_remotes l new_resolver s' e in
      (
        m.c,
        m.configured,
        m.some_left,
        subst (Allowed (hosts m.c w) (default_host m.c w).0 (default_host m.c w).1) m.known
            (known_remotes-Allowed m.c m.git_remotes),
      )

resolve_kept :
    {P : Platform} (sources : Sources) (w : World P) (l : List Remote) (s : Resolver)
    → s.remotes_error ≡ none
    → s.cached_remotes ≡ some l
    → resolve sources w s ≡ (ok l, s)
unfolding resolve
resolve_kept sources w l s no_error kept = ground (arith, no_error, kept)

module _ {P : Platform} (sources : Sources) (w : World P) where
  kept_after :
      (l : List Remote) (s s' : Resolver)
      → resolve sources w s ≡ (ok l, s')
      → (s'.remotes_error ≡ none) × (s'.cached_remotes ≡ some l)
  unfolding resolve
  kept_after l s s' e = elim (Option-cases s.remotes_error) [
    | inr (x, failed) ↦ ground (arith, e, failed)
    | inl no_error ↦ elim (Option-cases s.cached_remotes) [
      | inr (l', kept) ↦ (ground (arith, e, no_error, kept), ground (arith, e, no_error, kept))
      | inl absent ↦
          let m =
            with_remotes-Makes sources w sources.read_remotes l s s'
              (ground (arith, e, no_error, absent)) in
          (m.no_error ∙ no_error, m.kept)
    ]
  ]

  -- After a call that succeeds, every later call returns the same remotes and changes nothing, whatever
  -- has become of the configuration and of the remotes on disk.
  pub resolve_again :
      (sources' : Sources) (w' : World P) (l : List Remote) (s s' : Resolver)
      → resolve sources w s ≡ (ok l, s')
      → resolve sources' w' s' ≡ (ok l, s')
  resolve_again sources' w' l s s' e =
      let (no_error, kept) = kept_after l s s' e in resolve_kept sources' w' l s' no_error kept
