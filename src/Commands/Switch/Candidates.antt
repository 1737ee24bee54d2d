-- ===== src/Commands/Switch/Candidates.antt =====
-- pkg/cmd/auth/switch/switch.go: the accounts that are found and the choice among them.
use bitbucket_cli.Prelude.{
  String, ◌≡◌, ◌≢◌, List, [], ◌∷◌, ◌++◌, map, true, ◌==◌, ◌!=◌, ◌&&◌, ℕ, zero, suc, arith, eq_iff,
  eq_refl, if◌then◌else◌, contains, All, All-append, inl, inr, Bool-cases, subst,
}
use bitbucket_cli.Prelude.Result.{ok, Result-cases}
use bitbucket_cli.External.{Platform}
use bitbucket_cli.World.{World}
use bitbucket_cli.Auth.{AuthConfig, hosts, users_for_host, active_user}
use bitbucket_cli.Commands.{at}
use bitbucket_cli.Commands.Switch.{
  SwitchOptions, HostUser, host_candidates, candidates, choice_text, ask, choose, check_known,
  switch_target,
}

module _ {P : Platform} where
  -- An account that is logged in, and that the names given select.
  pub record Selected (w : World P) (known : List String) (hostname username h u : String)
      : Type 0 where
    pub host_known : contains known h ≡ true
    pub user_known : contains (users_for_host w h) u ≡ true
    pub right_host : hostname ≢ "" → h ≡ hostname
    pub right_user : username ≢ "" → u ≡ username

  abbrev Found : World P → List String → String → String → HostUser → Type 0
  Found w known hostname username c = Selected w known hostname username c.host c.user

  host_candidates-Found :
      (w : World P) (known : List String) (hostname username host active_name : String)
      (users : List String)
      → contains known host ≡ true
      → (hostname ≢ "" → host ≡ hostname)
      → ((u : String) → contains users u ≡ true → contains (users_for_host w host) u ≡ true)
      → All (Found w known hostname username) (host_candidates username host active_name users)
  unfolding host_candidates
  host_candidates-Found w known hostname username host active_name [] k r us = tt
  host_candidates-Found w known hostname username host active_name (u ∷ rest) k r us =
      let later =
        host_candidates-Found w known hostname username host active_name rest k r
          (λ v e. us v (ground (arith, e))) in
      elim (Bool-cases (username != "" && u != username)) [
        | inl skipped ↦ rw skipped later
        | inr taken ↦ rw taken (
          record {
            host_known = k;
            user_known = us u (ground (arith, eq_refl u));
            right_host = r;
            right_user = λ given. ground (arith, taken, eq_iff username "", eq_iff u username);
          },
          later,
        )
      ]

  Found-weaken :
      (w : World P) (known : List String) (hostname username h : String) (l : List HostUser)
      → All (Found w known hostname username) l
      → All (Found w (h ∷ known) hostname username) l
  Found-weaken w known hostname username h [] _ = tt
  Found-weaken w known hostname username h (c ∷ l) (p, ps) = (
    record {
      host_known = ground (arith, p.host_known);
      user_known = p.user_known;
      right_host = p.right_host;
      right_user = p.right_user;
    },
    Found-weaken w known hostname username h l ps,
  )

  candidates-Found :
      (w : World P) (hostname username : String) (known : List String) (l : List HostUser)
      → candidates w hostname username known ≡ ok l
      → All (Found w known hostname username) l
  unfolding candidates
  candidates-Found w hostname username [] l e =
      let none_found : [] ≡ l = ground (arith, e) in
      subst (All (Found w [] hostname username)) none_found tt
  candidates-Found w hostname username (host ∷ rest) l e =
      elim (Bool-cases (hostname != "" && host != hostname)) [
        | inl skipped ↦
            Found-weaken w rest hostname username host l
              (candidates-Found w hostname username rest l (ground (arith, e, skipped)))
        | inr taken ↦ elim (Result-cases (active_user w host)) [
          | inr (x, failed) ↦ ground (arith, e, taken, failed)
          | inl (name, active) ↦ elim (Result-cases (candidates w hostname username rest)) [
            | inr (x, failed) ↦ ground (arith, e, taken, active, failed)
            | inl (l', found) ↦
                let here = host_candidates username host name (users_for_host w host) in
                let whole : (here ++ l') ≡ l = ground (arith, e, taken, active, found) in
                subst (All (Found w (host ∷ rest) hostname username)) whole (
                  All-append (Found w (host ∷ rest) hostname username) here l'
                    (host_candidates-Found w (host ∷ rest) hostname username host name
                      (users_for_host w host) (ground (arith, eq_refl host))
                      (λ given. ground (arith, taken, eq_iff hostname "", eq_iff host hostname))
                      (λ u known. known))
                    (Found-weaken w rest hostname username host l'
                      (candidates-Found w hostname username rest l' found)))
          ]
        ]
      ]

-- What holds of every candidate holds of the account that is chosen.
module _ (Q : String → String → Type 0) where
  abbrev Each : List HostUser → Type 0
  Each = All (λ c. Q c.host c.user)

  moved : (h u h' u' : String) → h ≡ h' → u ≡ u' → Q h u → Q h' u'
  moved h u h' u' same same' q = subst (Q h') same' (subst (λ x. Q x u) same q)

  at-Each : (l : List HostUser) (n : ℕ) (c : HostUser) → Each l → at l n ≡ ok c → Q c.host c.user
  at-Each [] n c all e = ground (arith, e)
  at-Each (d ∷ l) zero c (p, ps) e =
      moved d.host d.user c.host c.user (ground (arith, e)) (ground (arith, e)) p
  at-Each (d ∷ l) (suc n) c (p, ps) e = at-Each l n c ps e

  ask-Each :
      (opts : SwitchOptions) (l : List HostUser) (h u : String)
      → Each l
      → ask opts l ≡ ok (h, u)
      → Q h u
  unfolding ask
  ask-Each opts l h u all e = elim (Bool-cases opts.can_prompt) [
    | inr silent ↦ ground (arith, e, silent)
    | inl asks ↦
        elim (Result-cases
          (opts.select "What account do you want to switch to?" (map choice_text l))) [
            | inr (x, failed) ↦ ground (arith, e, asks, failed)
            | inl (n, selected) ↦ elim (Result-cases (at l n)) [
              | inr (x, failed) ↦ ground (arith, e, asks, selected, failed)
              | inl (c, chosen) ↦
                  moved c.host c.user h u (ground (arith, e, asks, selected, chosen))
                    (ground (arith, e, asks, selected, chosen)) (at-Each l n c all chosen)
            ]
          ]
  ]

  choose-Each :
      (opts : SwitchOptions) (l : List HostUser) (h u : String)
      → Each l
      → choose opts l ≡ ok (h, u)
      → Q h u
  unfolding choose
  choose-Each opts [] h u all e = ground (arith, e)
  choose-Each opts (c ∷ []) h u (p, _) e =
      moved c.host c.user h u (ground (arith, e)) (ground (arith, e)) p
  choose-Each opts (c ∷ d ∷ []) h u (p, (q, _)) e = elim (Bool-cases (c.host == d.host)) [
    | inr apart ↦ ask-Each opts (c ∷ d ∷ []) h u (p, (q, tt)) (ground (arith, e, apart))
    | inl together ↦ elim (Bool-cases c.active) [
      | inl first ↦
          moved d.host d.user h u (ground (arith, e, together, first, eq_iff c.host d.host))
            (ground (arith, e, together, first)) q
      | inr second ↦
          moved c.host c.user h u (ground (arith, e, together, second))
            (ground (arith, e, together, second)) p
    ]
  ]
  choose-Each opts (c ∷ d ∷ f ∷ rest) h u all e = ask-Each opts (c ∷ d ∷ f ∷ rest) h u all e

module _ {P : Platform} (opts : SwitchOptions) (c : AuthConfig) where
  -- The account that `bb auth switch` settles on is logged in: its host is among the known ones and its
  -- user among the host's. A host and a user that were named are the ones chosen.
  pub switch_target-Selected :
      (w : World P) (h u : String)
      → switch_target opts c w ≡ ok (h, u)
      → Selected w (hosts c w) opts.hostname opts.username h u
  unfolding switch_target
  switch_target-Selected w h u e =
      elim (Result-cases (check_known c w opts.hostname opts.username)) [
        | inr (x, refused) ↦ ground (arith, e, refused)
        | inl (_, passed) ↦
            elim (Result-cases (candidates w opts.hostname opts.username (hosts c w))) [
              | inr (x, failed) ↦ ground (arith, e, passed, failed)
              | inl (l, found) ↦
                  choose-Each (Selected w (hosts c w) opts.hostname opts.username) opts l h u
                    (candidates-Found w opts.hostname opts.username (hosts c w) l found)
                    (ground (arith, e, passed, found))
            ]
      ]

  -- With one known host, two accounts on it and no names given, the account that is not active is
  -- chosen, and the user is not asked.
  pub switch_target-toggles :
      (w : World P) (h a b name : String)
      → hosts c w ≡ h ∷ []
      → users_for_host w h ≡ a ∷ b ∷ []
      → active_user w h ≡ ok name
      → opts.hostname ≡ ""
      → opts.username ≡ ""
      → switch_target opts c w ≡ ok (h, if a == name then b else a)
  unfolding switch_target check_known candidates host_candidates choose
  switch_target-toggles w h a b name hosts_are users_are active no_host no_user =
      rw hosts_are (rw no_host (rw no_user (rw active (rw users_are (ground (arith, eq_refl h))))))
