-- ===== src/Commands/AliasSet/Outcome.antt =====
-- pkg/cmd/alias/set/set.go: what the command leaves.
use bitbucket_cli.Prelude.{
  String, ◌≡◌, ◌⊎◌, ap, ◌∙◌, true, ◌==◌, some, if◌then◌else◌, is_some, arith, inl, inr, Bool-cases,
}
use bitbucket_cli.Prelude.Result.{ok, Result-cases}
use bitbucket_cli.External.{Platform}
use bitbucket_cli.Aliases.{
  alias_path, lookup, get_alias, add_alias, all_aliases, all_aliases-add_alias,
}
use bitbucket_cli.Commands.{Console}
use bitbucket_cli.Commands.AliasSet.{
  SetOptions, get_expansion, shell_expansion, check_alias, alias_set_run, is_alias,
}

module _ {P : Platform} (opts : SetOptions) where
  record Sets (s s' : Console P) : Type 0 where
    given : String
    expands : get_expansion opts ≡ ok given
    checked :
        check_alias opts (is_alias (get_alias s.world opts.name)) (shell_expansion opts given)
        ≡ ok tt
    file : s'.world.file ≡ (add_alias opts.name (shell_expansion opts given) s.world).1.file
    disk : s'.world.disk ≡ s'.world.file

  sets : (s s' : Console P) → alias_set_run opts s ≡ (ok tt, s') → Sets s s'
  unfolding alias_set_run add_alias
  sets s s' e = elim (Result-cases (get_expansion opts)) [
    | inr (x, failed) ↦ ground (arith, e, failed)
    | inl (given, expands) ↦
        elim (Result-cases (
          check_alias opts (is_alias (get_alias s.world opts.name)) (shell_expansion opts given))) [
            | inr (x, refused) ↦ ground (arith, e, expands, refused)
            | inl (_, checked) ↦ record {
              given = given;
              expands = expands;
              checked = checked;
              file = ground (arith, e, expands, checked);
              disk = ground (arith, e, expands, checked);
            }
          ]
  ]

  -- A run of `bb alias set` that succeeds had a valid expansion, and a valid name or else that of an alias
  -- that may be overwritten; after it the map of all aliases holds the expansion under the name and every
  -- other alias as before, and the disk holds the configuration in memory.
  pub alias_set_run_done :
      (s s' : Console P)
      → alias_set_run opts s ≡ (ok tt, s')
      → (given : String) × (get_expansion opts ≡ ok given)
        × (opts.expansion_is_valid (shell_expansion opts given) ≡ true)
        × ((opts.name_is_valid opts.name ≡ true)
            ⊎ ((is_some (P.config.get s.world.file (alias_path opts.name)) ≡ true)
                × (opts.overwrite_existing ≡ true)))
        × ((k : String)
            → lookup (all_aliases s'.world) k ≡ (
                if opts.name == k
                then some (shell_expansion opts given)
                else P.config.get s.world.file (alias_path k)))
        × (s'.world.disk ≡ s'.world.file)
  unfolding check_alias get_alias is_alias all_aliases
  alias_set_run_done s s' e =
      let r = sets s s' e in
      let w1 = (add_alias opts.name (shell_expansion opts r.given) s.world).1 in
      let same : all_aliases s'.world ≡ all_aliases w1 =
        ap (λ f. all_aliases (record s.world { file = f })) r.file in
      (
        r.given,
        r.expands,
        ground (arith, r.checked),
        elim (Bool-cases (opts.name_is_valid opts.name)) [
          | inl valid ↦ inl valid
          | inr taken ↦ inr (ground (arith, r.checked, taken), ground (arith, r.checked, taken))
        ],
        λ k.
            ap (λ l. lookup l k) same
            ∙ all_aliases-add_alias s.world opts.name (shell_expansion opts r.given) k,
        r.disk,
      )
