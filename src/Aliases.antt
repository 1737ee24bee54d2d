-- ===== src/Aliases.antt =====
-- `AliasConfig` of internal/config/config.go: the aliases of commands, each a key below `aliases`.
use bitbucket_cli.Prelude.{
  String, ◌≡◌, refl, ◌∙◌, ap, Option, none, some, List, [], ◌∷◌, map, true, ◌==◌, arith, eq_iff,
  eq_refl, is_some, value_or, if◌then◌else◌, contains, text_cases, inl, inr, Option-cases,
}
use bitbucket_cli.Prelude.Result.{Result}
use bitbucket_cli.External.{Platform}
use bitbucket_cli.Action.{Action}
use bitbucket_cli.World.{World, found, value_at, set_key, remove_key}
use bitbucket_cli.Config.Keys.{aliases_key}

abbrev pub alias_path : String → List String
alias_path alias = aliases_key ∷ alias ∷ []

-- What a map holds under a key.
abbrev pub lookup : List (String × String) → String → Option String
lookup [] k = none
lookup ((j, v) ∷ rest) k = let later = lookup rest k in if j == k then some v else later

module _ {P : Platform} where
  -- `Get`
  unfoldable pub get_alias : World P → String → Result String
  get_alias w alias = found (P.config.get w.file (alias_path alias))

  -- `Add`
  unfoldable pub add_alias : String → String → Action (World P) (Unit {0})
  add_alias alias expansion = set_key (alias_path alias) expansion

  -- `Delete`
  unfoldable pub delete_alias : String → Action (World P) (Unit {0})
  delete_alias alias = remove_key (alias_path alias)

  -- `All`; Go's map is the list of its keys and values.
  unfoldable pub all_aliases : World P → List (String × String)
  all_aliases w =
      map (λ key. (key, value_at w (alias_path key)))
        (value_or (P.config.keys w.file (aliases_key ∷ [])) [])

lookup-map :
    (l : List String) (f : String → String) (k : String)
    → lookup (map (λ key. (key, f key)) l) k ≡ (if contains l k then some (f k) else none)
lookup-map [] f k = refl
lookup-map (j ∷ l) f k = elim (text_cases j k) [
  | inl same ↦ ground (arith, lookup-map l f k, same, ap f same, (eq_iff j k).1 same)
  | inr (other, differs) ↦ ground (arith, lookup-map l f k, differs)
]

module _ {P : Platform} where
  -- `All` holds what `Get` returns, where there is a mapping of aliases at all.
  lookup-all_aliases :
      (w : World P) (k : String)
      → is_some (P.config.get w.file (aliases_key ∷ [])) ≡ true
      → lookup (all_aliases w) k ≡ P.config.get w.file (alias_path k)
  unfolding all_aliases
  lookup-all_aliases w k there = elim (Option-cases (P.config.keys w.file (aliases_key ∷ []))) [
    | inl absent ↦
        ground (arith, P.config.is_some-keys w.file (aliases_key ∷ []), there, ap is_some absent)
    | inr (l, keys) ↦ rw keys (
        lookup-map l (λ key. value_at w (alias_path key)) k
        ∙ ground (arith, P.config.contains-keys w.file (aliases_key ∷ []) l k keys))
  ]

  -- After an alias was added, the map of all aliases holds its expansion, and every other alias as
  -- before.
  pub all_aliases-add_alias :
      (w : World P) (alias expansion k : String)
      → lookup (all_aliases (add_alias alias expansion w).1) k
        ≡ (if alias == k then some expansion else P.config.get w.file (alias_path k))
  unfolding add_alias
  all_aliases-add_alias w alias expansion k =
      lookup-all_aliases (add_alias alias expansion w).1 k
        (ap is_some (P.config.get-set w.file (alias_path alias) (aliases_key ∷ []) expansion))
      ∙ simp (P.config.get-set, eq_refl)

  -- After a deletion the map of all aliases holds every alias as before but the one deleted.
  pub all_aliases-delete_alias :
      (w : World P) (alias k : String)
      → is_some (P.config.get w.file (aliases_key ∷ [])) ≡ true
      → lookup (all_aliases (delete_alias alias w).1) k
        ≡ (if alias == k then none else lookup (all_aliases w) k)
  unfolding delete_alias
  all_aliases-delete_alias w alias k there =
      lookup-all_aliases (delete_alias alias w).1 k (simp (P.config.get-remove, eq_refl) there)
      ∙ ground (
        arith,
        P.config.get-remove w.file (alias_path alias) (alias_path k),
        eq_refl aliases_key,
        lookup-all_aliases w k there,
      )
