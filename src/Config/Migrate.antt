-- ===== src/Config/Migrate.antt =====
-- `Migrate` of internal/config/config.go.
use bitbucket_cli.Prelude.{String, ◌≡◌, refl, some, arith, value_or, eq_iff, eq_refl}
use bitbucket_cli.Prelude.Result.{ok}
use bitbucket_cli.External.{Platform}
use bitbucket_cli.World.{World}
use bitbucket_cli.Config.{set, version, Migration, migrate}
use bitbucket_cli.Config.Keys.{version_key}
use bitbucket_cli.Config.Settings.{get-set}

module _ {P : Platform} (m : Migration P) where
  migrate_again :
      (w : World P) → value_or (version w) "" ≡ m.post_version → migrate m w ≡ (ok tt, w)
  unfolding migrate
  migrate_again w e = rw (e, eq_refl)

  version-set_version : (w : World P) (v : String) → version (set "" version_key v w) ≡ some v
  unfolding version
  version-set_version w v = get-set w "" version_key v

  version_disk : (w : World P) (d : P.config.File) → version (record w { disk = d }) ≡ version w
  unfolding version
  version_disk w d = refl

  version_done :
      (w w' : World P) → migrate m w ≡ (ok tt, w') → value_or (version w') "" ≡ m.post_version
  unfolding migrate
  version_done w w' e = ground (
    arith,
    eq_iff m.post_version (value_or (version w) ""),
    version-set_version (m.run w).1 m.post_version,
    version_disk (set "" version_key m.post_version (m.run w).1)
        (set "" version_key m.post_version (m.run w).1).file,
  )

  -- A migration that returns without an error leaves the configuration at the migration's version,
  -- and running the same migration again returns at once and changes nothing.
  pub migrate_done :
      (w w' : World P)
      → migrate m w ≡ (ok tt, w')
      → (value_or (version w') "" ≡ m.post_version) × (migrate m w' ≡ (ok tt, w'))
  migrate_done w w' e = (version_done w w' e, migrate_again w' (version_done w w' e))
