-- ===== src/Tests/Pruning.antt =====
-- Retention of backups at concrete inputs.
use precis_finance_mcp.Common.{
  String, ◌≡◌, ◌⊎◌, refl, Bool, true, false, none, some, List, [], ◌∷◌, ◌==◌, mem, Dict,
}
use precis_finance_mcp.Backup.{BackupManifest, RetentionCfg, prune_bundles}
use precis_finance_mcp.Backup.Kept.{Gone}
use precis_finance_mcp.Backup.Protected.{prune_bundles-protects, prune_bundles-Gone}

abbrev manifest : String → String → BackupManifest
manifest run_id key = record {
  run_id = run_id;
  created_at = none;
  artifacts = record { store = "pg"; key = some key } ∷ record { store = "ch"; key = none } ∷ [];
}

abbrev manifests : Dict BackupManifest
manifests =
    ("manifest/1", manifest "1" "pg/1")
    ∷ ("manifest/2", manifest "2" "pg/2")
    ∷ ("manifest/3", manifest "3" "pg/3")
    ∷ []

abbrev retention : Dict RetentionCfg
retention = ("pg", record { keep = some 1; days = none }) ∷ []

abbrev objects : List String
objects = "manifest/1" ∷ "manifest/2" ∷ "manifest/3" ∷ "pg/1" ∷ "pg/2" ∷ "pg/3" ∷ []

abbrev locked : String → Bool
locked key = key == "pg/2"

abbrev answers : String → String → Bool
answers mkey key = false

-- A locked artifact whose size cannot be asked for loses its manifest.
abbrev unreachable : String → String → Bool
unreachable mkey key = key == "pg/2"

loses_manifest : prune_bundles locked unreachable retention none 0 0 manifests objects ≡ record {
  objects = "manifest/3" ∷ "pg/2" ∷ "pg/3" ∷ [];
  deleted = "manifest/2" ∷ "pg/1" ∷ "manifest/1" ∷ [];
  worm_suppressed = 1;
}
unfolding prune_bundles
loses_manifest = refl

keeps_newest_and_locked :
    prune_bundles locked answers retention none 0 0 manifests objects ≡ record {
      objects = "manifest/2" ∷ "manifest/3" ∷ "pg/2" ∷ "pg/3" ∷ [];
      deleted = "pg/1" ∷ "manifest/1" ∷ [];
      worm_suppressed = 1;
    }
unfolding prune_bundles
keeps_newest_and_locked = refl

prune_bundles-protects_example :
    mem "pg/1" (prune_bundles locked answers retention (some "1") 0 0 manifests objects).objects
    ≡ true
prune_bundles-protects_example =
    prune_bundles-protects (some "1") locked answers retention 0 0 manifests objects "pg/1" refl
      refl refl

prune_bundles-Gone_example :
    (mem "manifest/1" (prune_bundles locked answers retention none 0 0 manifests objects).objects
      ≡ true)
    ⊎ Gone
        (answers "manifest/1")
        (manifest "1" "pg/1")
        (prune_bundles locked answers retention none 0 0 manifests objects)
prune_bundles-Gone_example =
    prune_bundles-Gone none locked answers retention 0 0 manifests objects "manifest/1"
      (manifest "1" "pg/1") refl refl refl
