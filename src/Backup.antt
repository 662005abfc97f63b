-- ===== src/Backup.antt =====
-- Retention of backups (precis_mcp/backup/prune.py): which artifacts and manifests are deleted at a
-- destination. The destination is the list of its objects' keys; which deletes it denies, and which of
-- its answers about an object's size fail although the object may be there, are parameters. A delete
-- that fails otherwise, which ends the pruning, is not modelled. Times are seconds; a run's start that
-- cannot be read is missing, and the clock, which then stands for it, is a parameter beside the time
-- that the pruning is given. Of manifests and their entries, the fields that pruning reads are kept.
pub mod Kept
pub mod Protected
use precis_finance_mcp.Common.{
  ℕ, ◌+◌, ◌*◌, String, Bool, true, false, not, ◌&&◌, ◌||◌, Option, none, some, List, [], ◌∷◌, ◌++◌,
  ◌==◌, if◌then◌else◌, is_empty, leb, ltb, eqb, mem, keep, Dict, lookup, put,
}
use precis_finance_mcp.Common.Sort.{le_text}

pub record ArtifactEntry : Type 0 where
  pub store : String
  pub key : Option String

pub record BackupManifest : Type 0 where
  pub run_id : String
  pub created_at : Option ℕ
  pub artifacts : List ArtifactEntry

pub record RetentionCfg : Type 0 where
  pub keep : Option ℕ
  pub days : Option ℕ

-- The keys of a manifest's artifacts that have one.
abbrev pub key_or_none : Option String → List String
key_or_none none = []
key_or_none (some key) = if key == "" then [] else key ∷ []

abbrev pub artifact_keys : List ArtifactEntry → List String
artifact_keys [] = []
artifact_keys (entry ∷ artifacts) = key_or_none entry.key ++ artifact_keys artifacts

-- `manifest.artifact(store)`, and its key where it has one: the first entry of the store decides.
unfoldable pub artifact : String → List ArtifactEntry → List String
artifact store [] = []
artifact store (entry ∷ artifacts) =
    let later = artifact store artifacts in
    if entry.store == store then key_or_none entry.key else later

-- `sorted(manifests.items(), key=run_id, reverse=True)`
abbrev pub insert_newest : String × BackupManifest → Dict BackupManifest → Dict BackupManifest
insert_newest e [] = e ∷ []
insert_newest e (f ∷ d) = if le_text f.1.run_id e.1.run_id then e ∷ f ∷ d else f ∷ insert_newest e d

unfoldable pub newest_first : Dict BackupManifest → Dict BackupManifest
newest_first [] = []
newest_first (e ∷ d) = insert_newest e (newest_first d)

-- A run of a store: its manifest's key, its manifest, and the artifact's key.
pub record StoredRun : Type 0 where
  pub mkey : String
  pub manifest : BackupManifest
  pub artifact_key : String

abbrev pub run_of : String → BackupManifest → List String → List StoredRun
run_of mkey manifest [] = []
run_of mkey manifest (key ∷ _) =
    record { mkey = mkey; manifest = manifest; artifact_key = key } ∷ []

unfoldable pub with_artifact : String → Dict BackupManifest → List StoredRun
unfolding artifact
with_artifact store [] = []
with_artifact store ((mkey, m) ∷ manifests) =
    run_of mkey m (artifact store m.artifacts) ++ with_artifact store manifests

abbrev pub is_protected : Option String → BackupManifest → Bool
is_protected none manifest = false
is_protected (some run_id) manifest = manifest.run_id == run_id

abbrev pub too_many : RetentionCfg → ℕ → Bool
too_many retention rank = elim retention.keep [ none ↦ false | some n ↦ leb n rank ]

-- `_run_started`: the clock where the start cannot be read.
abbrev pub run_started : ℕ → BackupManifest → ℕ
run_started clock manifest = elim manifest.created_at [ none ↦ clock | some started ↦ started ]

-- Before the cutoff, where there are days.
abbrev pub too_old : RetentionCfg → ℕ → ℕ → BackupManifest → Bool
too_old retention now clock manifest = elim retention.days [
  | none ↦ false
  | some days ↦ not (eqb days 0) && ltb (run_started clock manifest + days * 86400) now
]

abbrev pub keys_at : String → Dict (List String) → List String
keys_at mkey doomed = elim (lookup mkey doomed) [ none ↦ [] | some found ↦ found ]

-- `doomed_artifacts.setdefault(mkey, []).append(artifact.key)`
abbrev pub doom : StoredRun → Dict (List String) → Dict (List String)
doom run doomed = put run.mkey (keys_at run.mkey doomed ++ run.artifact_key ∷ []) doomed

module _ (protect_run_id : Option String) (now clock : ℕ) where
  unfoldable pub doom_ranked :
      RetentionCfg → ℕ → List StoredRun → Dict (List String) → Dict (List String)
  doom_ranked retention rank [] doomed = doomed
  doom_ranked retention rank (run ∷ runs) doomed = doom_ranked retention (rank + 1) runs (
      if is_protected protect_run_id run.manifest
      then doomed
      else if too_many retention rank || too_old retention now clock run.manifest
      then doom run doomed
      else doomed)

  unfoldable pub doom_stores :
      Dict RetentionCfg → Dict BackupManifest → Dict (List String) → Dict (List String)
  unfolding doom_ranked with_artifact newest_first
  doom_stores [] manifests doomed = doomed
  doom_stores ((store, retention) ∷ stores) manifests doomed =
      doom_stores stores manifests
        (doom_ranked retention 0 (with_artifact store (newest_first manifests)) doomed)

-- The destination's objects, and the report.
pub record Pruning : Type 0 where
  pub objects : List String
  pub deleted : List String
  pub worm_suppressed : ℕ

module _ (denies : String → Bool) where
  -- `dest.delete(key)`, and what the report says of it.
  unfoldable pub delete : String → Pruning → Pruning
  delete key st =
      if denies key then record st { worm_suppressed = st.worm_suppressed + 1 } else record st {
        objects = keep (λ k. not (k == key)) st.objects;
        deleted = st.deleted ++ key ∷ [];
      }

  unfoldable pub delete_artifacts : List String → Pruning → Pruning
  unfolding delete
  delete_artifacts [] st = st
  delete_artifacts (akey ∷ artifact_keys) st = delete_artifacts artifact_keys (delete akey st)

abbrev pub keys_of_manifest : Option BackupManifest → List String
keys_of_manifest none = []
keys_of_manifest (some manifest) = artifact_keys manifest.artifacts

-- `_exists`: no as well where `dest.size_of(key)` fails for any other reason than a missing object.
abbrev pub exists : (String → Bool) → String → Pruning → Bool
exists size_fails key st = if size_fails key then false else mem key st.objects

-- Which deletes are denied, and, in a manifest's turn, which calls of `size_of` fail.
module _ (denies : String → Bool) (size_fails : String → String → Bool) where
  -- The artifacts that are left: not deleted here, and there as far as `_exists` says.
  abbrev pub remaining : String → List String → List String → Pruning → List String
  remaining mkey artifact_keys doomed_keys st =
      keep (λ k. not (mem k doomed_keys && not (denies k)) && exists (size_fails mkey) k st)
        artifact_keys

  -- The artifacts first, and the manifest when none is left.
  unfoldable pub prune_manifest : Dict BackupManifest → String → List String → Pruning → Pruning
  unfolding delete delete_artifacts
  prune_manifest manifests mkey doomed_keys st =
      let after = delete_artifacts denies doomed_keys st in
      if is_empty (remaining mkey (keys_of_manifest (lookup mkey manifests)) doomed_keys after)
      then delete denies mkey after
      else after

  unfoldable pub prune_doomed : Dict BackupManifest → Dict (List String) → Pruning → Pruning
  unfolding prune_manifest
  prune_doomed manifests [] st = st
  prune_doomed manifests ((mkey, doomed_keys) ∷ doomed) st =
      prune_doomed manifests doomed (prune_manifest manifests mkey doomed_keys st)

-- `prune_bundles`, with the readable manifests of the destination.
unfoldable pub prune_bundles :
    (String → Bool)
    → (String → String → Bool)
    → Dict RetentionCfg
    → Option String
    → ℕ
    → ℕ
    → Dict BackupManifest
    → List String
    → Pruning
unfolding doom_stores prune_doomed
prune_bundles denies size_fails retention protect_run_id now clock manifests objects =
    prune_doomed denies size_fails manifests
      (doom_stores protect_run_id now clock retention manifests [])
      (record { objects = objects; deleted = []; worm_suppressed = 0 })
