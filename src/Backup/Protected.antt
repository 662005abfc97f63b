-- ===== src/Backup/Protected.antt =====
-- Only artifacts and manifests of runs that are not protected are ever doomed.
use precis_finance_mcp.Common.{
  ℕ, ◌+◌, String, ◌≡◌, ◌⊎◌, refl, arith, Bool, true, false, ◌||◌, Option, some, List, [], ◌∷◌, ◌++◌,
  eq_iff, if◌then◌else◌, mem, mem-append, Dict, lookup, put, has_key-put, mem-keys, keys,
  Bool-cases, inl, inr,
}
use precis_finance_mcp.Common.Sort.{le_text}
use precis_finance_mcp.Backup.{
  ArtifactEntry, BackupManifest, RetentionCfg, key_or_none, artifact_keys, artifact, insert_newest,
  newest_first, StoredRun, run_of, with_artifact, is_protected, too_many, too_old, keys_at, doom,
  doom_ranked, doom_stores, prune_bundles,
}
use precis_finance_mcp.Backup.Kept.{doomed_keys, Gone, prune_doomed-Gone, prune_doomed_keeps}

doomed_keys-put :
    (k mkey : String) (akeys : List String) (doomed : Dict (List String))
    → mem k (doomed_keys (put mkey akeys doomed)) ≡ true
    → (mem k akeys || mem k (doomed_keys doomed)) ≡ true
doomed_keys-put k mkey akeys [] there = ground (arith, mem-append k akeys [])
doomed_keys-put k mkey akeys ((j, old) ∷ doomed) there = ground (
  arith,
  mem-append k akeys (doomed_keys doomed),
  mem-append k old (doomed_keys doomed),
  mem-append k old (doomed_keys (put mkey akeys doomed)),
  doomed_keys-put k mkey akeys doomed,
)

doomed_keys-keys_at :
    (k mkey : String) (doomed : Dict (List String))
    → mem k (keys_at mkey doomed) ≡ true
    → mem k (doomed_keys doomed) ≡ true
doomed_keys-keys_at k mkey [] there = cc
doomed_keys-keys_at k mkey ((j, old) ∷ doomed) there =
    ground (arith, mem-append k old (doomed_keys doomed), doomed_keys-keys_at k mkey doomed)

mem-artifact :
    (k store : String) (artifacts : List ArtifactEntry)
    → mem k (artifact store artifacts) ≡ true
    → mem k (artifact_keys artifacts) ≡ true
unfolding artifact
mem-artifact k store [] there = cc
mem-artifact k store (entry ∷ artifacts) there = ground (
  arith,
  mem-append k (key_or_none entry.key) (artifact_keys artifacts),
  mem-artifact k store artifacts,
)

module _ (protect_run_id : Option String) where
  -- The artifacts that runs other than the protected one refer to, and their manifests.
  abbrev pub other_artifacts : Dict BackupManifest → List String
  other_artifacts [] = []
  other_artifacts ((mkey, m) ∷ manifests) =
      (if is_protected protect_run_id m then [] else artifact_keys m.artifacts)
      ++ other_artifacts manifests

  abbrev pub other_manifests : Dict BackupManifest → List String
  other_manifests [] = []
  other_manifests ((mkey, m) ∷ manifests) =
      (if is_protected protect_run_id m then [] else mkey ∷ []) ++ other_manifests manifests

  others_of_insert :
      (k j : String) (m : BackupManifest) (manifests : Dict BackupManifest)
      → (mem k (other_artifacts (insert_newest (j, m) manifests))
          ≡ mem k (other_artifacts ((j, m) ∷ manifests)))
        × (mem k (other_manifests (insert_newest (j, m) manifests))
            ≡ mem k (other_manifests ((j, m) ∷ manifests)))
  others_of_insert k j m [] = (refl, refl)
  others_of_insert k j m ((i, n) ∷ manifests) =
      let a = λ (x : BackupManifest).
        if is_protected protect_run_id x then [] else artifact_keys x.artifacts in
      let b =
        λ (y : String) (x : BackupManifest). if is_protected protect_run_id x then [] else y ∷ [] in
      let ih = others_of_insert k j m manifests in
      elim (Bool-cases (le_text n.run_id m.run_id)) [
        | inl first ↦ rw (insert_newest, first) (refl, refl)
        | inr later ↦
            rw (insert_newest, later)
              (
                ground (
                  arith,
                  ih.0,
                  mem-append k (a n) (other_artifacts (insert_newest (j, m) manifests)),
                  mem-append k (a m) (other_artifacts manifests),
                  mem-append k (a n) (other_artifacts manifests),
                  mem-append k (a m) (a n ++ other_artifacts manifests),
                ),
                ground (
                  arith,
                  ih.1,
                  mem-append k (b i n) (other_manifests (insert_newest (j, m) manifests)),
                  mem-append k (b j m) (other_manifests manifests),
                  mem-append k (b i n) (other_manifests manifests),
                  mem-append k (b j m) (b i n ++ other_manifests manifests),
                ),
              )
      ]

  others_of_newest :
      (k : String) (manifests : Dict BackupManifest)
      → (mem k (other_artifacts (newest_first manifests)) ≡ mem k (other_artifacts manifests))
        × (mem k (other_manifests (newest_first manifests)) ≡ mem k (other_manifests manifests))
  unfolding newest_first
  others_of_newest k [] = (refl, refl)
  others_of_newest k ((j, m) ∷ manifests) =
      let a = if is_protected protect_run_id m then [] else artifact_keys m.artifacts in
      let b = if is_protected protect_run_id m then [] else j ∷ [] in
      let (first, second) = others_of_insert k j m (newest_first manifests) in
      let (ih, ih') = others_of_newest k manifests in
      (
        ground (
          arith,
          first,
          ih,
          mem-append k a (other_artifacts (newest_first manifests)),
          mem-append k a (other_artifacts manifests),
        ),
        ground (
          arith,
          second,
          ih',
          mem-append k b (other_manifests (newest_first manifests)),
          mem-append k b (other_manifests manifests),
        ),
      )

  -- All that is doomed is in the two lists.
  abbrev Inside : List String → List String → Dict (List String) → Type 0
  Inside artifacts mkeys doomed =
      (k : String)
      → ((mem k (doomed_keys doomed) ≡ true → mem k artifacts ≡ true)
          × (mem k (keys doomed) ≡ true → mem k mkeys ≡ true))

  abbrev RunsInside : List String → List String → List StoredRun → Type 0
  RunsInside artifacts mkeys [] = Unit
  RunsInside artifacts mkeys (run ∷ runs) =
      (is_protected protect_run_id run.manifest ≡ false
        → (mem run.artifact_key artifacts ≡ true) × (mem run.mkey mkeys ≡ true))
      × RunsInside artifacts mkeys runs

  module _ (artifacts mkeys : List String) where
    doom-Inside :
        (run : StoredRun) (doomed : Dict (List String))
        → mem run.artifact_key artifacts ≡ true
        → mem run.mkey mkeys ≡ true
        → Inside artifacts mkeys doomed
        → Inside artifacts mkeys (doom run doomed)
    doom-Inside run doomed a b inside k =
        let more = keys_at run.mkey doomed ++ run.artifact_key ∷ [] in
        (
          λ there. ground (
            arith,
            doomed_keys-put k run.mkey more doomed there,
            mem-append k (keys_at run.mkey doomed) (run.artifact_key ∷ []),
            doomed_keys-keys_at k run.mkey doomed,
            (inside k).0,
            eq_iff run.artifact_key k,
          ),
          λ there. ground (
            arith,
            mem-keys k (put run.mkey more doomed),
            has_key-put run.mkey k more doomed,
            mem-keys k doomed,
            (inside k).1,
            eq_iff run.mkey k,
          ),
        )

    doom_if-Inside :
        (run : StoredRun) (doomed : Dict (List String)) (protected too_much : Bool)
        → (protected ≡ false
            → (mem run.artifact_key artifacts ≡ true) × (mem run.mkey mkeys ≡ true))
        → Inside artifacts mkeys doomed
        → Inside artifacts mkeys
            (if protected then doomed else if too_much then doom run doomed else doomed)
    doom_if-Inside run doomed true too_much own inside = inside
    doom_if-Inside run doomed false true own inside =
        doom-Inside run doomed (own refl).0 (own refl).1 inside
    doom_if-Inside run doomed false false own inside = inside

    doom_ranked-Inside :
        (now clock rank : ℕ) (retention : RetentionCfg) (runs : List StoredRun)
        (doomed : Dict (List String))
        → RunsInside artifacts mkeys runs
        → Inside artifacts mkeys doomed
        → Inside artifacts mkeys (doom_ranked protect_run_id now clock retention rank runs doomed)
    unfolding doom_ranked
    doom_ranked-Inside now clock rank retention [] doomed runs_in inside = inside
    doom_ranked-Inside now clock rank retention (run ∷ runs) doomed (own, rest) inside =
        doom_ranked-Inside now clock (rank + 1) retention runs _ rest (
          doom_if-Inside run doomed (is_protected protect_run_id run.manifest)
            (too_many retention rank || too_old retention now clock run.manifest) own inside)

    run_of-RunsInside :
        (mkey : String) (m : BackupManifest) (akeys : List String) (runs : List StoredRun)
        → ((k : String)
            → mem k akeys ≡ true
            → is_protected protect_run_id m ≡ false
            → mem k artifacts ≡ true)
        → (is_protected protect_run_id m ≡ false → mem mkey mkeys ≡ true)
        → RunsInside artifacts mkeys runs
        → RunsInside artifacts mkeys (run_of mkey m akeys ++ runs)
    run_of-RunsInside mkey m [] runs a b rest = rest
    run_of-RunsInside mkey m (key ∷ akeys) runs a b rest =
        (λ other. (a key (ground (arith, eq_iff key key)) other, b other), rest)

    with_artifact-RunsInside :
        (store : String) (manifests : Dict BackupManifest)
        → ((k : String)
            → ((mem k (other_artifacts manifests) ≡ true → mem k artifacts ≡ true)
                × (mem k (other_manifests manifests) ≡ true → mem k mkeys ≡ true)))
        → RunsInside artifacts mkeys (with_artifact store manifests)
    unfolding with_artifact
    with_artifact-RunsInside store [] within = tt
    with_artifact-RunsInside store ((j, m) ∷ manifests) within =
        let a = if is_protected protect_run_id m then [] else artifact_keys m.artifacts in
        let b = if is_protected protect_run_id m then [] else j ∷ [] in
        run_of-RunsInside j m (artifact store m.artifacts) (with_artifact store manifests)
          (λ k there other. ground (
            arith,
            (within k).0,
            mem-append k a (other_artifacts manifests),
            mem-artifact k store m.artifacts there,
            other,
          ))
          (λ other.
            ground
              (arith, (within j).1, mem-append j b (other_manifests manifests), eq_iff j j, other))
          (with_artifact-RunsInside store manifests (λ k. (
            λ there.
                ground (arith, (within k).0, mem-append k a (other_artifacts manifests), there),
            λ there.
                ground (arith, (within k).1, mem-append k b (other_manifests manifests), there),
          )))

  doom_stores-Inside :
      (now clock : ℕ) (stores : Dict RetentionCfg) (manifests : Dict BackupManifest)
      (doomed : Dict (List String))
      → Inside (other_artifacts manifests) (other_manifests manifests) doomed
      → Inside
          (other_artifacts manifests)
          (other_manifests manifests)
          (doom_stores protect_run_id now clock stores manifests doomed)
  unfolding doom_stores
  doom_stores-Inside now clock [] manifests doomed inside = inside
  doom_stores-Inside now clock ((store, retention) ∷ stores) manifests doomed inside =
      let artifacts = other_artifacts manifests in
      let mkeys = other_manifests manifests in
      doom_stores-Inside now clock stores manifests _ (
        doom_ranked-Inside artifacts mkeys now clock 0 retention
          (with_artifact store (newest_first manifests)) doomed
          (with_artifact-RunsInside artifacts mkeys store (newest_first manifests) (λ k.
            let (first, second) = others_of_newest k manifests in
            (λ there. ground (arith, first, there), λ there. ground (arith, second, there))))
          inside)

  module _ (denies : String → Bool) (size_fails : String → String → Bool)
      (retention : Dict RetentionCfg) (now clock : ℕ) (manifests : Dict BackupManifest)
      (objects : List String) where
    doomed-Inside :
        Inside
          (other_artifacts manifests)
          (other_manifests manifests)
          (doom_stores protect_run_id now clock retention manifests [])
    doomed-Inside =
        doom_stores-Inside now clock retention manifests [] (λ k. (λ there. cc, λ there. cc))

    -- Whatever the retention, the time, the deletes that the destination denies and the questions for a
    -- size that fail: an object that is neither an artifact nor the manifest of a run other than the protected one is kept.
    pub prune_bundles-protects :
        (k : String)
        → mem k objects ≡ true
        → mem k (other_artifacts manifests) ≡ false
        → mem k (other_manifests manifests) ≡ false
        → mem k
            (prune_bundles denies size_fails retention protect_run_id now clock manifests
              objects).objects
          ≡ true
    unfolding prune_bundles
    prune_bundles-protects k there no_artifact no_manifest =
        let (a, b) = doomed-Inside k in
        let doomed = doom_stores protect_run_id now clock retention manifests [] in
        prune_doomed_keeps denies size_fails manifests doomed k _ there
          (ground (arith, no_artifact, a)) (ground (arith, no_manifest, b))

    -- Whatever the retention, the time, the deletes that the destination denies and the questions for a
    -- size that fail: a manifest that was there, and is not an artifact itself, is still there, or every
    -- artifact it refers to is gone, except those whose question for a size fails in its turn.
    pub prune_bundles-Gone :
        (mkey : String) (m : BackupManifest)
        → lookup mkey manifests ≡ some m
        → mem mkey objects ≡ true
        → mem mkey (other_artifacts manifests) ≡ false
        → (mem mkey
              (prune_bundles denies size_fails retention protect_run_id now clock manifests
                objects).objects
            ≡ true)
          ⊎ Gone
              (size_fails mkey)
              m
              (prune_bundles denies size_fails retention protect_run_id now clock manifests objects)
    unfolding prune_bundles
    prune_bundles-Gone mkey m known there no_artifact =
        let (a, _) = doomed-Inside mkey in
        let doomed = doom_stores protect_run_id now clock retention manifests [] in
        prune_doomed-Gone denies size_fails manifests doomed mkey m _ known
          (ground (arith, no_artifact, a)) (inl there)
